-- ===== src/Network/Delivery.antt =====
-- A line that is sent is received.
use p2p_server_file_storage.Prelude.{
  Bool-cases, Option-cases, inl, inr, ltb, ◌&&◌, ◌-◌, drop, subst, All-drop, ◌==◌, Option, some, ap,
  ◌∙◌, ℕ, ◌+◌, ◌%◌, ◌^◌, ◌<◌, ◌≡◌, ◌≢◌, sym, refl, true, false, List, [], ◌∷◌, ◌++◌, append-nil,
  append_assoc, arith, length, length-append, All,
}
use p2p_server_file_storage.Text.{
  Text, crlf, newline, carriage_return, is_empty, str_eq, str_eq_iff,
}
use p2p_server_file_storage.Text.Lines.{IsLine, pop_carriage_return-append}
use p2p_server_file_storage.Network.{
  is_sent, Recv, byte, finish, receive_loop, receive_message, message_text, send_message,
}

-- The bytes of a text, as they arrive.
abbrev pub bytes : Text → List Recv
bytes [] = []
bytes (c ∷ s) = byte c ∷ bytes s

pub bytes-append : (s t : Text) → bytes (s ++ t) ≡ bytes s ++ bytes t
bytes-append [] t = refl
bytes-append (c ∷ s) t = rw (bytes-append s t)

finish_line :
    (max : ℕ) (message : Text) (rest : List Recv)
    → length message + 1 < max
    → is_empty message ≡ false
    → receive_loop max (byte newline ∷ rest) (message ++ carriage_return ∷ []) carriage_return
      ≡ record { success = true; message = message; rest = rest }
unfolding receive_loop finish
finish_line max message rest h ne =
    ground (arith, length-append message (carriage_return ∷ []), pop_carriage_return-append message)

receive_loop-line :
    (max : ℕ) (l message : Text) (prev : ℕ) (rest : List Recv)
    → All (λ c. c ≢ newline) l
    → length message + length l + 1 < max
    → is_empty (message ++ l) ≡ false
    → receive_loop max (bytes l ++ (bytes crlf ++ rest)) message prev
      ≡ record { success = true; message = message ++ l; rest = rest }
unfolding receive_loop
receive_loop-line max [] message prev rest h short ne =
    ground (arith, append-nil message, finish_line max message rest)
receive_loop-line max (c ∷ l) message prev rest (hc, h) short ne = ground (
  arith,
  receive_loop-line max l (message ++ c ∷ []) c rest h,
  append_assoc message (c ∷ []) l,
  length-append message (c ∷ []),
)

-- A line that is not empty, holds no newline and is at least two bytes shorter than the limit is
-- received as it was sent, and what follows it on the socket is left there.
pub receive_message-line :
    (max : ℕ) (l : Text) (rest : List Recv)
    → IsLine l
    → length l + 1 < max
    → receive_message max (bytes l ++ (bytes crlf ++ rest))
      ≡ record { success = true; message = l; rest = rest }
unfolding receive_message
receive_message-line max l rest (ne, h) short = receive_loop-line max l [] 0 rest h (omega arith) ne

-- `SendMessage` adds CRLF to a line.
pub message_text-IsLine : (l : Text) → IsLine l → message_text l ≡ l ++ crlf
unfolding message_text
message_text-IsLine l (ne, h) = elim (Bool-cases (ltb (length l) 2)) [
  | inl short ↦ rw short refl
  | inr long ↦ elim (Bool-cases (str_eq (drop (length l - 2) l) crlf)) [
    | inr e ↦ rw (long, e) refl
    | inl e ↦
        let same : drop (length l - 2) l ≡ crlf = (str_eq_iff (drop (length l - 2) l) crlf).0 e in
        let clean : All (λ c. c ≢ newline) crlf =
          subst (All (λ c. c ≢ newline)) same (All-drop (λ c. c ≢ newline) (length l - 2) l h) in
        absurd (clean.1.0 refl)
  ]
]

-- A message that `send` takes is handed over whole, if it is shorter than 2^31 bytes.
pub send_message_lem :
    (send : Text → Option ℕ) (message : Text)
    → length (message_text message) < 2 ^ 31
    → send_message send message ≡ true
    → send (message_text message) ≡ some (length (message_text message))
unfolding send_message is_sent
send_message_lem send message short e = elim (Option-cases (send (message_text message))) [
  | inl none_sent ↦
      let failed : (length (message_text message) % 2 ^ 32 == 2 ^ 32 - 1) ≡ true =
        ap (is_sent (message_text message)) (sym none_sent) ∙ e in
      absurd (ground (arith, failed, short))
  | inr (n, sent) ↦
      let done : (ltb n (2 ^ 31) && n == length (message_text message) % 2 ^ 32) ≡ true =
        ap (is_sent (message_text message)) (sym sent) ∙ e in
      sent ∙ ap some (ground (arith, done, short))
]
