-- ===== src/Client/MetadataClient/Received.antt =====
-- The loop that receives a response of several lines: it ends, and gives back the lines sent.
use p2p_server_file_storage.Prelude.{
  ℕ, zero, suc, ◌+◌, ◌≤◌, ◌<◌, ◌≡◌, ◌↔◌, refl, ap, ◌∙◌, true, false, not, List, [], ◌∷◌, ◌++◌,
  Option, none, some, arith, length, length-append, append_assoc, append-nil, All, Bool-cases, inl,
  inr, if_cases,
}
use p2p_server_file_storage.Text.{Text, crlf, str_eq, str_eq_refl}
use p2p_server_file_storage.Text.Lines.{IsLine, unlines}
use p2p_server_file_storage.Network.{Recv, receive_message, max_message, send_message}
use p2p_server_file_storage.Network.Bounds.{receive_message_shorter}
use p2p_server_file_storage.Network.Delivery.{bytes, bytes-append, receive_message-line}
use p2p_server_file_storage.Network.Sockets.{
  Connection, Event, hand_over, settled, ends_closed, connect_to-settled, port_number,
}
use p2p_server_file_storage.Client.MetadataClient.Exchanges.{
  Address, connect_to_server, receive_lines, receive_response, request_lines,
}

-- What arrives bounds the rounds of the loop.
pub receive_lines_returns :
    (fuel : ℕ) (last : Text) (input : List Recv) (response : Text)
    → length input < fuel
    → (t : Text) × (receive_lines fuel last input response ≡ some t)
unfolding receive_lines
receive_lines_returns zero last input response h = absurd (omega (arith, h))
receive_lines_returns (suc fuel) last input response h =
    let r = receive_message max_message input in
    elim (Bool-cases r.success) [
      | inr e ↦ (response, rw e refl)
      | inl e ↦ elim (Bool-cases (str_eq r.message last)) [
        | inl at_end ↦ (response ++ (r.message ++ crlf), rw (e, at_end) refl)
        | inr further ↦
            let (t, more) =
              receive_lines_returns fuel last r.rest (response ++ (r.message ++ crlf))
                (omega (arith, h, receive_message_shorter max_message input e)) in
            (t, rw (e, further) more)
      ]
    ]

-- A line as `ReceiveMessage` can take it, other than the last.
pub record IsInner (last l : Text) : Type 0 where
  pub is_line : IsLine l
  pub short : length l + 1 < max_message
  pub other : str_eq l last ≡ false

abbrev pub IsLast : Text → Type 0
IsLast last = IsLine last × (length last + 1 < max_message)

received_line :
    (l : Text) (ls : List Text) (rest : List Recv)
    → IsLine l
    → length l + 1 < max_message
    → receive_message max_message (bytes (unlines (l ∷ ls)) ++ rest)
      ≡ record { success = true; message = l; rest = bytes (unlines ls) ++ rest }
received_line l ls rest line short =
    rw
      (
        bytes-append l (crlf ++ unlines ls),
        append_assoc (bytes l) (bytes (crlf ++ unlines ls)) rest,
        receive_message-line max_message l (bytes (unlines ls) ++ rest) line short,
      )
      refl

receive_lines-unlines :
    (fuel : ℕ) (last : Text) (ls : List Text) (rest : List Recv) (response : Text)
    → IsLast last
    → All (IsInner last) ls
    → length ls < fuel
    → receive_lines fuel last (bytes (unlines (ls ++ last ∷ [])) ++ rest) response
      ≡ some (response ++ unlines (ls ++ last ∷ []))
unfolding receive_lines
receive_lines-unlines zero last ls rest response h k enough = absurd (omega (arith, enough))
receive_lines-unlines (suc fuel) last [] rest response h k enough =
    rw (received_line last [] rest h.0 h.1, str_eq_refl last) (rw (append-nil crlf) refl)
receive_lines-unlines (suc fuel) last (l ∷ ls) rest response h (hl, k) enough =
    rw (received_line l (ls ++ last ∷ []) rest hl.is_line hl.short, hl.other)
      (receive_lines-unlines fuel last ls rest (response ++ (l ++ crlf)) h k (omega (arith, enough))
        ∙ ap some (
            append_assoc response (l ++ crlf) (unlines (ls ++ last ∷ []))
            ∙ ap (λ t. response ++ t) (append_assoc l crlf (unlines (ls ++ last ∷ [])))))

length-unlines :
    (ls : List Text) (rest : List Recv) → length ls ≤ length (bytes (unlines ls) ++ rest)
length-unlines [] rest = omega arith
length-unlines (l ∷ ls) rest = rw (bytes-append l (crlf ++ unlines ls)) (
    omega (
      arith,
      length-append (bytes l ++ bytes (crlf ++ unlines ls)) rest,
      length-append (bytes l) (bytes (crlf ++ unlines ls)),
      length-append (bytes (unlines ls)) rest,
      length-unlines ls rest,
    ))

-- Lines that the server sends are received as they were sent, up to the last.
pub receive_response-unlines :
    (last first : Text) (ls : List Text) (rest : List Recv)
    → IsLast last
    → IsLine first
    → length first + 1 < max_message
    → All (IsInner last) ls
    → receive_response last (bytes (unlines (first ∷ (ls ++ last ∷ []))) ++ rest)
      ≡ some (unlines (first ∷ (ls ++ last ∷ [])))
unfolding receive_response
receive_response-unlines last first ls rest h line short k =
    let body = bytes (unlines (ls ++ last ∷ [])) ++ rest in
    rw (received_line first (ls ++ last ∷ []) rest line short) (
      receive_lines-unlines (suc (length body)) last ls rest (first ++ crlf) h k
        (omega (arith, length-unlines (ls ++ last ∷ []) rest, length-append ls (last ∷ [])))
      ∙ ap some (append_assoc first crlf (unlines (ls ++ last ∷ []))))

receive_response_fails :
    (last : Text) (input : List Recv)
    → (receive_response last input ≡ none) ↔ ((receive_message max_message input).success ≡ false)
unfolding receive_response
receive_response_fails last input =
    let r = receive_message max_message input in
    let (t, e) =
      receive_lines_returns (suc (length r.rest)) last r.rest (r.message ++ crlf) (omega arith) in
    elim (Bool-cases r.success) [
      | inl got ↦ ground (arith, got, e)
      | inr lost ↦ (λ h. lost, λ h. rw lost refl)
    ]

request_lines-settled :
    (k : Connection) (a : Address) (request last : Text)
    → settled (request_lines k a request last).1 ≡ true
unfolding request_lines hand_over settled ends_closed
request_lines-settled k a request last = elim (Bool-cases (connect_to_server k a).0) [
  | inr e ↦
      rw e
        (unfold connect_to_server in connect_to-settled k a.server_ip (port_number a.server_port) e)
  | inl e ↦ rw e (
      if_cases (λ (r : Option Text × List Event). settled r.1 ≡ true)
        (not (send_message k.send request)) refl refl)
]

-- The loop of a response of several lines ends, whatever arrives: the response is missing exactly
-- where the first line cannot be received; and a socket that was created is closed.
pub request_lines_lem :
    (k : Connection) (a : Address) (request last : Text)
    → ((receive_response last k.input ≡ none)
        ↔ ((receive_message max_message k.input).success ≡ false))
      × (settled (request_lines k a request last).1 ≡ true)
request_lines_lem k a request last =
    (receive_response_fails last k.input, request_lines-settled k a request last)

-- The server is reached, `send` takes the whole request, and these lines come back.
pub record IsAnsweredWith (k : Connection) (a : Address) (request response : Text) : Type 0 where
  pub reached : (connect_to_server k a).0 ≡ true
  pub requested : send_message k.send request ≡ true
  pub rest : List Recv
  pub answered : k.input ≡ bytes response ++ rest

pub request_lines-unlines :
    (k : Connection) (a : Address) (request last first : Text) (ls : List Text)
    → IsAnsweredWith k a request (unlines (first ∷ (ls ++ last ∷ [])))
    → IsLast last
    → IsLine first
    → length first + 1 < max_message
    → All (IsInner last) ls
    → (request_lines k a request last).0 ≡ some (unlines (first ∷ (ls ++ last ∷ [])))
unfolding request_lines
request_lines-unlines k a request last first ls h e line short inner =
    rw (h.reached, h.requested, h.answered)
      (receive_response-unlines last first ls h.rest e line short inner)
