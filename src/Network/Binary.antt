-- ===== src/Network/Binary.antt =====
-- SendBinaryData and ReceiveBinaryData of common/src/network_utils.cpp. What `send` answers is a
-- parameter: for each call the bytes that it takes, `none` for SOCKET_ERROR; and so is what `recv`
-- delivers: for each call a part, empty where the connection is closed, `none` for SOCKET_ERROR. A
-- loop that still runs when the list ends is `none`.
use p2p_server_file_storage.Prelude.{
  ℕ, zero, suc, if_cases, ◌+◌, ◌≤◌, ◌<◌, ◌≡◌, refl, sym, ap, ◌∙◌, Bool, true, false, List, [], ◌∷◌,
  ◌++◌, append-nil, append_assoc, map, Option, none, some, arith, ltb, ◌==◌, if◌then◌else◌, length,
  length-append, take, drop, take-append-drop, All,
}
use p2p_server_file_storage.Text.{is_empty}

-- The bytes handed over, in order, beside the result.
abbrev pub Sent : Type 0
Sent = Option (Bool × List ℕ)

sent_before : List ℕ → Sent → Sent
sent_before part none = none
sent_before part (some (success, rest)) = some (success, part ++ rest)

-- The loop of `SendBinaryData`; `data` is what is left, and the last comparison is made where
-- nothing is left to send.
unfoldable pub send_loop : List (Option ℕ) → List ℕ → ℕ → Sent
unfolding sent_before
send_loop [] bytes total =
    if ltb total (length bytes) then none else some (total == length bytes, [])
send_loop (none ∷ answers) bytes total =
    if ltb total (length bytes) then some (false, []) else some (total == length bytes, [])
send_loop (some n ∷ answers) bytes total =
    let more = sent_before (take n (drop total bytes)) (send_loop answers bytes (total + n)) in
    if ltb total (length bytes) then more else some (total == length bytes, [])

unfoldable pub send_binary_data : List (Option ℕ) → List ℕ → Sent
send_binary_data answers bytes =
    if is_empty bytes then some (true, []) else send_loop answers bytes 0

-- The loop of `ReceiveBinaryData`, with the buffer as far as it is filled.
unfoldable pub receive_binary_loop : List (Option (List ℕ)) → ℕ → List ℕ → Sent
receive_binary_loop [] size buffer = if ltb (length buffer) size then none else some (true, buffer)
receive_binary_loop (none ∷ parts) size buffer =
    if ltb (length buffer) size then some (false, buffer) else some (true, buffer)
receive_binary_loop (some part ∷ parts) size buffer =
    let more = receive_binary_loop parts size (buffer ++ part) in
    if ltb (length buffer) size
    then (if is_empty part then some (false, buffer) else more)
    else some (true, buffer)

unfoldable pub receive_binary_data : List (Option (List ℕ)) → ℕ → Sent
receive_binary_data parts size =
    if size == 0 then some (true, []) else receive_binary_loop parts size []

abbrev pub concat : List (List ℕ) → List ℕ
concat [] = []
concat (p ∷ ps) = p ++ concat ps

receive_loop-concat :
    (ps : List (List ℕ)) (size : ℕ) (buffer : List ℕ)
    → All (λ (p : List ℕ). is_empty p ≡ false) ps
    → length buffer + length (concat ps) ≡ size
    → receive_binary_loop (map some ps) size buffer ≡ some (true, buffer ++ concat ps)
unfolding receive_binary_loop
receive_loop-concat [] size buffer h e =
    let full : ltb (length buffer) size ≡ false = ground (arith, e) in
    rw (full, append-nil buffer) refl
receive_loop-concat ((b ∷ p) ∷ ps) size buffer h e =
    let room : ltb (length buffer) size ≡ true =
      ground (arith, e, length-append (b ∷ p) (concat ps)) in
    rw room (
      receive_loop-concat ps size (buffer ++ b ∷ p) h.1
        (omega (arith, e, length-append (b ∷ p) (concat ps), length-append buffer (b ∷ p)))
      ∙ ap (λ l. some (true, l)) (append_assoc buffer (b ∷ p) (concat ps)))
receive_loop-concat ([] ∷ ps) size buffer h e = cc

-- Data that arrives in any parts that are not empty is received whole and in order.
pub receive_binary_data-concat :
    (ps : List (List ℕ))
    → All (λ (p : List ℕ). is_empty p ≡ false) ps
    → receive_binary_data (map some ps) (length (concat ps)) ≡ some (true, concat ps)
unfolding receive_binary_data
receive_binary_data-concat [] h = refl
receive_binary_data-concat ([] ∷ ps) h = cc
receive_binary_data-concat ((b ∷ p) ∷ ps) h =
    let some_data : (length (concat ((b ∷ p) ∷ ps)) == 0) ≡ false = ground arith in
    rw some_data
      (receive_loop-concat ((b ∷ p) ∷ ps) (length (concat ((b ∷ p) ∷ ps))) [] h (omega arith))

-- A call of `send` that gets on: it fails, or takes a byte at least.
abbrev pub GetsOn : Option ℕ → Type 0
GetsOn none = Unit
GetsOn (some n) = 0 < n

drop-nil : (n : ℕ) → drop {A = ℕ} n [] ≡ []
drop-nil zero = refl
drop-nil (suc n) = refl

drop-drop : (m n : ℕ) (l : List ℕ) → drop (m + n) l ≡ drop n (drop m l)
drop-drop zero n l = let e : 0 + n ≡ n = omega arith in ap (λ k. drop k l) e
drop-drop (suc m) n [] = drop-nil (suc m + n) ∙ sym (drop-nil n)
drop-drop (suc m) n (x ∷ l) =
    let e : suc m + n ≡ suc (m + n) = omega arith in ap (λ k. drop k (x ∷ l)) e ∙ drop-drop m n l

drop-length : (l : List ℕ) → drop (length l) l ≡ []
drop-length [] = refl
drop-length (x ∷ l) = drop-length l

abbrev Sends : List ℕ → ℕ → Sent → Type 0
Sends bytes total none = ⊥
Sends bytes total (some (success, sent)) = success ≡ true → sent ≡ drop total bytes

stop-Sends : (bytes : List ℕ) (total : ℕ) → Sends bytes total (some (total == length bytes, []))
stop-Sends bytes total e =
    let whole : total ≡ length bytes = ground arith in
    sym (ap (λ k. drop k bytes) whole ∙ drop-length bytes)

sent_before-Sends :
    (bytes : List ℕ) (total n : ℕ) (more : Sent)
    → Sends bytes (total + n) more
    → Sends bytes total (sent_before (take n (drop total bytes)) more)
unfolding sent_before
sent_before-Sends bytes total n (some (success, rest)) h = λ e.
    ap (λ l. take n (drop total bytes) ++ l) (h e ∙ drop-drop total n bytes)
    ∙ take-append-drop n (drop total bytes)
sent_before-Sends bytes total n none h = h

send_loop-Sends :
    (answers : List (Option ℕ)) (bytes : List ℕ) (total : ℕ)
    → All GetsOn answers
    → length bytes ≤ total + length answers
    → Sends bytes total (send_loop answers bytes total)
unfolding send_loop
send_loop-Sends [] bytes total h enough =
    let stop : ltb total (length bytes) ≡ false = ground arith in rw stop (stop-Sends bytes total)
send_loop-Sends (none ∷ answers) bytes total h enough =
    if_cases (Sends bytes total) (ltb total (length bytes)) (λ e. absurd (ground (arith, e)))
      (stop-Sends bytes total)
send_loop-Sends (some n ∷ answers) bytes total h enough =
    if_cases (Sends bytes total) (ltb total (length bytes))
      (sent_before-Sends bytes total n (send_loop answers bytes (total + n))
        (send_loop-Sends answers bytes (total + n) h.1 (omega (arith, h.0, enough))))
      (stop-Sends bytes total)

-- Where every call of `send` fails or takes a byte at least, and there are as many calls as bytes,
-- `SendBinaryData` returns; and if it returns true, the bytes it handed over are the data, in order.
pub send_binary_data_lem :
    (answers : List (Option ℕ)) (bytes : List ℕ)
    → All GetsOn answers
    → length bytes ≤ length answers
    → (success : Bool) × (sent : List ℕ) × (send_binary_data answers bytes ≡ some (success, sent))
      × (success ≡ true → sent ≡ bytes)
unfolding send_binary_data
send_binary_data_lem answers [] h enough = (true, [], refl, λ e. refl)
send_binary_data_lem answers (b ∷ bytes) h enough =
    go (send_loop answers (b ∷ bytes) 0)
      (send_loop-Sends answers (b ∷ bytes) 0 h (omega (arith, enough)))
  where
    go :
        (r : Sent)
        → Sends (b ∷ bytes) 0 r
        → (success : Bool) × (sent : List ℕ) × (r ≡ some (success, sent))
          × (success ≡ true → sent ≡ b ∷ bytes)
    go none h = elim h [ ]
    go (some (success, sent)) h = (success, sent, refl, h)
