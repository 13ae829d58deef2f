-- ===== src/Network/Bounds.antt =====
-- What a call of `ReceiveMessage` leaves on the socket.
use p2p_server_file_storage.Prelude.{
  ℕ, ◌+◌, ◌≤◌, ◌<◌, ◌≡◌, true, not, ◌&&◌, List, [], ◌∷◌, ◌++◌, arith, ltb, ◌==◌, length,
  length-append, if_cases, Bool-cases, inl, inr,
}
use p2p_server_file_storage.Text.{Text, is_empty, carriage_return, newline}
use p2p_server_file_storage.Text.Lines.{pop_carriage_return}
use p2p_server_file_storage.Network.{
  Recv, byte, failure, Received, finish, receive_loop, receive_message,
}

-- What is left to come, beside the message, and a message that counts has a byte.
record Bounds (n : ℕ) (r : Received) : Type 0 where
  taken_from : length r.rest + length r.message ≤ n
  counted : r.success ≡ true → 0 < length r.message

is_empty-length : (l : Text) → not (is_empty l) ≡ true → 0 < length l
is_empty-length [] e = ground arith
is_empty-length (c ∷ l) e = omega arith

pop_carriage_return_shorter : (l : Text) → length (pop_carriage_return l) ≤ length l
unfolding pop_carriage_return
pop_carriage_return_shorter [] = omega arith
pop_carriage_return_shorter (c ∷ []) = elim (Bool-cases (c == carriage_return)) [
  | inl e ↦ rw e (omega arith)
  | inr e ↦ rw e (omega arith)
]
pop_carriage_return_shorter (c ∷ d ∷ l) = omega (arith, pop_carriage_return_shorter (d ∷ l))

finish-Bounds :
    (n : ℕ) (message : Text) (rest : List Recv)
    → length rest + length message ≤ n
    → Bounds n (finish message rest)
unfolding finish
finish-Bounds n message rest h = record { taken_from = h; counted = is_empty-length message }

receive_loop-Bounds :
    (max : ℕ) (input : List Recv) (message : Text) (prev : ℕ)
    → Bounds (length input + length message) (receive_loop max input message prev)
unfolding receive_loop
receive_loop-Bounds max [] message prev =
    finish-Bounds (0 + length message) message [] (omega arith)
receive_loop-Bounds max (failure ∷ input) message prev =
    let n : ℕ = length (failure ∷ input) + length message in
    if_cases (Bounds n) (ltb (length message) max)
      (record { taken_from = omega arith; counted = λ e. ground arith })
      (finish-Bounds n message (failure ∷ input) (omega arith))
receive_loop-Bounds max (byte c ∷ input) message prev =
    let n : ℕ = length (byte c ∷ input) + length message in
    let more = receive_loop-Bounds max input (message ++ c ∷ []) c in
    let same : length input + length (message ++ c ∷ []) ≡ n =
      omega (arith, length-append message (c ∷ [])) in
    if_cases (Bounds n) (not (ltb (length message) max))
      (finish-Bounds n message (byte c ∷ input) (omega arith))
      (if_cases (Bounds n) (prev == carriage_return && c == newline)
        (finish-Bounds n (pop_carriage_return message) input
          (omega (arith, pop_carriage_return_shorter message)))
        (record { taken_from = omega (arith, same, more.taken_from); counted = more.counted }))

-- A message that is received takes a byte at least.
pub receive_message_shorter :
    (max : ℕ) (input : List Recv)
    → (receive_message max input).success ≡ true
    → length (receive_message max input).rest < length input
unfolding receive_message
receive_message_shorter max input e =
    let b = receive_loop-Bounds max input [] 0 in omega (arith, b.taken_from, b.counted e)
