-- ===== src/Network.antt =====
-- common/src/network_utils.cpp: messages over a socket. What a socket will deliver is a list of
-- `recv` results, a byte or a failure each; the end of the list is a closed connection. A `send`
-- is a parameter: how many bytes of a text it takes, `none` for SOCKET_ERROR.
pub mod Delivery
pub mod Binary
pub mod Sockets
pub mod Bounds
use p2p_server_file_storage.Prelude.{
  ℕ, ◌+◌, ◌-◌, ◌%◌, ◌^◌, Bool, true, false, not, ◌&&◌, ◌||◌, List, [], ◌∷◌, ◌++◌, Option, none,
  some, ltb, ◌==◌, if◌then◌else◌, length, drop,
}
use p2p_server_file_storage.Text.{Text, is_empty, str_eq, crlf, carriage_return, newline}
use p2p_server_file_storage.Text.Lines.{pop_carriage_return}

pub data Recv : Type 0 where
  byte : ℕ → Recv
  failure : Recv

-- The text that `SendMessage` hands to `send`: CRLF is added if it does not end in it.
unfoldable pub message_text : Text → Text
message_text message =
    if ltb (length message) 2 || not (str_eq (drop (length message - 2) message) crlf)
    then message ++ crlf
    else message

-- Whether what `send` returns is the length of a text, converted to `int`: a length that is negative as
-- an `int` is no number of bytes, but can be SOCKET_ERROR, which is -1.
unfoldable pub is_sent : Text → Option ℕ → Bool
is_sent text none = length text % 2 ^ 32 == 2 ^ 32 - 1
is_sent text (some sent) = ltb sent (2 ^ 31) && sent == length text % 2 ^ 32

unfoldable pub send_message : (Text → Option ℕ) → Text → Bool
unfolding is_sent
send_message send message = is_sent (message_text message) (send (message_text message))

-- What `ReceiveMessage` returns, the message, and what the socket will deliver next.
pub record Received : Type 0 where
  pub success : Bool
  pub message : Text
  pub rest : List Recv

finish : Text → List Recv → Received
finish message rest = record { success = not (is_empty message); message = message; rest = rest }

-- The loop; the last argument is `prevChar`.
receive_loop : ℕ → List Recv → Text → ℕ → Received
receive_loop max [] message prev = finish message []
receive_loop max (failure ∷ input) message prev =
    if ltb (length message) max
    then record { success = false; message = message; rest = input }
    else finish message (failure ∷ input)
receive_loop max (byte c ∷ input) message prev =
    let more = receive_loop max input (message ++ c ∷ []) c in
    if not (ltb (length message) max)
    then finish message (byte c ∷ input)
    else if prev == carriage_return && c == newline
    then finish (pop_carriage_return message) input
    else more

-- A timeout is a failure.
unfoldable pub receive_message : ℕ → List Recv → Received
unfolding receive_loop finish
receive_message max input = receive_loop max input [] 0

-- The default of the parameter `maxSize`, and the value that the server passes.
abbrev pub max_message : ℕ
max_message = 4096
