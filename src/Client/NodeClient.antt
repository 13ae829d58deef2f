-- ===== src/Client/NodeClient.antt =====
-- NodeClient of client/src/core/node_client.cpp: the exchanges with a storage node, each over a
-- connection of its own. The console output is left out.
pub mod Delivered
pub mod Stored
pub mod Settled
use p2p_server_file_storage.Prelude.{
  ℕ, zero, suc, ◌-◌, ◌%◌, ◌^◌, Bool, true, false, not, ◌&&◌, List, [], ◌∷◌, ◌++◌, Option, none,
  some, if◌then◌else◌, length, ltb, take, drop, min, ℤ, pos, negsuc,
}
use p2p_server_file_storage.Text.{Text, codes, contains, to_string, stoull}
use p2p_server_file_storage.Text.Words.{parse_command}
use p2p_server_file_storage.Network.{
  Recv, byte, failure, Received, message_text, send_message, receive_message, max_message,
}
use p2p_server_file_storage.Network.Sockets.{
  Connection, Event, opened, handed, closed, port_number, connect_to, hand_over,
}
use p2p_server_file_storage.Network.Binary.{Sent, send_binary_data, receive_binary_data}
use p2p_server_file_storage.Client.MetadataClient.{StorageNodeInfo, is_ok}

node_port : ℤ → Option ℤ → ℕ
unfolding port_number
node_port unset none = port_number unset
node_port unset (some p) = port_number p

-- `ConnectToNode`: its result, and what it did to the socket.
unfoldable pub connect_to_node : Connection → StorageNodeInfo → Bool × List Event
unfolding node_port
connect_to_node k node = connect_to k node.ip_address (node_port k.unset_port node.port)

-- `response.find(part) != npos`, where there is a response.
unfoldable pub response_contains : Text → Received → Bool
response_contains part r = r.success && contains part r.message

unfoldable pub store_command : Text → List ℕ → Text
store_command id data_bytes =
    codes "STORE_CHUNK " ++ (id ++ (codes " " ++ to_string (length data_bytes)))

-- `StoreChunk` from the end of the sending loop; `none` is a loop that still runs.
unfoldable pub store_answer : Connection → Event → Sent → Option (Bool × List Event)
store_answer k command none = none
store_answer k command (some (false, sent)) =
    some (false, opened ∷ command ∷ handed sent ∷ closed ∷ [])
store_answer k command (some (true, sent)) = some (
  response_contains (codes "STORE_RESPONSE OK") (receive_message max_message k.input),
  opened ∷ command ∷ handed sent ∷ closed ∷ [],
)

-- `StoreChunk`.
unfoldable pub store_chunk :
    Connection → StorageNodeInfo → Text → List ℕ → Option (Bool × List Event)
store_chunk k node id data_bytes =
    let (connected, events) = connect_to_node k node in
    let command = store_command id data_bytes in
    if not connected
    then some (false, events)
    else if not (send_message k.send command)
    then some (false, opened ∷ hand_over k command ∷ closed ∷ [])
    else store_answer k (hand_over k command) (send_binary_data k.sends data_bytes)

-- The bytes that have come, at most as many as asked for.
leading : ℕ → List Recv → List ℕ
leading (suc n) (byte c ∷ input) = c ∷ leading n input
leading n input = []

-- One `recv` of at most `n` bytes.
recv_part : ℕ → List Recv → Option (List ℕ)
unfolding leading
recv_part n (failure ∷ input) = none
recv_part n input = some (leading n input)

-- The length that `recv` is asked for, a `size_t` that is converted to `int`; where it is negative as an
-- `int`, `large` says what is read.
asked : (ℕ → Option ℕ) → ℕ → Option ℕ
asked large wanted = if ltb (wanted % 2 ^ 32) (2 ^ 31) then some (wanted % 2 ^ 32) else large wanted

-- The calls of `recv` in `ReceiveBinaryData`, with the bytes that are still wanted.
unfoldable pub recv_parts : (ℕ → Option ℕ) → List ℕ → ℕ → List Recv → List (Option (List ℕ))
unfolding asked recv_part leading
recv_parts large [] wanted input = []
recv_parts large (g ∷ grains) wanted input = elim (asked large wanted) [
  | none ↦ none ∷ []
  | some a ↦
      let n = length (leading (min (suc g) a) input) in
      recv_part (min (suc g) a) input ∷ recv_parts large grains (wanted - n) (drop n input)
]

-- How `GetChunk` ends: its loop still runs, `data.resize` throws, it returns false, or it returns
-- true with the data.
pub data Fetched : Type 0 where
  running : Fetched
  threw : Fetched
  failed : Fetched
  fetched : List ℕ → Fetched

get_command : Text → Text
get_command id = codes "GET_CHUNK " ++ id

-- Behind the loop that receives the data.
got_data : Event → Sent → Fetched × List Event
got_data command none = (running, opened ∷ command ∷ [])
got_data command (some (false, _)) = (failed, opened ∷ command ∷ closed ∷ [])
got_data command (some (true, d)) = (fetched d, opened ∷ command ∷ closed ∷ [])

-- Behind the size; the exception of `data.resize` leaves the socket open.
unfoldable pub get_data : Connection → Event → List Recv → Option ℕ → Fetched × List Event
unfolding got_data
get_data k command input none = (failed, opened ∷ command ∷ closed ∷ [])
get_data k command input (some size) =
    if k.allocates size
    then got_data command (receive_binary_data (recv_parts k.large k.grains size input) size)
    else (threw, opened ∷ command ∷ [])

-- `stoull(args[2])`, where the words are those of a positive answer.
third_number : List Text → Option ℕ
third_number (a ∷ b ∷ size ∷ args) = stoull size
third_number args = none

-- Behind the answer of the node.
unfoldable pub get_answer : Connection → Event → Received → Fetched × List Event
unfolding third_number
get_answer k command r =
    let args = parse_command r.message in
    if r.success && is_ok 3 (codes "GET_RESPONSE") args
    then get_data k command r.rest (third_number args)
    else (failed, opened ∷ command ∷ closed ∷ [])

-- `GetChunk`.
unfoldable pub get_chunk : Connection → StorageNodeInfo → Text → Fetched × List Event
unfolding get_command
get_chunk k node id =
    let (connected, events) = connect_to_node k node in
    let command = get_command id in
    if not connected
    then (failed, events)
    else if not (send_message k.send command)
    then (failed, opened ∷ hand_over k command ∷ closed ∷ [])
    else get_answer k (hand_over k command) (receive_message max_message k.input)

-- `CheckChunk`.
unfoldable pub check_chunk : Connection → StorageNodeInfo → Text → Bool × List Event
check_chunk k node id =
    let (connected, events) = connect_to_node k node in
    let command = codes "CHECK_CHUNK " ++ id in
    if not connected
    then (false, events)
    else if not (send_message k.send command)
    then (false, opened ∷ hand_over k command ∷ closed ∷ [])
    else (
      response_contains (codes "CHECK_RESPONSE EXISTS") (receive_message max_message k.input),
      opened ∷ hand_over k command ∷ closed ∷ [],
    )
