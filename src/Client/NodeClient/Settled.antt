-- ===== src/Client/NodeClient/Settled.antt =====
-- What becomes of the socket of an exchange.
use p2p_server_file_storage.Prelude.{
  ℕ, ◌≡◌, refl, Bool, true, false, not, ◌&&◌, List, ◌++◌, Option, none, some, if_cases, Bool-cases,
  inl, inr,
}
use p2p_server_file_storage.Text.{Text, codes}
use p2p_server_file_storage.Text.Words.{parse_command}
use p2p_server_file_storage.Network.{Recv, Received, send_message, receive_message, max_message}
use p2p_server_file_storage.Network.Binary.{Sent, send_binary_data, receive_binary_data}
use p2p_server_file_storage.Client.MetadataClient.{StorageNodeInfo, is_ok}
use p2p_server_file_storage.Network.Sockets.{
  ends_closed, settled, connect_to-settled, Connection, Event, handed, hand_over,
}
use p2p_server_file_storage.Client.NodeClient.{
  node_port, connect_to_node, store_answer, store_chunk, recv_parts, Fetched, running, threw,
  failed, fetched, got_data, get_data, third_number, get_answer, get_command, get_chunk,
  check_chunk, store_command,
}

-- Whether `GetChunk` returns.
abbrev pub returns : Fetched → Bool
returns running = false
returns threw = false
returns failed = true
returns (fetched d) = true

-- What holds where a call of `StoreChunk` returns.
abbrev pub Settles : Option (Bool × List Event) → Type 0
Settles none = Unit
Settles (some (success, events)) = settled events ≡ true

connect_to_node-settled :
    (k : Connection) (node : StorageNodeInfo)
    → (connect_to_node k node).0 ≡ false
    → settled (connect_to_node k node).1 ≡ true
unfolding connect_to_node
connect_to_node-settled k node =
    connect_to-settled k node.ip_address (node_port k.unset_port node.port)

store_answer-Settles :
    (k : Connection) (command : List ℕ) (sent : Sent)
    → Settles (store_answer k (handed command) sent)
unfolding settled ends_closed store_answer
store_answer-Settles k command none = tt
store_answer-Settles k command (some (true, sent)) = refl
store_answer-Settles k command (some (false, sent)) = refl

store_chunk-Settles :
    (k : Connection) (node : StorageNodeInfo) (id : Text) (d : List ℕ)
    → Settles (store_chunk k node id d)
unfolding store_chunk hand_over
store_chunk-Settles k node id d = elim (Bool-cases (connect_to_node k node).0) [
  | inr e ↦ rw e (connect_to_node-settled k node e)
  | inl e ↦ rw e (
      if_cases Settles (not (send_message k.send (store_command id d)))
        (unfold settled ends_closed in refl)
        (store_answer-Settles k _ (send_binary_data k.sends d)))
]

abbrev Returns : Fetched × List Event → Type 0
Returns r = settled r.1 ≡ returns r.0

got_data-Returns : (command : List ℕ) (sent : Sent) → Returns (got_data (handed command) sent)
unfolding settled ends_closed got_data
got_data-Returns command none = refl
got_data-Returns command (some (true, sent)) = refl
got_data-Returns command (some (false, sent)) = refl

get_data-Returns :
    (k : Connection) (command : List ℕ) (input : List Recv) (size : Option ℕ)
    → Returns (get_data k (handed command) input size)
unfolding settled ends_closed get_data
get_data-Returns k command input none = refl
get_data-Returns k command input (some size) =
    if_cases Returns (k.allocates size)
      (got_data-Returns command (receive_binary_data (recv_parts k.large k.grains size input) size))
      refl

get_answer-Returns :
    (k : Connection) (command : List ℕ) (r : Received) → Returns (get_answer k (handed command) r)
unfolding settled ends_closed get_answer
get_answer-Returns k command r =
    if_cases Returns (r.success && is_ok 3 (codes "GET_RESPONSE") (parse_command r.message))
      (get_data-Returns k command r.rest (third_number (parse_command r.message))) refl

get_chunk-Returns :
    (k : Connection) (node : StorageNodeInfo) (id : Text) → Returns (get_chunk k node id)
unfolding get_chunk hand_over
get_chunk-Returns k node id = elim (Bool-cases (connect_to_node k node).0) [
  | inr e ↦ rw e (connect_to_node-settled k node e)
  | inl e ↦ rw e (
      if_cases Returns (not (send_message k.send (get_command id)))
        (unfold settled ends_closed in refl)
        (get_answer-Returns k _ (receive_message max_message k.input)))
]

check_chunk-settled :
    (k : Connection) (node : StorageNodeInfo) (id : Text) → settled (check_chunk k node id).1 ≡ true
unfolding check_chunk hand_over settled ends_closed
check_chunk-settled k node id = elim (Bool-cases (connect_to_node k node).0) [
  | inr e ↦ rw e (connect_to_node-settled k node e)
  | inl e ↦ rw e (
      if_cases (λ (r : Bool × List Event). settled r.1 ≡ true)
        (not (send_message k.send (codes "CHECK_CHUNK " ++ id))) refl refl)
]

-- Every exchange that returns closes the socket that it created, once and behind everything it
-- handed over; `GetChunk` leaves it open exactly where it does not return: its loop runs on, or the
-- buffer for the announced size cannot be allocated.
pub exchanges_close :
    (k : Connection) (node : StorageNodeInfo) (id : Text) (d : List ℕ)
    → Settles (store_chunk k node id d)
      × (settled (check_chunk k node id).1 ≡ true)
      × (settled (get_chunk k node id).1 ≡ returns (get_chunk k node id).0)
exchanges_close k node id d =
    (store_chunk-Settles k node id d, check_chunk-settled k node id, get_chunk-Returns k node id)
