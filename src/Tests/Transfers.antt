-- ===== src/Tests/Transfers.antt =====
-- The theorems on the exchanges with storage nodes, with a file of one byte.
use p2p_server_file_storage.Prelude.{
  ℕ, ◌≤◌, ◌≡◌, refl, ap, Bool, true, List, [], ◌∷◌, ◌++◌, Option, some, none, arith, length, All,
  mem-cons_self, pos, if◌then◌else◌, Bool-cases, inl, inr,
}
use p2p_server_file_storage.Text.{
  Text, codes, crlf, is_space, str_eq, str_eq_iff, contains, starts_with, to_string, digits,
}
use p2p_server_file_storage.Text.Words.{IsWord, parse_command, unspaced, unspaced-IsWord}
use p2p_server_file_storage.Text.Lines.{pop_carriage_return}
use p2p_server_file_storage.UnorderedMap.{find}
use p2p_server_file_storage.Network.{
  Recv, is_sent, message_text, send_message, receive_message, max_message,
}
use p2p_server_file_storage.Network.Binary.{
  GetsOn, send_binary_data, send_loop, receive_binary_data,
}
use p2p_server_file_storage.Network.Delivery.{bytes}
use p2p_server_file_storage.Network.Sockets.{
  Connection, Event, opened, handed, closed, connect_to, hand_over, settled, port_number,
}
use p2p_server_file_storage.Client.ChunkProcessor.{Chunk, lower, to_lower, split_file, split_loop}
use p2p_server_file_storage.Client.MetadataClient.{
  Cache, StorageNodeInfo, RemoteFile, cached, get_node_info,
}
use p2p_server_file_storage.Client.NodeClient.{
  connect_to_node, fetched, get_chunk, store_chunk, check_chunk, recv_parts, store_command,
  store_answer, response_contains,
}
use p2p_server_file_storage.Client.NodeClient.Delivered.{
  IsAnsweredBy, get_response, get_chunk_lem, get_chunk_refused,
}
use p2p_server_file_storage.Client.NodeClient.Stored.{handed_bytes, store_chunk_received}
use p2p_server_file_storage.Client.NodeClient.Settled.{Settles, returns, exchanges_close}
use p2p_server_file_storage.Client.UploadManager.{
  total_size, upload_file, upload_chunks, upload_chunk, store_loop, select_nodes_for_chunk,
}
use p2p_server_file_storage.Client.UploadManager.Replication.{upload_file_taken}
use p2p_server_file_storage.Client.UploadManager.Transferred.{
  store_over, GetOn, AllTransferred, upload_file_transferred,
}
use p2p_server_file_storage.Client.DownloadManager.{download_file}
use p2p_server_file_storage.Client.DownloadManager.Transferred.{
  get_over, AllAvailable, download_file_transferred,
}

abbrev content : List ℕ
content = 7 ∷ []

abbrev zeros : Text
zeros = codes "000000000000000000000000000000000000000000000000000000000000000"

-- A hash that tells the content from everything else.
abbrev hash : List ℕ → Text
hash d = (if str_eq d content then b'1' else b'0') ∷ zeros

abbrev head : Text → ℕ
head [] = 0
head (c ∷ s) = c

hash_unforged : (d : List ℕ) → lower (hash d) ≡ lower (hash content) → d ≡ content
unfolding lower to_lower str_eq
hash_unforged d e = elim (Bool-cases (str_eq d content)) [
  | inl same ↦ (str_eq_iff d content).0 same
  | inr other ↦
      let zero_or_one : head (lower (hash d)) ≡ b'1' = ap head e in
      ground (arith, zero_or_one, other)
]

-- A connection over which everything is taken.
abbrev open_connection : List (Option ℕ) → List Recv → Connection
open_connection sends input = record {
  creates = true;
  is_address = λ t. true;
  connects = λ t n. true;
  send = λ t. some (length t);
  sends = sends;
  input = input;
  grains = 0 ∷ 3 ∷ [];
  large = λ n. none;
  allocates = λ n. true;
  unset_port = pos 0;
}

abbrev answering : Connection
answering =
    open_connection [] (bytes (get_response content) ++ (bytes crlf ++ (bytes content ++ [])))

abbrev Takes : Text → Type 0
Takes id = send_message answering.send (codes "GET_CHUNK " ++ id) ≡ true

answered : (node : StorageNodeInfo) (id : Text) → Takes id → IsAnsweredBy answering node id content
unfolding connect_to_node connect_to
answered node id whole = record {
  reached = refl;
  commanded = whole;
  rest = [];
  answered = refl;
  calls = omega arith;
  memory = refl;
  fits = omega arith;
}

answering-returns :
    (node : StorageNodeInfo) (id : Text) → returns (get_chunk answering node id).0 ≡ true
unfolding connect_to_node connect_to
answering-returns node id =
    elim (Bool-cases (send_message answering.send (codes "GET_CHUNK " ++ id))) [
      | inl whole ↦
          ap (λ r. returns r.0) (get_chunk_lem answering node id content (answered node id whole))
      | inr part ↦ ap returns (get_chunk_refused answering node id refl part)
    ]

abbrev node : Text → StorageNodeInfo
node name = record {
  node_id = name;
  ip_address = codes "10.0.0.1";
  port = some (pos 80);
  free_space = some 0;
}

letter-Takes : Takes (codes "x")
unfolding send_message is_sent message_text str_eq
letter-Takes = refl

hash-Takes : Takes (hash content)
unfolding send_message is_sent message_text str_eq
hash-Takes = refl

get_chunk_lem_example :
    get_chunk answering (node (codes "a")) (codes "x")
    ≡ (fetched content, opened ∷ hand_over answering (codes "GET_CHUNK x") ∷ closed ∷ [])
get_chunk_lem_example =
    get_chunk_lem answering (node (codes "a")) (codes "x") content
      (answered (node (codes "a")) (codes "x") letter-Takes)

abbrev storing : Connection
storing = open_connection (some 1 ∷ []) (bytes (codes "STORE_RESPONSE OK" ++ crlf))

abbrev stored_events : List Event
stored_events = opened ∷ handed (codes "STORE_CHUNK x 1" ++ crlf) ∷ handed content ∷ closed ∷ []

letter-IsWord : IsWord (codes "x")
unfolding unspaced is_space
letter-IsWord = unspaced-IsWord (codes "x") refl refl

stored : store_chunk storing (node (codes "a")) (codes "x") content ≡ some (true, stored_events)
unfolding store_chunk connect_to_node connect_to port_number store_command to_string digits
    send_message is_sent message_text str_eq hand_over store_answer send_binary_data send_loop
    response_contains receive_message contains starts_with pop_carriage_return
stored = refl

store_chunk_received_example :
    let r = receive_message max_message (bytes (handed_bytes stored_events)) in
    (r.success ≡ true)
    × (parse_command r.message ≡ codes "STORE_CHUNK" ∷ codes "x" ∷ to_string 1 ∷ [])
    × (receive_binary_data (recv_parts (λ n. none) (5 ∷ []) 1 r.rest) 1 ≡ some (true, content))
store_chunk_received_example =
    store_chunk_received storing (node (codes "a")) (codes "x") content stored_events (λ n. none)
      (5 ∷ []) (omega arith, tt) (omega arith) stored letter-IsWord (omega arith) (omega arith)
      (omega arith)

exchanges_close_example :
    Settles (store_chunk storing (node (codes "a")) (codes "x") content)
    × (settled (check_chunk storing (node (codes "a")) (codes "x")).1 ≡ true)
    × (settled (get_chunk storing (node (codes "a")) (codes "x")).1
        ≡ returns (get_chunk storing (node (codes "a")) (codes "x")).0)
exchanges_close_example = exchanges_close storing (node (codes "a")) (codes "x") content

abbrev cache : Cache
cache = (codes "a", cached (codes "a") (codes "10.0.0.1") (pos 80)) ∷ []

abbrev listed_file : RemoteFile
listed_file = record {
  filename = codes "f";
  total_size = some 1;
  chunk_count = some 1;
  chunks = record { chunk_id = hash content; index = 0; size = 1; node_ids = codes "a" ∷ [] } ∷ [];
}

abbrev get_net : StorageNodeInfo → Text → Connection
get_net node id = answering

available : AllAvailable hash get_net cache (split_file hash (some content)) listed_file.chunks
unfolding split_file split_loop get_node_info find str_eq
available = (
  record {
    same_id = refl;
    same_index = refl;
    holder = codes "a";
    listed = mem-cons_self;
    node = node (codes "a");
    known = refl;
    answered = answered (node (codes "a")) (hash content) hash-Takes;
    unforged = λ name d listed s. hash_unforged d s.hashed;
  },
  tt,
)

download_file_transferred_example :
    download_file hash (get_over get_net) listed_file cache true (λ i. true) ≡ (true, content)
download_file_transferred_example =
    download_file_transferred hash get_net listed_file cache (λ i. true) content answering-returns
      (λ d. refl) (λ i. refl) refl refl available

-- A call of `send` for each byte.
abbrev byte_by_byte : List ℕ → List (Option ℕ)
byte_by_byte [] = []
byte_by_byte (b ∷ d) = some 1 ∷ byte_by_byte d

abbrev store_net : StorageNodeInfo → Text → List ℕ → Connection
store_net node id d = open_connection (byte_by_byte d) (bytes (codes "STORE_RESPONSE OK" ++ crlf))

store_net-GetOn : GetOn store_net
store_net-GetOn = record { gets_on = λ node id d small. go d; calls = λ node id d small. enough d }
  where
    go : (d : List ℕ) → All GetsOn (byte_by_byte d)
    go [] = tt
    go (b ∷ d) = (omega arith, go d)

    enough : (d : List ℕ) → length d ≤ length (byte_by_byte d)
    enough [] = omega arith
    enough (b ∷ d) = omega (arith, enough d)

abbrev request : Text → ℕ → List StorageNodeInfo
request name size = node (codes "a") ∷ node (codes "b") ∷ []

abbrev notify : Text → List Chunk → List (List Text) → Bool
notify name chunks ids = true

uploads :
    (upload_file hash (store_over store_net) request notify (some content) (codes "f")).0 ≡ true
unfolding upload_file upload_chunks upload_chunk store_loop select_nodes_for_chunk split_file
    split_loop store_over store_chunk connect_to_node connect_to port_number store_command to_string
    digits send_message is_sent message_text str_eq hand_over store_answer send_binary_data
    send_loop response_contains receive_message contains starts_with pop_carriage_return
uploads = refl

upload_file_transferred_example :
    (ids : List (List Text)) × AllTransferred store_net
      (request (codes "f") (total_size (split_file hash (some content)) 0))
      (split_file hash (some content))
      ids
    × (true ≡ true)
upload_file_transferred_example =
    upload_file_transferred hash store_net request notify (some content) (codes "f") (λ d. refl)
      store_net-GetOn uploads

-- Every node takes what it is sent.
abbrev store_all : StorageNodeInfo → Text → List ℕ → Bool
store_all node id d = true

upload_file_taken_example :
    (ids : List (List Text)) × (upload_file hash store_all request notify (some content) (codes "f")
      ≡ (true, some ids))
unfolding split_file split_loop
upload_file_taken_example =
    upload_file_taken hash store_all request notify (some content) (codes "f") refl (omega arith)
      (λ node id d. refl)
