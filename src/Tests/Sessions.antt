-- ===== src/Tests/Sessions.antt =====
-- The theorems on requests and their bytes, at a server with one node and a file of one chunk.
use p2p_server_file_storage.Prelude.{
  ℕ, ◌^◌, ◌≤◌, ◌<◌, ◌≡◌, refl, true, false, length, append-nil, none, List, [], ◌∷◌, ◌++◌, some,
  arith, pos,
}
use p2p_server_file_storage.Text.{Text, codes, crlf, is_space, str_eq, to_string, digits, stoull}
use p2p_server_file_storage.Text.Words.{IsWord, parse_command}
use p2p_server_file_storage.UnorderedMap.{find}
use p2p_server_file_storage.Sort
use p2p_server_file_storage.UnorderedMap.{values}
use p2p_server_file_storage.Nodes.Queries
use p2p_server_file_storage.Nodes.Queries.{get_available_nodes}
use p2p_server_file_storage.Session.Offered.{IsNameable, offered}
use p2p_server_file_storage.Session.Requested.{request_upload_nodes-handle_request_upload}
use p2p_server_file_storage.Network.Sockets.{Connection, connect_to}
use p2p_server_file_storage.Network.{send_message, is_sent, message_text}
use p2p_server_file_storage.Client.MetadataClient.{request_upload_message}
use p2p_server_file_storage.Client.MetadataClient.Exchanges.{
  Address, connect_to_server, request_upload_nodes,
}
use p2p_server_file_storage.Protocol.{back, required_nodes, handle_request_upload}
use p2p_server_file_storage.Nodes
use p2p_server_file_storage.Nodes.{StorageNode, NodeManager, new_node, get_node}
use p2p_server_file_storage.Files
use p2p_server_file_storage.Files.{ChunkInfo, FileMetadata, get_file_chunks, sanitize_filename}
use p2p_server_file_storage.Network.{Recv, failure}
use p2p_server_file_storage.Network.Delivery.{bytes}
use p2p_server_file_storage.Protocol.{Server, Environment, handle_client, line}
use p2p_server_file_storage.Protocol.Serving.{Run, started, IsSound, Run-IsSound}
use p2p_server_file_storage.Protocol.Serving as Serving
use p2p_server_file_storage.Client.MetadataClient.{notify_message, notify_chunk_line}
use p2p_server_file_storage.Session.UploadComplete.{Placed, IsSendable, infos, node_ids}
use p2p_server_file_storage.Session.EndToEnd.{notify_registers}
use p2p_server_file_storage.Session.Download.{IsKnown, IsServable}

abbrev chunk_name : Text
chunk_name = codes "0123456789abcdef0123456789abcdef0123456789abcdef0123456789abcdef"

letters-IsWord : IsWord chunk_name
unfolding is_space
letters-IsWord = (refl, ground arith)

abbrev node_name : Text
node_name = codes "n1"

node_name-IsWord : IsWord node_name
unfolding is_space
node_name-IsWord = (refl, (refl, (refl, tt)))

abbrev placed : Placed
placed = record {
  chunk = record { chunk_id = chunk_name; index = 0; size = 7; bytes = [] };
  first = node_name;
  second = node_name;
  others = [];
}

placed-IsSendable : IsSendable placed
unfolding notify_chunk_line to_string digits
placed-IsSendable = record {
  id_word = letters-IsWord;
  id_length = refl;
  index_fits = omega arith;
  size_fits = omega arith;
  not_empty = omega arith;
  node_words = (node_name-IsWord, (node_name-IsWord, tt));
  line_fits = omega arith;
}

abbrev env : Environment
env = record { draws = []; clock = λ i. i }

file_name-IsWord : IsWord (codes "a.txt")
unfolding is_space
file_name-IsWord = (refl, (refl, (refl, (refl, (refl, (refl, tt))))))

notify_registers_example :
    (s' : Server) × (handle_client env
        (bytes (notify_message (codes "a.txt") (placed.chunk ∷ []) (node_ids placed ∷ [])) ++ [])
        started
      ≡ some (s', some (line (codes "UPLOAD_COMPLETE_RESPONSE OK"))))
    × (s'.nodes ≡ Nodes.initial)
    × (get_file_chunks (codes "a.txt") s'.files ≡ infos (placed ∷ []))
unfolding sanitize_filename Files.is_dangerous Files.is_blank
notify_registers_example =
    notify_registers (codes "a.txt") [] (placed ∷ []) [] env started (file_name-IsWord, tt)
      (omega arith) (placed-IsSendable, tt) refl (omega arith) refl (omega arith) refl

abbrev ip : Text
ip = codes "10.0.0.7"

abbrev node : StorageNode
node = new_node node_name ip (pos 80) 5000 10 10

abbrev nodes : NodeManager
nodes = record { nodes = (node_name, node) ∷ []; running = false }

ip-IsWord : IsWord ip
unfolding is_space
ip-IsWord = (refl, (refl, (refl, (refl, (refl, (refl, (refl, (refl, (refl, tt)))))))))

abbrev known : IsKnown nodes node_name
unfolding get_node find str_eq
known = record {
  id_word = node_name-IsWord;
  ip = ip;
  ip_word = ip-IsWord;
  port = 80;
  port_fits = omega arith;
  node = node;
  found = refl;
  has_ip = refl;
  has_port = refl;
}

abbrev chunk : ChunkInfo
chunk = record { chunk_id = chunk_name; index = 0; size = 7; node_ids = node_name ∷ [] }

servable : IsServable nodes chunk
unfolding known
servable = record {
  id_word = letters-IsWord;
  id_length = refl;
  index_fits = omega arith;
  size_fits = omega arith;
  stored = refl;
  known = (known, tt);
}

abbrev file : FileMetadata
file = record {
  filename = codes "a.txt";
  total_size = 7;
  chunks = chunk ∷ [];
  upload_time = 1;
  last_accessed = 2;
}

abbrev request : List Recv
request = bytes (codes "KEEP_ALIVE n1") ++ (bytes crlf ++ failure ∷ [])

uploaded :
    (s' : Server) × (handle_client env
        (bytes (notify_message (codes "a.txt") (placed.chunk ∷ []) (node_ids placed ∷ [])) ++ [])
        started
      ≡ some (s', some (line (codes "UPLOAD_COMPLETE_RESPONSE OK"))))
    × (s'.nodes ≡ Nodes.initial)
    × (get_file_chunks (codes "a.txt") s'.files ≡ infos (placed ∷ []))
unfolding sanitize_filename Files.is_dangerous Files.is_blank
uploaded =
    notify_registers (codes "a.txt") [] (placed ∷ []) [] env started (file_name-IsWord, tt)
      (omega arith) (placed-IsSendable, tt) refl (omega arith) refl (omega arith) refl

Run-IsSound_example : IsSound uploaded.0
Run-IsSound_example = Run-IsSound (Serving.next Serving.here (Serving.connection env _ uploaded.1))

abbrev big_node : Text → ℕ → StorageNode
big_node name free_space = new_node name ip (pos 80) free_space 0 0

abbrev serving : Server
serving = record {
  nodes = record {
    nodes = (node_name, big_node node_name 2000000) ∷ (ip, big_node ip 3000000) ∷ [];
    running = false;
  };
  files = Files.initial;
}

big_node-IsNameable :
    (name : Text) (free_space : ℕ)
    → IsWord name
    → free_space < 2 ^ 64
    → IsNameable (big_node name free_space)
big_node-IsNameable name free_space word fits = record {
  id_word = word;
  ip_word = ip-IsWord;
  port = 80;
  port_fits = omega arith;
  has_port = refl;
  space_fits = omega (arith, fits);
}

abbrev upload_connection : Connection
upload_connection = record {
  creates = true;
  is_address = λ t. true;
  connects = λ t n. true;
  send = λ t. some (length t);
  sends = [];
  input = [];
  grains = [];
  large = λ n. none;
  allocates = λ n. true;
  unset_port = pos 0;
}

abbrev upload_address : Address
upload_address = record { server_ip = codes "10.0.0.9"; server_port = pos 8080 }

abbrev upload_answer : Text
upload_answer =
    handle_request_upload env (parse_command (request_upload_message (codes "a.txt") 7)) serving

upload_answer_short : length (upload_answer ++ []) ≤ 4096
unfolding handle_request_upload parse_command request_upload_message to_string stoull back
    get_available_nodes required_nodes Nodes.Queries.filter_and_sort_nodes Sort.sort
    Nodes.Queries.filter_nodes values p2p_server_file_storage.Protocol.upload_node_lines
    p2p_server_file_storage.Text.int_to_string
upload_answer_short = omega arith

upload_request_taken :
    send_message upload_connection.send (request_upload_message (codes "a.txt") 7) ≡ true
unfolding send_message is_sent message_text str_eq request_upload_message to_string digits
upload_request_taken = refl

request_upload_nodes-handle_request_upload_example :
    (request_upload_nodes upload_connection upload_address
      (some upload_answer ∷ [])
      (codes "a.txt")
      7).0
    ≡ offered (big_node ip 3000000) ∷ offered (big_node node_name 2000000) ∷ []
unfolding get_available_nodes Nodes.Queries.filter_and_sort_nodes Nodes.Queries.filter_nodes
    Nodes.Queries.is_timed_out Sort.sort Sort.insert required_nodes values connect_to_server
    connect_to
request_upload_nodes-handle_request_upload_example =
    request_upload_nodes-handle_request_upload upload_connection upload_address env serving
      (codes "a.txt") 7 (upload_answer ∷ []) refl upload_request_taken file_name-IsWord
      (omega arith) (append-nil upload_answer) upload_answer_short
      (
        big_node-IsNameable ip 3000000 ip-IsWord (omega arith),
        (big_node-IsNameable node_name 2000000 node_name-IsWord (omega arith), tt),
      )

abbrev keep_alive_request : List Recv
keep_alive_request = bytes (codes "KEEP_ALIVE n1" ++ crlf)
