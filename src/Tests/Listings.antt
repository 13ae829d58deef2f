-- ===== src/Tests/Listings.antt =====
-- The theorems on the requests of the client over a connection, at a server with one node and two files.
use p2p_server_file_storage.Prelude.{
  ◌+◌, ◌<◌, ◌≡◌, ◌↔◌, refl, true, false, [], ◌∷◌, ◌++◌, none, some, arith, length, pos,
}
use p2p_server_file_storage.Text.{
  Text, codes, is_space, str_eq, to_string, int_to_string, digits, stoull,
}
use p2p_server_file_storage.Text.Words.{IsWord, unspaced, unspaced-IsWord}
use p2p_server_file_storage.UnorderedMap.{find, assign, values}
use p2p_server_file_storage.Nodes.{StorageNode, new_node, get_node}
use p2p_server_file_storage.Nodes.Queries
use p2p_server_file_storage.Nodes.Queries.{get_all_active_nodes}
use p2p_server_file_storage.Files
use p2p_server_file_storage.Files.{
  ChunkInfo, FileMetadata, MetadataManager, register_file, returns, validate_file_metadata,
  validate_chunk_sequence, sanitize_filename,
}
use p2p_server_file_storage.Files.Invariant as FileCalls
use p2p_server_file_storage.Files.Invariant.{IsAccurate, Reach-IsAccurate}
use p2p_server_file_storage.Sequence.{validate_sequence, check_indices}
use p2p_server_file_storage.Sort.{sort, insert}
use p2p_server_file_storage.Network.{
  receive_message, max_message, is_sent, message_text, send_message,
}
use p2p_server_file_storage.Network.Delivery.{bytes}
use p2p_server_file_storage.Network.Sockets.{Connection, connect_to, settled}
use p2p_server_file_storage.Protocol.{
  Server, Environment, node_words, download_chunk_line, download_response, node_list_line,
  handle_list_nodes, handle_list_files,
}
use p2p_server_file_storage.Client.MetadataClient.{request_download_message}
use p2p_server_file_storage.Client.MetadataClient.Exchanges.{
  Address, connect_to_server, receive_response, request_lines, request_download, list_nodes,
  list_files,
}
use p2p_server_file_storage.Client.MetadataClient.Received.{IsAnsweredWith, request_lines_lem}
use p2p_server_file_storage.Session.Download.{IsKnown, IsServable, remote, remember_all}
use p2p_server_file_storage.Session.Offered.{IsNameable, offered}
use p2p_server_file_storage.Session.Fetched.{request_download-download_response}
use p2p_server_file_storage.Session.NodeList.{cache_nodes, list_nodes-handle_list_nodes}
use p2p_server_file_storage.Session.FileLines.{IsSpelled}
use p2p_server_file_storage.Session.FileList.{list_files-handle_list_files}

abbrev env : Environment
env = record { draws = []; clock = λ i. i }

abbrev chunk_name : Text
chunk_name = codes "0123456789abcdef0123456789abcdef0123456789abcdef0123456789abcdef"

abbrev ip : Text
ip = codes "10.0.0.7"

letters-IsWord : IsWord chunk_name
unfolding unspaced is_space
letters-IsWord = unspaced-IsWord chunk_name refl refl

name-IsWord : IsWord (codes "n1")
unfolding unspaced is_space
name-IsWord = unspaced-IsWord (codes "n1") refl refl

ip-IsWord : IsWord ip
unfolding unspaced is_space
ip-IsWord = unspaced-IsWord ip refl refl

abbrev node : StorageNode
node = new_node (codes "n1") ip (pos 80) 5000 10 10

abbrev chunk : ChunkInfo
chunk = record {
  chunk_id = chunk_name;
  index = 0;
  size = 7;
  node_ids = codes "n1" ∷ codes "n1" ∷ [];
}

abbrev file : Text → FileMetadata
file name = record {
  filename = name;
  total_size = 7;
  chunks = chunk ∷ [];
  upload_time = 1;
  last_accessed = 2;
}

abbrev server : Server
server = record {
  nodes = record { nodes = (codes "n1", node) ∷ []; running = true };
  files = record {
    files = (codes "a.txt", file (codes "a.txt")) ∷ (codes "b c.txt", file (codes "b c.txt")) ∷ [];
    total_files = 2;
    total_bytes = 14;
  };
}

abbrev address : Address
address = record { server_ip = codes "127.0.0.1"; server_port = pos 8080 }

-- A connection on which the server answers with this text.
abbrev answering : Text → Connection
answering response = record {
  creates = true;
  is_address = λ t. true;
  connects = λ t n. true;
  send = λ t. some (length t);
  sends = [];
  input = bytes response ++ [];
  grains = [];
  large = λ n. none;
  allocates = λ n. true;
  unset_port = pos 0;
}

answered :
    (request response : Text)
    → send_message (answering response).send request ≡ true
    → IsAnsweredWith (answering response) address request response
unfolding connect_to_server connect_to
answered request response whole = record {
  reached = refl;
  requested = whole;
  rest = [];
  answered = refl;
}

-- What `send` is handed counts as sent.
abbrev Takes : Text → Type 0
Takes request = send_message (λ t. some (length t)) request ≡ true

Takes-requests :
    Takes (request_download_message (codes "a.txt"))
    × Takes (codes "LIST_NODES")
    × Takes (codes "LIST_FILES")
unfolding send_message is_sent message_text str_eq request_download_message
Takes-requests = (refl, refl, refl)

known : IsKnown server.nodes (codes "n1")
unfolding get_node find str_eq
known = record {
  id_word = name-IsWord;
  ip = ip;
  ip_word = ip-IsWord;
  port = 80;
  port_fits = omega arith;
  node = node;
  found = refl;
  has_ip = refl;
  has_port = refl;
}

servable : IsServable server.nodes chunk
servable = record {
  id_word = letters-IsWord;
  id_length = refl;
  index_fits = omega arith;
  size_fits = omega arith;
  stored = refl;
  known = (known, (known, tt));
}

short_line : length (download_chunk_line server.nodes chunk) + 1 < max_message
unfolding download_chunk_line get_node find str_eq to_string digits node_words int_to_string
short_line = omega arith

request_download-download_response_example :
    request_download
      (answering (download_response server.nodes (file (codes "a.txt"))))
      address
      (codes "a.txt")
      []
    ≡ (
      record {
        filename = codes "a.txt";
        total_size = some 7;
        chunk_count = some 1;
        chunks = remote chunk ∷ [];
      },
      remember_all server.nodes (chunk ∷ []) (servable, tt) [],
    )
request_download-download_response_example =
    request_download-download_response
      (answering (download_response server.nodes (file (codes "a.txt")))) address (codes "a.txt")
      server.nodes (file (codes "a.txt")) (servable, tt) []
      (answered (request_download_message (codes "a.txt"))
        (download_response server.nodes (file (codes "a.txt"))) Takes-requests.0)
      (short_line, tt) (omega arith) (omega arith)

request_lines_lem_example :
    ((receive_response (codes "END_FILES") (answering (codes "x")).input ≡ none)
      ↔ ((receive_message max_message (answering (codes "x")).input).success ≡ false))
    × (settled
          (request_lines (answering (codes "x")) address (codes "LIST_FILES") (codes "END_FILES")).1
        ≡ true)
request_lines_lem_example =
    request_lines_lem (answering (codes "x")) address (codes "LIST_FILES") (codes "END_FILES")

node-IsNameable : IsNameable node
node-IsNameable = record {
  id_word = name-IsWord;
  ip_word = ip-IsWord;
  port = 80;
  port_fits = omega arith;
  has_port = refl;
  space_fits = omega arith;
}

node_short : length (node_list_line node) + 1 < max_message
unfolding node_list_line to_string digits int_to_string
node_short = omega arith

list_nodes-handle_list_nodes_example :
    list_nodes (answering (handle_list_nodes env server)) address []
    ≡ (offered node ∷ [], cache_nodes (node ∷ []) [])
unfolding get_all_active_nodes Queries.active_nodes Queries.is_timed_out values
list_nodes-handle_list_nodes_example =
    list_nodes-handle_list_nodes (answering (handle_list_nodes env server)) address env server []
      (answered (codes "LIST_NODES") (handle_list_nodes env server) Takes-requests.1)
      (node-IsNameable, tt) (node_short, tt) (omega arith)

abbrev one_file : MetadataManager
one_file = record {
  files = (codes "a.txt", file (codes "a.txt")) ∷ [];
  total_files = 1;
  total_bytes = 7;
}

first_stored :
    register_file (codes "a.txt") 7 (chunk ∷ []) 1 2 Files.initial ≡ returns (one_file, true)
unfolding register_file validate_file_metadata Files.update_statistics sanitize_filename assign find
    validate_chunk_sequence validate_sequence check_indices sort insert Files.all_valid
    Files.is_valid_chunk Files.is_valid_file Files.add_sizes values Files.add_total_sizes
    Files.is_dangerous Files.is_blank
first_stored = refl

second_stored :
    register_file (codes "b c.txt") 7 (chunk ∷ []) 1 2 one_file ≡ returns (server.files, true)
unfolding register_file validate_file_metadata Files.update_statistics sanitize_filename assign find
    validate_chunk_sequence validate_sequence check_indices sort insert Files.all_valid
    Files.is_valid_chunk Files.is_valid_file Files.add_sizes values Files.add_total_sizes
    Files.is_dangerous Files.is_blank str_eq
second_stored = refl

server-IsAccurate : IsAccurate server.files
server-IsAccurate = Reach-IsAccurate (
    FileCalls.next
      (FileCalls.next FileCalls.here
        (FileCalls.register (codes "a.txt") 7 (chunk ∷ []) 1 2 first_stored))
      (FileCalls.register (codes "b c.txt") 7 (chunk ∷ []) 1 2 second_stored))

abbrev first-IsSpelled : IsSpelled (codes "a.txt") (file (codes "a.txt"))
unfolding unspaced is_space
first-IsSpelled = record {
  first = codes "a.txt";
  others = [];
  spelled = refl;
  first_word = unspaced-IsWord (codes "a.txt") refl refl;
  other_words = tt;
  short = omega arith;
  size_fits = omega arith;
}

abbrev second-IsSpelled : IsSpelled (codes "b c.txt") (file (codes "b c.txt"))
unfolding unspaced is_space
second-IsSpelled = record {
  first = codes "b";
  others = codes "c.txt" ∷ [];
  spelled = refl;
  first_word = unspaced-IsWord (codes "b") refl refl;
  other_words = (unspaced-IsWord (codes "c.txt") refl refl, tt);
  short = omega arith;
  size_fits = omega arith;
}

-- The second file is not listed.
list_files-handle_list_files_example :
    list_files (answering (handle_list_files env server).1) address ≡ (codes "a.txt", 7) ∷ []
unfolding stoull first-IsSpelled second-IsSpelled
list_files-handle_list_files_example =
    list_files-handle_list_files (answering (handle_list_files env server).1) address env server
      (answered (codes "LIST_FILES") (handle_list_files env server).1 Takes-requests.2)
      server-IsAccurate (first-IsSpelled, (second-IsSpelled, tt)) (omega arith)
