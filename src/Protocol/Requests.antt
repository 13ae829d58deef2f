-- ===== src/Protocol/Requests.antt =====
-- The state of the server, and the requests of one line.
use p2p_server_file_storage.Prelude.{
  ℕ, ◌+◌, ◌-◌, ◌*◌, ◌/◌, ◌%◌, List, [], ◌∷◌, ◌++◌, Option, none, some, ltb, if◌then◌else◌, length,
  ℤ,
}
use p2p_server_file_storage.Text.{
  Text, codes, is_empty, crlf, str_eq, to_string, int_to_string, stoull, stoi, u64_mod,
}
use p2p_server_file_storage.Text.Words.{parse_command, spaced}
use p2p_server_file_storage.Nodes.{
  StorageNode, NodeManager, Draw, register_node, update_node_last_seen, update_node_space, get_node,
}
use p2p_server_file_storage.Nodes.Queries.{get_available_nodes, get_all_active_nodes}
use p2p_server_file_storage.Files.{
  ChunkInfo, FileMetadata, MetadataManager, get_file_metadata, list_files,
}

pub record Server : Type 0 where
  pub nodes : NodeManager
  pub files : MetadataManager

-- What a request takes from outside: the random draws, and the readings of the steady clock in the
-- order in which they are made.
pub record Environment : Type 0 where
  pub draws : List Draw
  pub clock : ℕ → ℕ

abbrev pub replication_factor : ℕ
replication_factor = 2

abbrev pub chunk_size : ℕ
chunk_size = 1048576

unfoldable pub create_error_response : Text → Text → Text
create_error_response code message = codes "ERROR " ++ (code ++ (codes " " ++ (message ++ crlf)))

-- A fixed line of the protocol.
abbrev pub line : Text → Text
line t = t ++ crlf

unfoldable pub register_response :
    Server → Option (NodeManager × Option Text) → Option (Server × Text)
register_response s none = none
register_response s (some (nodes, none)) =
    some (record s { nodes = nodes }, line (codes "REGISTER_RESPONSE ERROR REGISTRATION_FAILED"))
register_response s (some (nodes, some id)) =
    some (record s { nodes = nodes }, codes "REGISTER_RESPONSE OK " ++ (id ++ crlf))

unfoldable pub register_parsed :
    Environment → Text → Option ℤ → Option ℕ → Server → Option (Server × Text)
unfolding register_response
register_parsed env ip (some port) (some free_space) s =
    register_response s
      (register_node ip port free_space env.draws (env.clock 0) (env.clock 1) s.nodes)
register_parsed env ip port free_space s =
    some (s, line (codes "REGISTER_RESPONSE ERROR INVALID_PARAMETERS"))

unfoldable pub handle_register_node : Environment → List Text → Server → Option (Server × Text)
unfolding register_parsed
handle_register_node env (_ ∷ ip ∷ port ∷ free_space ∷ []) s =
    register_parsed env ip (stoi port) (stoull free_space) s
handle_register_node env args s =
    some (s, line (codes "REGISTER_RESPONSE ERROR INVALID_PARAMETERS"))

unfoldable pub handle_keep_alive : Environment → List Text → Server → Server × Text
handle_keep_alive env (_ ∷ id ∷ []) s = (
  record s { nodes = update_node_last_seen id (env.clock 0) s.nodes },
  line (codes "KEEP_ALIVE_RESPONSE OK"),
)
handle_keep_alive env args s = (s, line (codes "KEEP_ALIVE_RESPONSE ERROR INVALID_PARAMETERS"))

unfoldable pub handle_update_space : List Text → Server → Server × Text
handle_update_space (_ ∷ id ∷ free_space ∷ []) s = elim (stoull free_space) [
  | none ↦ (s, line (codes "UPDATE_SPACE_RESPONSE ERROR INVALID_PARAMETERS"))
  | some n ↦
      let (nodes, found) = update_node_space id n s.nodes in
      (
        record s { nodes = nodes },
        if found
            then line (codes "UPDATE_SPACE_RESPONSE OK")
            else line (codes "UPDATE_SPACE_RESPONSE ERROR NODE_NOT_FOUND"),
      )
]
handle_update_space args s = (s, line (codes "UPDATE_SPACE_RESPONSE ERROR INVALID_PARAMETERS"))

-- `args.back()`, behind a first element.
unfoldable pub back : Text → List Text → Text
back w [] = w
back w (v ∷ ws) = back v ws

-- The number of nodes that a file of this size asks for, in 64-bit arithmetic.
unfoldable pub required_nodes : ℕ → ℕ
required_nodes file_size =
    (file_size + chunk_size - 1) % u64_mod / chunk_size * replication_factor % u64_mod

unfoldable pub upload_node_line : StorageNode → Text
upload_node_line n =
    n.node_id ++ spaced (n.ip_address ∷ int_to_string n.port ∷ to_string n.free_space ∷ [])

unfoldable pub upload_node_lines : List StorageNode → Text
unfolding upload_node_line
upload_node_lines [] = []
upload_node_lines (n ∷ ns) = upload_node_line n ++ (crlf ++ upload_node_lines ns)

unfoldable pub request_upload_parsed : Environment → Option ℕ → Server → Text
request_upload_parsed env none s = line (codes "UPLOAD_RESPONSE ERROR INVALID_PARAMETERS")
request_upload_parsed env (some file_size) s =
    let nodes = get_available_nodes (env.clock 0) (required_nodes file_size) chunk_size s.nodes in
    if ltb (length nodes) replication_factor
    then line (codes "UPLOAD_RESPONSE ERROR INSUFFICIENT_NODES")
    else codes "UPLOAD_RESPONSE OK "
      ++ (to_string (length nodes) ++ (crlf ++ upload_node_lines nodes))

-- The file name, the words between the first and the last, is only printed on the console.
unfoldable pub handle_request_upload : Environment → List Text → Server → Text
unfolding request_upload_parsed
handle_request_upload env (_ ∷ _ ∷ w ∷ ws) s = request_upload_parsed env (stoull (back w ws)) s
handle_request_upload env args s = line (codes "UPLOAD_RESPONSE ERROR INVALID_PARAMETERS")

-- The words behind the id of a chunk's node: its address and port if it is still registered.
unfoldable pub node_words : NodeManager → List Text → List Text
node_words m [] = []
node_words m (id ∷ ids) = elim (get_node id m) [
  | none ↦ id ∷ node_words m ids
  | some n ↦ id ∷ n.ip_address ∷ int_to_string n.port ∷ node_words m ids
]

unfoldable pub download_chunk_line : NodeManager → ChunkInfo → Text
download_chunk_line m c =
    c.chunk_id ++ spaced (to_string c.index ∷ to_string c.size ∷ node_words m c.node_ids)

unfoldable pub download_chunk_lines : NodeManager → List ChunkInfo → Text
unfolding download_chunk_line
download_chunk_lines m [] = []
download_chunk_lines m (c ∷ cs) = download_chunk_line m c ++ (crlf ++ download_chunk_lines m cs)

-- The words of a file name behind the first, with a space between: `filename += " " + args[i]`.
abbrev pub join_words : Text → List Text → Text
join_words w ws = w ++ spaced ws

unfoldable pub download_response : NodeManager → FileMetadata → Text
unfolding download_chunk_lines
download_response m f =
    codes "DOWNLOAD_RESPONSE OK "
    ++ (to_string f.total_size
        ++ (codes " "
            ++ (to_string (length f.chunks)
                ++ (crlf ++ (download_chunk_lines m f.chunks ++ line (codes "END_CHUNKS"))))))

unfoldable pub handle_request_download : Environment → List Text → Server → Server × Text
handle_request_download env (_ ∷ w ∷ ws) s =
    let (files, found) = get_file_metadata (join_words w ws) (env.clock 0) s.files in
    (
      record s { files = files },
      elim found [
        | none ↦ line (codes "DOWNLOAD_RESPONSE ERROR FILE_NOT_FOUND")
        | some f ↦ download_response s.nodes f
      ],
    )
handle_request_download env args s = (s, line (codes "DOWNLOAD_RESPONSE ERROR INVALID_PARAMETERS"))

unfoldable pub node_list_line : StorageNode → Text
node_list_line n =
    n.node_id
    ++ spaced (
        n.ip_address
        ∷ int_to_string n.port
        ∷ to_string n.free_space
        ∷ (if n.is_active then codes "1" else codes "0")
        ∷ [])

unfoldable pub node_list_lines : List StorageNode → Text
unfolding node_list_line
node_list_lines [] = []
node_list_lines (n ∷ ns) = node_list_line n ++ (crlf ++ node_list_lines ns)

unfoldable pub handle_list_nodes : Environment → Server → Text
unfolding node_list_lines
handle_list_nodes env s =
    let active = get_all_active_nodes (env.clock 0) s.nodes in
    codes "LIST_NODES_RESPONSE OK "
    ++ (to_string (length active) ++ (crlf ++ (node_list_lines active ++ line (codes "END_NODES"))))

-- A line for a file that was found.
file_line : Text → Option FileMetadata → Text → Text
file_line name none text = text
file_line name (some f) text = name ++ (spaced (to_string f.total_size ∷ []) ++ (crlf ++ text))

-- The loop of `HandleListFiles`: each name is looked up again, which writes its access time.
unfoldable pub list_file_lines :
    List Text → ℕ → Environment → MetadataManager → MetadataManager × Text
unfolding file_line
list_file_lines [] i env m = (m, [])
list_file_lines (name ∷ names) i env m =
    let (m', found) = get_file_metadata name (env.clock i) m in
    let (m'', text) = list_file_lines names (i + 1) env m' in (m'', file_line name found text)

unfoldable pub handle_list_files : Environment → Server → Server × Text
unfolding list_file_lines
handle_list_files env s =
    let names = list_files s.files in
    let (files, text) = list_file_lines names 0 env s.files in
    (
      record s { files = files },
      codes "LIST_FILES_RESPONSE OK "
          ++ (to_string (length names) ++ (crlf ++ (text ++ line (codes "END_FILES")))),
    )

-- `ProcessRequest`, behind the parsing of the command.
unfoldable pub route : Environment → Text → List Text → Server → Option (Server × Text)
route env command args s =
    if str_eq command (codes "REGISTER_NODE")
    then handle_register_node env args s
    else if str_eq command (codes "KEEP_ALIVE")
    then some (handle_keep_alive env args s)
    else if str_eq command (codes "UPDATE_SPACE")
    then some (handle_update_space args s)
    else if str_eq command (codes "REQUEST_UPLOAD")
    then some (s, handle_request_upload env args s)
    else if str_eq command (codes "REQUEST_DOWNLOAD")
    then some (handle_request_download env args s)
    else if str_eq command (codes "LIST_FILES")
    then some (handle_list_files env s)
    else if str_eq command (codes "LIST_NODES")
    then some (s, handle_list_nodes env s)
    else some
        (s, create_error_response (codes "INVALID_COMMAND") (codes "Unknown command: " ++ command))

unfoldable pub route_words : Environment → List Text → Server → Option (Server × Text)
unfolding route
route_words env [] s =
    some (s, create_error_response (codes "INVALID_COMMAND") (codes "No command specified"))
route_words env (command ∷ args) s = route env command (command ∷ args) s

unfoldable pub process_request : Environment → Text → Server → Option (Server × Text)
unfolding route_words
process_request env request s =
    if is_empty request
    then some (s, create_error_response (codes "INVALID_COMMAND") (codes "Empty request"))
    else route_words env (parse_command request) s
