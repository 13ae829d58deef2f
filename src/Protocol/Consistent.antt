-- ===== src/Protocol/Consistent.antt =====
-- A connection changes the two registers only by calls of their managers, so both stay consistent.
use mathlib.Core.Option
use p2p_server_file_storage.Prelude.{
  ℕ, ◌+◌, ◌≡◌, refl, Bool, List, [], ◌∷◌, Option, none, some, Option-cases, if_cases, inl, inr, ℤ,
}
use p2p_server_file_storage.Text.{Text, codes, is_empty, str_eq, stoi, stoull, starts_with}
use p2p_server_file_storage.Text.Words.{parse_command}
use p2p_server_file_storage.Text.Lines.{split_lines}
use p2p_server_file_storage.Network.{Recv, receive_message, max_message}
use p2p_server_file_storage.Nodes
use p2p_server_file_storage.Nodes.Invariant as NodeCalls
use p2p_server_file_storage.Nodes.{register_node}
use p2p_server_file_storage.Files
use p2p_server_file_storage.Files.{
  MetadataManager, register_file, returns, relocks, get_file_metadata, Outcome,
}
use p2p_server_file_storage.Files.Invariant as FileCalls
use p2p_server_file_storage.Protocol.Requests.{
  Server, Environment, join_words, register_response, register_parsed, handle_register_node,
  handle_keep_alive, handle_update_space, handle_request_download, handle_list_files,
  list_file_lines, route, route_words, process_request,
}
use p2p_server_file_storage.Protocol.Upload.{
  add_chunk_sizes, parse_chunks, upload_response, upload_words, upload_lines,
  handle_upload_complete, expected_upload, process_multiline_request, handle_client,
  read_multiline_request,
}

-- The second state is reached from the first by calls of the managers.
pub record IsCalls (s s' : Server) : Type 0 where
  pub nodes : NodeCalls.Reach s.nodes s'.nodes
  pub files : FileCalls.Reach s.files s'.files

same-IsCalls : (s : Server) → IsCalls s s
same-IsCalls s = record { nodes = NodeCalls.here; files = FileCalls.here }

node_call :
    (s : Server) {m : Nodes.NodeManager}
    → NodeCalls.Step s.nodes m
    → IsCalls s (record s { nodes = m })
node_call s c = record { nodes = NodeCalls.next NodeCalls.here c; files = FileCalls.here }

file_call :
    (s : Server) {m : MetadataManager}
    → FileCalls.Step s.files m
    → IsCalls s (record s { files = m })
file_call s c = record { nodes = NodeCalls.here; files = FileCalls.next FileCalls.here c }

-- What a call that returns leaves behind.
abbrev pub Calls {ℓ} : {A : Type ℓ} → Server → Option (Server × A) → Type 0
Calls s none = Unit
Calls s (some (s', reply)) = IsCalls s s'

module _ (env : Environment) (s : Server) where
  register_parsed-Calls :
      (ip : Text) (port : Option ℤ) (free_space : Option ℕ)
      → Calls s (register_parsed env ip port free_space s)
  unfolding register_parsed register_response
  register_parsed-Calls ip none free_space = same-IsCalls s
  register_parsed-Calls ip (some port) none = same-IsCalls s
  register_parsed-Calls ip (some port) (some free_space) =
      go (register_node ip port free_space env.draws (env.clock 0) (env.clock 1) s.nodes) refl
    where
      go :
          (r : Option (Nodes.NodeManager × Option Text))
          → register_node ip port free_space env.draws (env.clock 0) (env.clock 1) s.nodes ≡ r
          → Calls s (register_response s r)
      go none e = tt
      go (some (nodes, none)) e =
          node_call s
            (NodeCalls.register ip port free_space env.draws (env.clock 0) (env.clock 1) e)
      go (some (nodes, some id)) e =
          node_call s
            (NodeCalls.register ip port free_space env.draws (env.clock 0) (env.clock 1) e)

  handle_register_node-Calls : (args : List Text) → Calls s (handle_register_node env args s)
  unfolding handle_register_node
  handle_register_node-Calls [] = same-IsCalls s
  handle_register_node-Calls (a ∷ []) = same-IsCalls s
  handle_register_node-Calls (a ∷ b ∷ []) = same-IsCalls s
  handle_register_node-Calls (a ∷ b ∷ c ∷ []) = same-IsCalls s
  handle_register_node-Calls (a ∷ b ∷ c ∷ d ∷ []) = register_parsed-Calls b (stoi c) (stoull d)
  handle_register_node-Calls (a ∷ b ∷ c ∷ d ∷ e ∷ args) = same-IsCalls s

  handle_keep_alive-Calls : (args : List Text) → IsCalls s (handle_keep_alive env args s).0
  unfolding handle_keep_alive
  handle_keep_alive-Calls [] = same-IsCalls s
  handle_keep_alive-Calls (a ∷ []) = same-IsCalls s
  handle_keep_alive-Calls (a ∷ id ∷ []) = node_call s (NodeCalls.keep_alive id (env.clock 0))
  handle_keep_alive-Calls (a ∷ b ∷ c ∷ args) = same-IsCalls s

  handle_update_space-Calls : (args : List Text) → IsCalls s (handle_update_space args s).0
  unfolding handle_update_space
  handle_update_space-Calls [] = same-IsCalls s
  handle_update_space-Calls (a ∷ []) = same-IsCalls s
  handle_update_space-Calls (a ∷ b ∷ []) = same-IsCalls s
  handle_update_space-Calls (a ∷ id ∷ c ∷ []) = elim (Option-cases (stoull c)) [
    | inl e ↦ rw (e, handle_update_space) (same-IsCalls s)
    | inr (n, e) ↦ rw (e, handle_update_space) (node_call s (NodeCalls.update_space id n))
  ]
  handle_update_space-Calls (a ∷ b ∷ c ∷ d ∷ args) = same-IsCalls s

  handle_request_download-Calls :
      (args : List Text) → IsCalls s (handle_request_download env args s).0
  unfolding handle_request_download
  handle_request_download-Calls [] = same-IsCalls s
  handle_request_download-Calls (a ∷ []) = same-IsCalls s
  handle_request_download-Calls (a ∷ w ∷ ws) = file_call s (FileCalls.access _ (env.clock 0))

list_file_lines-Reach :
    (env : Environment) (names : List Text) (i : ℕ) (first m : MetadataManager)
    → FileCalls.Reach first m
    → FileCalls.Reach first (list_file_lines names i env m).0
unfolding list_file_lines
list_file_lines-Reach env [] i first m r = r
list_file_lines-Reach env (name ∷ names) i first m r =
    list_file_lines-Reach env names (i + 1) first (get_file_metadata name (env.clock i) m).0
      (FileCalls.next r (FileCalls.access name (env.clock i)))

-- A call that goes through keeps what it left.
module _ (env : Environment) (s : Server) where
  handle_list_files-Calls : IsCalls s (handle_list_files env s).0
  unfolding handle_list_files
  handle_list_files-Calls = record {
    nodes = NodeCalls.here;
    files = list_file_lines-Reach env (Files.list_files s.files) 0 s.files s.files FileCalls.here;
  }

  route-Calls : (command : Text) (args : List Text) → Calls s (route env command args s)
  unfolding route
  route-Calls command args =
      if_cases (Calls s) (str_eq command (codes "REGISTER_NODE"))
        (handle_register_node-Calls env s args)
        (if_cases (Calls s) (str_eq command (codes "KEEP_ALIVE"))
          (handle_keep_alive-Calls env s args)
          (if_cases (Calls s) (str_eq command (codes "UPDATE_SPACE"))
            (handle_update_space-Calls env s args)
            (if_cases (Calls s) (str_eq command (codes "REQUEST_UPLOAD")) (same-IsCalls s) (
              if_cases (Calls s) (str_eq command (codes "REQUEST_DOWNLOAD"))
                (handle_request_download-Calls env s args)
                (if_cases (Calls s) (str_eq command (codes "LIST_FILES")) handle_list_files-Calls (
                  if_cases (Calls s) (str_eq command (codes "LIST_NODES")) (same-IsCalls s)
                    (same-IsCalls s)))))))

  route_words-Calls : (words : List Text) → Calls s (route_words env words s)
  unfolding route_words
  route_words-Calls [] = same-IsCalls s
  route_words-Calls (command ∷ args) = route-Calls command (command ∷ args)

  process_request-Calls : (request : Text) → Calls s (process_request env request s)
  unfolding process_request
  process_request-Calls request =
      if_cases (Calls s) (is_empty request) (same-IsCalls s)
        (route_words-Calls (parse_command request))

  upload_words-Calls : (words lines : List Text) → Calls s (upload_words env words lines s)
  unfolding upload_words
  upload_words-Calls [] lines = same-IsCalls s
  upload_words-Calls (command ∷ []) lines = same-IsCalls s
  upload_words-Calls (command ∷ w ∷ ws) lines =
      let chunks = parse_chunks lines in
      if_cases (Calls s) (str_eq command (codes "UPLOAD_COMPLETE"))
        (go (add_chunk_sizes chunks 0) chunks
          (register_file (join_words w ws) (add_chunk_sizes chunks 0) chunks (env.clock 0)
            (env.clock 1) s.files)
          refl)
        (same-IsCalls s)
    where
      go :
          (size : ℕ) (chunks : List Files.ChunkInfo) (r : Outcome (MetadataManager × Bool))
          → register_file (join_words w ws) size chunks (env.clock 0) (env.clock 1) s.files ≡ r
          → Calls s (upload_response s r)
      go size chunks relocks e = tt
      go size chunks (returns (files, accepted)) e =
          file_call s
            (FileCalls.register (join_words w ws) size chunks (env.clock 0) (env.clock 1) e)

  upload_lines-Calls : (lines : List Text) → Calls s (upload_lines env lines s)
  unfolding upload_lines
  upload_lines-Calls [] = same-IsCalls s
  upload_lines-Calls (l ∷ ls) = upload_words-Calls (parse_command l) ls

  handle_upload_complete-Calls :
      (first_line : Text) (input : List Recv)
      → Calls s (handle_upload_complete env first_line input s)
  unfolding handle_upload_complete
  handle_upload_complete-Calls first_line input =
      elim (Option-cases (read_multiline_request first_line input).0) [
        | inl e ↦ rw (e, handle_upload_complete) (same-IsCalls s)
        | inr (request, e) ↦
            rw (e, handle_upload_complete) (upload_lines-Calls (split_lines request))
      ]

  expected_upload-Calls :
      (reply : Option (Server × Text)) (words : List Text)
      → Calls s reply
      → Calls s (expected_upload reply words s)
  unfolding expected_upload
  expected_upload-Calls reply [] c = same-IsCalls s
  expected_upload-Calls reply (command ∷ args) c =
      if_cases (Calls s) (str_eq command (codes "UPLOAD_COMPLETE")) c (same-IsCalls s)

  process_multiline_request-Calls :
      (first_line : Text) (input : List Recv)
      → Calls s (process_multiline_request env first_line input s)
  unfolding process_multiline_request
  process_multiline_request-Calls first_line input =
      expected_upload-Calls (handle_upload_complete env first_line input s)
        (parse_command first_line) (handle_upload_complete-Calls first_line input)

  map-Calls :
      (reply : Option (Server × Text))
      → Calls s reply
      → Calls s (Option.map (λ (a : Server × Text). (a.0, some a.1)) reply)
  map-Calls none c = tt
  map-Calls (some reply) c = c

  pub handle_client-Calls : (input : List Recv) → Calls s (handle_client env input s)
  unfolding handle_client
  handle_client-Calls input =
      let r = receive_message max_message input in
      if_cases (Calls s) r.success
        (map-Calls _ (
          if_cases (Calls s) (starts_with (codes "UPLOAD_COMPLETE") r.message)
            (process_multiline_request-Calls r.message r.rest) (process_request-Calls r.message)))
        (same-IsCalls s)
