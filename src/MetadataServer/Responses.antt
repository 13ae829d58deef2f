-- ===== src/MetadataServer/Responses.antt =====
-- Every response of the server to a request of one line ends in CRLF.
use p2p_server_file_storage.Prelude.{
  ℕ, ◌≡◌, refl, sym, ap, ◌∙◌, List, [], ◌∷◌, ◌++◌, append_assoc, Option, none, some, Option-cases,
  if_cases, inl, inr, ℤ,
}
use p2p_server_file_storage.Text.{Text, codes, crlf, is_empty, str_eq, stoi, stoull}
use p2p_server_file_storage.Text.Words.{parse_command}
use p2p_server_file_storage.Nodes
use p2p_server_file_storage.Nodes.{register_node}
use p2p_server_file_storage.Files
use p2p_server_file_storage.Files.{
  MetadataManager, register_file, returns, relocks, get_file_metadata, Outcome,
}
use p2p_server_file_storage.Protocol.{
  Server, Environment, create_error_response, register_response, register_parsed,
  handle_register_node, handle_keep_alive, handle_update_space, request_upload_parsed,
  handle_request_upload, upload_node_line, upload_node_lines, back, download_response,
  handle_request_download, handle_list_files, handle_list_nodes, route, route_words,
  process_request, join_words,
}

pub record EndsCrlf (t : Text) : Type 0 where
  pub start : Text
  pub spelled : t ≡ start ++ crlf

pub line-EndsCrlf : (t : Text) → EndsCrlf (t ++ crlf)
line-EndsCrlf t = record { start = t; spelled = refl }

append-EndsCrlf : (s t : Text) → EndsCrlf t → EndsCrlf (s ++ t)
append-EndsCrlf s t h = record {
  start = s ++ h.start;
  spelled = ap (λ u. s ++ u) h.spelled ∙ sym (append_assoc s h.start crlf);
}

-- What holds of the response of a call that returns.
abbrev pub Answers : Option (Server × Text) → Type 0
Answers none = Unit
Answers (some (s, response)) = EndsCrlf response

pub error-EndsCrlf : (code message : Text) → EndsCrlf (create_error_response code message)
unfolding create_error_response
error-EndsCrlf code message =
    append-EndsCrlf (codes "ERROR ") _
      (append-EndsCrlf code _ (append-EndsCrlf (codes " ") _ (line-EndsCrlf message)))

module _ (env : Environment) (s : Server) where
  register_response-Answers :
      (r : Option (Nodes.NodeManager × Option Text)) → Answers (register_response s r)
  unfolding register_response
  register_response-Answers none = tt
  register_response-Answers (some (nodes, none)) =
      line-EndsCrlf (codes "REGISTER_RESPONSE ERROR REGISTRATION_FAILED")
  register_response-Answers (some (nodes, some id)) =
      append-EndsCrlf (codes "REGISTER_RESPONSE OK ") (id ++ crlf) (line-EndsCrlf id)

  abbrev invalid_registration :
      EndsCrlf (codes "REGISTER_RESPONSE ERROR INVALID_PARAMETERS" ++ crlf)
  invalid_registration = line-EndsCrlf (codes "REGISTER_RESPONSE ERROR INVALID_PARAMETERS")

  register_parsed-Answers :
      (ip : Text) (port : Option ℤ) (free_space : Option ℕ)
      → Answers (register_parsed env ip port free_space s)
  unfolding register_parsed
  register_parsed-Answers ip none free_space = invalid_registration
  register_parsed-Answers ip (some port) none = invalid_registration
  register_parsed-Answers ip (some port) (some free_space) =
      register_response-Answers
        (register_node ip port free_space env.draws (env.clock 0) (env.clock 1) s.nodes)

  handle_register_node-Answers : (args : List Text) → Answers (handle_register_node env args s)
  unfolding handle_register_node
  handle_register_node-Answers [] = invalid_registration
  handle_register_node-Answers (a ∷ []) = invalid_registration
  handle_register_node-Answers (a ∷ b ∷ []) = invalid_registration
  handle_register_node-Answers (a ∷ b ∷ c ∷ []) = invalid_registration
  handle_register_node-Answers (a ∷ b ∷ c ∷ d ∷ []) = register_parsed-Answers b (stoi c) (stoull d)
  handle_register_node-Answers (a ∷ b ∷ c ∷ d ∷ e ∷ args) = invalid_registration

  handle_keep_alive-EndsCrlf : (args : List Text) → EndsCrlf (handle_keep_alive env args s).1
  unfolding handle_keep_alive
  handle_keep_alive-EndsCrlf (a ∷ id ∷ []) = line-EndsCrlf (codes "KEEP_ALIVE_RESPONSE OK")
  handle_keep_alive-EndsCrlf [] =
      line-EndsCrlf (codes "KEEP_ALIVE_RESPONSE ERROR INVALID_PARAMETERS")
  handle_keep_alive-EndsCrlf (a ∷ []) =
      line-EndsCrlf (codes "KEEP_ALIVE_RESPONSE ERROR INVALID_PARAMETERS")
  handle_keep_alive-EndsCrlf (a ∷ b ∷ c ∷ args) =
      line-EndsCrlf (codes "KEEP_ALIVE_RESPONSE ERROR INVALID_PARAMETERS")

  abbrev invalid_space : EndsCrlf (codes "UPDATE_SPACE_RESPONSE ERROR INVALID_PARAMETERS" ++ crlf)
  invalid_space = line-EndsCrlf (codes "UPDATE_SPACE_RESPONSE ERROR INVALID_PARAMETERS")

  handle_update_space-EndsCrlf : (args : List Text) → EndsCrlf (handle_update_space args s).1
  unfolding handle_update_space
  handle_update_space-EndsCrlf [] = invalid_space
  handle_update_space-EndsCrlf (a ∷ []) = invalid_space
  handle_update_space-EndsCrlf (a ∷ b ∷ []) = invalid_space
  handle_update_space-EndsCrlf (a ∷ id ∷ c ∷ []) = elim (Option-cases (stoull c)) [
    | inl e ↦ rw (e, handle_update_space) invalid_space
    | inr (n, e) ↦
        rw (e, handle_update_space)
          (if_cases EndsCrlf (Nodes.update_node_space id n s.nodes).1
            (line-EndsCrlf (codes "UPDATE_SPACE_RESPONSE OK"))
            (line-EndsCrlf (codes "UPDATE_SPACE_RESPONSE ERROR NODE_NOT_FOUND")))
  ]
  handle_update_space-EndsCrlf (a ∷ b ∷ c ∷ d ∷ args) = invalid_space

upload_node_lines-EndsCrlf : (ns : List Nodes.StorageNode) → EndsCrlf (crlf ++ upload_node_lines ns)
unfolding upload_node_lines
upload_node_lines-EndsCrlf [] = line-EndsCrlf []
upload_node_lines-EndsCrlf (n ∷ ns) =
    append-EndsCrlf crlf (upload_node_line n ++ (crlf ++ upload_node_lines ns)) (
      append-EndsCrlf (upload_node_line n) (crlf ++ upload_node_lines ns)
        (upload_node_lines-EndsCrlf ns))

module _ (env : Environment) (s : Server) where
  request_upload_parsed-EndsCrlf : (size : Option ℕ) → EndsCrlf (request_upload_parsed env size s)
  unfolding request_upload_parsed
  request_upload_parsed-EndsCrlf none =
      line-EndsCrlf (codes "UPLOAD_RESPONSE ERROR INVALID_PARAMETERS")
  request_upload_parsed-EndsCrlf (some size) =
      if_cases EndsCrlf _ (line-EndsCrlf (codes "UPLOAD_RESPONSE ERROR INSUFFICIENT_NODES")) (
        append-EndsCrlf (codes "UPLOAD_RESPONSE OK ") _
          (append-EndsCrlf _ _ (upload_node_lines-EndsCrlf _)))

  handle_request_upload-EndsCrlf : (args : List Text) → EndsCrlf (handle_request_upload env args s)
  unfolding handle_request_upload
  handle_request_upload-EndsCrlf (a ∷ b ∷ w ∷ ws) =
      request_upload_parsed-EndsCrlf (stoull (back w ws))
  handle_request_upload-EndsCrlf [] =
      line-EndsCrlf (codes "UPLOAD_RESPONSE ERROR INVALID_PARAMETERS")
  handle_request_upload-EndsCrlf (a ∷ []) =
      line-EndsCrlf (codes "UPLOAD_RESPONSE ERROR INVALID_PARAMETERS")
  handle_request_upload-EndsCrlf (a ∷ b ∷ []) =
      line-EndsCrlf (codes "UPLOAD_RESPONSE ERROR INVALID_PARAMETERS")

  download_response-EndsCrlf : (f : Files.FileMetadata) → EndsCrlf (download_response s.nodes f)
  unfolding download_response
  download_response-EndsCrlf f = append-EndsCrlf (codes "DOWNLOAD_RESPONSE OK ") _ (
      append-EndsCrlf _ _ (
        append-EndsCrlf (codes " ") _ (
          append-EndsCrlf _ _
            (append-EndsCrlf crlf _ (append-EndsCrlf _ _ (line-EndsCrlf (codes "END_CHUNKS")))))))

  handle_request_download-EndsCrlf :
      (args : List Text) → EndsCrlf (handle_request_download env args s).1
  unfolding handle_request_download
  handle_request_download-EndsCrlf [] =
      line-EndsCrlf (codes "DOWNLOAD_RESPONSE ERROR INVALID_PARAMETERS")
  handle_request_download-EndsCrlf (a ∷ []) =
      line-EndsCrlf (codes "DOWNLOAD_RESPONSE ERROR INVALID_PARAMETERS")
  handle_request_download-EndsCrlf (a ∷ w ∷ ws) =
      elim (Option-cases (get_file_metadata (join_words w ws) (env.clock 0) s.files).1) [
        | inl e ↦
            rw (e, handle_request_download)
              (line-EndsCrlf (codes "DOWNLOAD_RESPONSE ERROR FILE_NOT_FOUND"))
        | inr (f, e) ↦ rw (e, handle_request_download) (download_response-EndsCrlf f)
      ]

  handle_list_nodes-EndsCrlf : EndsCrlf (handle_list_nodes env s)
  unfolding handle_list_nodes
  handle_list_nodes-EndsCrlf = append-EndsCrlf (codes "LIST_NODES_RESPONSE OK ") _ (
      append-EndsCrlf _ _
        (append-EndsCrlf crlf _ (append-EndsCrlf _ _ (line-EndsCrlf (codes "END_NODES")))))

  handle_list_files-EndsCrlf : EndsCrlf (handle_list_files env s).1
  unfolding handle_list_files
  handle_list_files-EndsCrlf = append-EndsCrlf (codes "LIST_FILES_RESPONSE OK ") _ (
      append-EndsCrlf _ _
        (append-EndsCrlf crlf _ (append-EndsCrlf _ _ (line-EndsCrlf (codes "END_FILES")))))

  route-Answers : (command : Text) (args : List Text) → Answers (route env command args s)
  unfolding route
  route-Answers command args =
      if_cases Answers (str_eq command (codes "REGISTER_NODE"))
        (handle_register_node-Answers env s args)
        (if_cases Answers (str_eq command (codes "KEEP_ALIVE"))
          (handle_keep_alive-EndsCrlf env s args)
          (if_cases Answers (str_eq command (codes "UPDATE_SPACE"))
            (handle_update_space-EndsCrlf env s args)
            (if_cases Answers (str_eq command (codes "REQUEST_UPLOAD"))
              (handle_request_upload-EndsCrlf args)
              (if_cases Answers (str_eq command (codes "REQUEST_DOWNLOAD"))
                (handle_request_download-EndsCrlf args)
                (if_cases Answers (str_eq command (codes "LIST_FILES")) handle_list_files-EndsCrlf (
                  if_cases Answers (str_eq command (codes "LIST_NODES")) handle_list_nodes-EndsCrlf
                    (error-EndsCrlf (codes "INVALID_COMMAND") _)))))))

  route_words-Answers : (words : List Text) → Answers (route_words env words s)
  unfolding route_words
  route_words-Answers [] = error-EndsCrlf (codes "INVALID_COMMAND") (codes "No command specified")
  route_words-Answers (command ∷ args) = route-Answers command (command ∷ args)

  pub process_request-Answers : (request : Text) → Answers (process_request env request s)
  unfolding process_request
  process_request-Answers request =
      if_cases Answers (is_empty request)
        (error-EndsCrlf (codes "INVALID_COMMAND") (codes "Empty request"))
        (route_words-Answers (parse_command request))
