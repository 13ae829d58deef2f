-- ===== src/Session/Offered.antt =====
-- The response to REQUEST_UPLOAD, from the nodes that the server offers to those the client reads.
use p2p_server_file_storage.Prelude.{
  ℕ, ◌<◌, ◌^◌, ◌≡◌, refl, sym, ap, ◌∙◌, List, [], ◌∷◌, ◌++◌, append-nil, map, some, arith, length,
  All, pos, if◌then◌else◌, ltb, Bool-cases, inl, inr,
}
use p2p_server_file_storage.Text.{
  Text, codes, crlf, is_space, str_eq, str_eq_refl, to_string, int_to_string, stoull, stoi, u64_mod,
}
use p2p_server_file_storage.Text.Words.{IsWord, spaced, parse_command, parse_command-spaced}
use p2p_server_file_storage.Text.Lines.{IsLine, split_lines, split_lines_cons}
use p2p_server_file_storage.Text.Decimal.{to_string-IsWord, stoull-to_string, stoi-int_to_string}
use p2p_server_file_storage.Text.Messages.{spaced-IsLine}
use p2p_server_file_storage.Nodes.{StorageNode}
use p2p_server_file_storage.Nodes.Queries.{get_available_nodes}
use p2p_server_file_storage.Protocol.{
  Server, Environment, line, back, required_nodes, request_upload_parsed, handle_request_upload,
  upload_node_line, upload_node_lines, chunk_size, replication_factor,
}
use p2p_server_file_storage.Client.MetadataClient.{
  StorageNodeInfo, parse_node_info, parse_node_lines, parse_upload_response, upload_response_lines,
  is_ok,
}

-- A node whose record fits a line: one-word id and address, a port that is not negative and fits an
-- `int`, and a space that fits 64 bits.
pub record IsNameable (n : StorageNode) : Type 0 where
  pub id_word : IsWord n.node_id
  pub ip_word : IsWord n.ip_address
  pub port : ℕ
  pub port_fits : port < 2 ^ 31
  pub has_port : n.port ≡ pos port
  pub space_fits : n.free_space < u64_mod

abbrev pub offered : StorageNode → StorageNodeInfo
offered n = record {
  node_id = n.node_id;
  ip_address = n.ip_address;
  port = some n.port;
  free_space = some n.free_space;
}

module _ (n : StorageNode) (h : IsNameable n) where
  abbrev node_texts : List Text
  node_texts = n.ip_address ∷ int_to_string n.port ∷ to_string n.free_space ∷ []

  port-IsWord : IsWord (int_to_string n.port)
  unfolding int_to_string
  port-IsWord = rw h.has_port (to_string-IsWord h.port)

  node_texts-All : All IsWord node_texts
  node_texts-All = (h.ip_word, (port-IsWord, (to_string-IsWord n.free_space, tt)))

  offered-IsLine : IsLine (upload_node_line n)
  unfolding upload_node_line
  offered-IsLine = spaced-IsLine n.node_id node_texts h.id_word node_texts-All

  offered_words : parse_command (upload_node_line n) ≡ n.node_id ∷ node_texts
  unfolding upload_node_line
  offered_words = parse_command-spaced n.node_id node_texts h.id_word node_texts-All

  port_read : stoi (int_to_string n.port) ≡ some n.port
  port_read = rw h.has_port (stoi-int_to_string h.port h.port_fits)

  offered_read : parse_node_info (n.node_id ∷ node_texts) ≡ offered n
  unfolding parse_node_info
  offered_read = rw (port_read, stoull-to_string n.free_space h.space_fits, parse_node_info) refl

parse_node_lines-offered :
    (ns : List StorageNode)
    → All IsNameable ns
    → parse_node_lines (split_lines (upload_node_lines ns)) ≡ map offered ns
unfolding upload_node_lines parse_node_lines
parse_node_lines-offered [] h = unfold split_lines in refl
parse_node_lines-offered (n ∷ ns) h =
    rw (split_lines_cons (upload_node_line n) (upload_node_lines ns) (offered-IsLine n h.0)) (
      rw (offered_words n h.0, parse_node_lines)
        (rw (offered_read n h.0, h.0.id_word.0, parse_node_lines-offered ns h.1, parse_node_lines)
          refl))

module _ (count : ℕ) where
  abbrev ok_line : Text
  ok_line = codes "UPLOAD_RESPONSE" ++ spaced (codes "OK" ∷ to_string count ∷ [])

  ok_words : All IsWord (codes "OK" ∷ to_string count ∷ [])
  unfolding is_space
  ok_words = ((refl, (refl, (refl, tt))), (to_string-IsWord count, tt))

  response-IsWord : IsWord (codes "UPLOAD_RESPONSE")
  unfolding is_space
  response-IsWord = (refl, ground arith)

  ok_line_read : parse_command ok_line ≡ codes "UPLOAD_RESPONSE" ∷ codes "OK" ∷ to_string count ∷ []
  ok_line_read =
      parse_command-spaced (codes "UPLOAD_RESPONSE") (codes "OK" ∷ to_string count ∷ [])
        response-IsWord ok_words

  ok_line_lem :
      (t : Text)
      → codes "UPLOAD_RESPONSE OK " ++ (to_string count ++ (crlf ++ t)) ≡ ok_line ++ (crlf ++ t)
  ok_line_lem t =
      ap (λ u. codes "UPLOAD_RESPONSE OK " ++ (u ++ (crlf ++ t)))
        (sym (append-nil (to_string count)))

  parse_upload_response-offered :
      (ns : List StorageNode)
      → All IsNameable ns
      → parse_upload_response
          (codes "UPLOAD_RESPONSE OK " ++ (to_string count ++ (crlf ++ upload_node_lines ns)))
        ≡ map offered ns
  unfolding parse_upload_response upload_response_lines is_ok
  parse_upload_response-offered ns h =
      ap parse_upload_response (ok_line_lem (upload_node_lines ns))
      ∙ rw
          (split_lines_cons ok_line (upload_node_lines ns) (
            spaced-IsLine (codes "UPLOAD_RESPONSE") (codes "OK" ∷ to_string count ∷ [])
              response-IsWord ok_words))
          (rw (ok_line_read, is_ok)
            (rw (str_eq_refl (codes "UPLOAD_RESPONSE"), str_eq_refl (codes "OK"))
              (parse_node_lines-offered ns h)))

insufficient_read :
    parse_upload_response (line (codes "UPLOAD_RESPONSE ERROR INSUFFICIENT_NODES")) ≡ []
unfolding parse_upload_response split_lines upload_response_lines is_ok parse_command str_eq
insufficient_read = refl

-- What the client reads in the full text of the server's response to a REQUEST_UPLOAD with a size that
-- can be read: the nodes that `GetAvailableNodes` gives, in order, with their ids, addresses, ports and spaces,
-- where each fits a line (`IsNameable`); and no node where there are fewer than two.
pub parse_upload_response_lem :
    (env : Environment) (command name w : Text) (ws : List Text) (size : ℕ) (s : Server)
    → stoull (back w ws) ≡ some size
    → All IsNameable (get_available_nodes (env.clock 0) (required_nodes size) chunk_size s.nodes)
    → let nodes = get_available_nodes (env.clock 0) (required_nodes size) chunk_size s.nodes in
      parse_upload_response (handle_request_upload env (command ∷ name ∷ w ∷ ws) s)
      ≡ (if ltb (length nodes) replication_factor then [] else map offered nodes)
unfolding handle_request_upload request_upload_parsed
parse_upload_response_lem env command name w ws size s e h =
    let nodes = get_available_nodes (env.clock 0) (required_nodes size) chunk_size s.nodes in
    elim (Bool-cases (ltb (length nodes) replication_factor)) [
      | inl few ↦ rw (e, request_upload_parsed) (rw few insufficient_read)
      | inr enough ↦
          rw (e, request_upload_parsed)
            (rw enough (parse_upload_response-offered (length nodes) nodes h))
    ]
