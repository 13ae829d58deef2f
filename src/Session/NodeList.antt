-- ===== src/Session/NodeList.antt =====
-- LIST_NODES, from the register of the server to the list and the cache of the client.
use p2p_server_file_storage.Prelude.{
  ℕ, ◌+◌, ◌<◌, ◌≡◌, refl, ap, ◌∙◌, false, List, [], ◌∷◌, ◌++◌, append_assoc, map, some, arith,
  length, All, subst, if◌then◌else◌, Bool-cases, inl, inr,
}
use p2p_server_file_storage.Text.{
  Text, codes, crlf, is_space, str_eq, str_eq_refl, to_string, int_to_string, u64_mod, stoi,
}
use p2p_server_file_storage.Text.Words.{
  IsWord, unspaced, unspaced-IsWord, parse_command, parse_command-spaced,
}
use p2p_server_file_storage.Text.Lines.{IsLine, unlines, split_lines-unlines}
use p2p_server_file_storage.Text.Decimal.{to_string-IsWord, stoull-to_string, stoi-int_to_string}
use p2p_server_file_storage.Text.Messages.{spaced-IsLine, str_eq-spaced}
use p2p_server_file_storage.Network.{max_message}
use p2p_server_file_storage.Network.Sockets.{Connection}
use p2p_server_file_storage.Nodes.{StorageNode}
use p2p_server_file_storage.Nodes.Queries.{get_all_active_nodes}
use p2p_server_file_storage.Protocol.{
  Server, Environment, line, node_list_line, node_list_lines, handle_list_nodes,
}
use p2p_server_file_storage.Client.MetadataClient.{Cache}
use p2p_server_file_storage.Client.MetadataClient.Listing.{
  node_entry, cache_node, list_nodes_lines, parse_node_list, parse_list_nodes,
}
use p2p_server_file_storage.Client.MetadataClient.Exchanges.{Address, list_nodes, read_nodes}
use p2p_server_file_storage.Client.MetadataClient.Received.{
  IsAnsweredWith, IsInner, IsLast, request_lines-unlines,
}
use p2p_server_file_storage.Session.Header.{
  ok_header, ok_header-IsLine, ok_header_short, is_ok-ok_header, ok_header_lem,
}
use p2p_server_file_storage.Session.Offered.{IsNameable, offered}

abbrev pub cache_nodes : List StorageNode → Cache → Cache
cache_nodes [] cache = cache
cache_nodes (n ∷ ns) cache = cache_nodes ns (cache_node (offered n) cache)

abbrev end_nodes : Text
end_nodes = codes "END_NODES"

module _ (n : StorageNode) where
  abbrev active_word : Text
  active_word = if n.is_active then codes "1" else codes "0"

  abbrev list_words : List Text
  list_words = n.ip_address ∷ int_to_string n.port ∷ to_string n.free_space ∷ active_word ∷ []

  active_word-IsWord : IsWord active_word
  unfolding unspaced is_space
  active_word-IsWord = elim (Bool-cases n.is_active) [
    | inl e ↦ rw e (unspaced-IsWord (codes "1") refl refl)
    | inr e ↦ rw e (unspaced-IsWord (codes "0") refl refl)
  ]

  module _ (h : IsNameable n) where
    list_words-All : All IsWord list_words
    unfolding int_to_string
    list_words-All = (
      h.ip_word,
      (
        rw h.has_port (to_string-IsWord h.port),
        (to_string-IsWord n.free_space, (active_word-IsWord, tt)),
      ),
    )

    listed-IsLine : IsLine (node_list_line n)
    unfolding node_list_line
    listed-IsLine = spaced-IsLine n.node_id list_words h.id_word list_words-All

    listed_words : parse_command (node_list_line n) ≡ n.node_id ∷ list_words
    unfolding node_list_line
    listed_words = parse_command-spaced n.node_id list_words h.id_word list_words-All

    listed_other : str_eq (node_list_line n) end_nodes ≡ false
    unfolding node_list_line unspaced is_space
    listed_other = str_eq-spaced n.node_id _ end_nodes (unspaced-IsWord end_nodes refl refl).1

    port_read : stoi (int_to_string n.port) ≡ some n.port
    port_read = rw h.has_port (stoi-int_to_string h.port h.port_fits)

    listed_entry : node_entry (n.node_id ∷ list_words) ≡ some (offered n)
    unfolding node_entry
    listed_entry = rw (port_read, stoull-to_string n.free_space h.space_fits) refl

parse_node_list-lines :
    (ns : List StorageNode) (cache : Cache)
    → All IsNameable ns
    → parse_node_list (map node_list_line ns ++ end_nodes ∷ []) cache
      ≡ (map offered ns, cache_nodes ns cache)
unfolding parse_node_list
parse_node_list-lines [] cache h = rw (str_eq_refl end_nodes)
parse_node_list-lines (n ∷ ns) cache (h, hs) =
    rw (listed_words n h, listed_entry n h, listed_other n h, parse_node_list)
      (rw (parse_node_list-lines ns (cache_node (offered n) cache) hs) refl)

abbrev title : Text
title = codes "LIST_NODES_RESPONSE"

title-IsWord : IsWord title
unfolding unspaced is_space
title-IsWord = unspaced-IsWord title refl refl

abbrev response_lines : List StorageNode → List Text
response_lines ns = map node_list_line ns ++ end_nodes ∷ []

node_list_lines_lem :
    (ns : List StorageNode) → node_list_lines ns ++ line end_nodes ≡ unlines (response_lines ns)
unfolding node_list_lines
node_list_lines_lem [] = refl
node_list_lines_lem (n ∷ ns) =
    append_assoc (node_list_line n) (crlf ++ node_list_lines ns) (line end_nodes)
    ∙ ap (λ t. node_list_line n ++ (crlf ++ t)) (node_list_lines_lem ns)

handle_list_nodes_lem :
    (env : Environment) (s : Server)
    → let ns = get_all_active_nodes (env.clock 0) s.nodes in
      handle_list_nodes env s ≡ unlines (ok_header title (length ns) ∷ response_lines ns)
unfolding handle_list_nodes
handle_list_nodes_lem env s =
    let ns = get_all_active_nodes (env.clock 0) s.nodes in
    ok_header_lem title (length ns) (node_list_lines ns ++ line end_nodes)
    ∙ ap (λ t. ok_header title (length ns) ++ (crlf ++ t)) (node_list_lines_lem ns)

end_line : IsLast end_nodes
unfolding unspaced is_space
end_line = (spaced-IsLine end_nodes [] (unspaced-IsWord end_nodes refl refl) tt, omega arith)

listed-All : (ns : List StorageNode) → All IsNameable ns → All IsLine (response_lines ns)
listed-All [] h = (end_line.0, tt)
listed-All (n ∷ ns) (h, hs) = (listed-IsLine n h, listed-All ns hs)

node_list_line-All :
    (ns : List StorageNode)
    → All IsNameable ns
    → All (λ n. length (node_list_line n) + 1 < max_message) ns
    → All (IsInner end_nodes) (map node_list_line ns)
node_list_line-All [] h short = tt
node_list_line-All (n ∷ ns) (h, hs) (one, short) = (
  record { is_line = listed-IsLine n h; short = one; other = listed_other n h },
  node_list_line-All ns hs short,
)

parse_list_nodes-lines :
    (count : ℕ) (ns : List StorageNode) (cache : Cache)
    → All IsNameable ns
    → parse_list_nodes (unlines (ok_header title count ∷ response_lines ns)) cache
      ≡ (map offered ns, cache_nodes ns cache)
unfolding parse_list_nodes list_nodes_lines
parse_list_nodes-lines count ns cache h =
    rw
      (split_lines-unlines (ok_header title count ∷ response_lines ns)
        (ok_header-IsLine title count title-IsWord, listed-All ns h))
      (rw (is_ok-ok_header title count title-IsWord, list_nodes_lines)
        (parse_node_list-lines ns cache h))

-- Where the server is reached, takes the request and answers with its response to LIST_NODES, and each
-- active node fits a line (`IsNameable`) that a message can hold, `ListNodes` gives exactly the active
-- nodes, in order, with their ids, addresses, ports and spaces, and puts each in the cache.
pub list_nodes-handle_list_nodes :
    (k : Connection) (a : Address) (env : Environment) (s : Server) (cache : Cache)
    → IsAnsweredWith k a (codes "LIST_NODES") (handle_list_nodes env s)
    → All IsNameable (get_all_active_nodes (env.clock 0) s.nodes)
    → All
        (λ n. length (node_list_line n) + 1 < max_message)
        (get_all_active_nodes (env.clock 0) s.nodes)
    → length (get_all_active_nodes (env.clock 0) s.nodes) < u64_mod
    → let ns = get_all_active_nodes (env.clock 0) s.nodes in
      list_nodes k a cache ≡ (map offered ns, cache_nodes ns cache)
unfolding list_nodes read_nodes
list_nodes-handle_list_nodes k a env s cache h named short fits =
    let ns = get_all_active_nodes (env.clock 0) s.nodes in
    ap (read_nodes cache) (
      request_lines-unlines k a (codes "LIST_NODES") end_nodes (ok_header title (length ns))
        (map node_list_line ns)
        (subst (IsAnsweredWith k a (codes "LIST_NODES")) (handle_list_nodes_lem env s) h) end_line
        (ok_header-IsLine title (length ns) title-IsWord)
        (ok_header_short title (length ns) (omega arith) fits) (node_list_line-All ns named short))
    ∙ parse_list_nodes-lines (length ns) ns cache named
