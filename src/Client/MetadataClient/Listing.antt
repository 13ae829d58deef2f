-- ===== src/Client/MetadataClient/Listing.antt =====
-- How `ListFiles` and `ListNodes` of client/src/core/metadata_client.cpp read the responses.
use p2p_server_file_storage.Prelude.{ℕ, List, [], ◌∷◌, Option, none, some, if◌then◌else◌, ℤ}
use p2p_server_file_storage.Text.{Text, codes, str_eq, stoull, stoi}
use p2p_server_file_storage.Text.Words.{parse_command}
use p2p_server_file_storage.Text.Lines.{split_lines}
use p2p_server_file_storage.UnorderedMap.{assign}
use p2p_server_file_storage.Client.MetadataClient.{StorageNodeInfo, Cache, is_ok}

-- The entry of a line, `none` where the line is skipped: words behind the second are not read.
unfoldable pub file_entry : List Text → Option (Text × ℕ)
file_entry (name ∷ size ∷ words) = elim (stoull size) [ none ↦ none | some n ↦ some (name, n) ]
file_entry words = none

unfoldable pub keep {ℓ} : {A : Type ℓ} → Option A → List A → List A
keep none xs = xs
keep (some x) xs = x ∷ xs

-- The loop of `ListFiles` behind the first line.
unfoldable pub parse_file_lines : List Text → List (Text × ℕ)
unfolding keep
parse_file_lines [] = []
parse_file_lines (l ∷ ls) =
    let rest = parse_file_lines ls in
    if str_eq l (codes "END_FILES") then [] else keep (file_entry (parse_command l)) rest

unfoldable pub list_files_lines : List Text → List (Text × ℕ)
list_files_lines [] = []
list_files_lines (l ∷ ls) =
    if is_ok 3 (codes "LIST_FILES_RESPONSE") (parse_command l) then parse_file_lines ls else []

-- What `ListFiles` makes of the response that it has read.
unfoldable pub parse_list_files : Text → List (Text × ℕ)
unfolding list_files_lines
parse_list_files response = list_files_lines (split_lines response)

node_of_numbers : Text → Text → Option ℤ → Option ℕ → Option StorageNodeInfo
node_of_numbers id ip (some port) (some free_space) =
    some (record { node_id = id; ip_address = ip; port = some port; free_space = some free_space })
node_of_numbers id ip port free_space = none

-- The node of a line of five words at least, `none` where the line is skipped; a word is not empty.
unfoldable pub node_entry : List Text → Option StorageNodeInfo
unfolding node_of_numbers
node_entry (id ∷ ip ∷ port ∷ free_space ∷ active ∷ words) =
    node_of_numbers id ip (stoi port) (stoull free_space)
node_entry words = none

-- `nodeCache[node.nodeId] = nodeInfo`, for a node whose numbers were read.
unfoldable pub cache_node : StorageNodeInfo → Cache → Cache
cache_node n cache = elim n.port [
  | none ↦ cache
  | some port ↦ elim n.free_space [
    | none ↦ cache
    | some free_space ↦
        assign n.node_id
          (record {
            node_id = n.node_id;
            ip_address = n.ip_address;
            port = port;
            free_space = free_space;
          })
          cache
  ]
]

cache_entry : Option StorageNodeInfo → Cache → Cache
unfolding cache_node
cache_entry none cache = cache
cache_entry (some n) cache = cache_node n cache

-- The loop of `ListNodes` behind the first line.
unfoldable pub parse_node_list : List Text → Cache → List StorageNodeInfo × Cache
unfolding keep cache_entry
parse_node_list [] cache = ([], cache)
parse_node_list (l ∷ ls) cache =
    let entry = node_entry (parse_command l) in
    let (nodes, cache') = parse_node_list ls (cache_entry entry cache) in
    if str_eq l (codes "END_NODES") then ([], cache) else (keep entry nodes, cache')

unfoldable pub list_nodes_lines : List Text → Cache → List StorageNodeInfo × Cache
list_nodes_lines [] cache = ([], cache)
list_nodes_lines (l ∷ ls) cache =
    if is_ok 3 (codes "LIST_NODES_RESPONSE") (parse_command l)
    then parse_node_list ls cache
    else ([], cache)

-- What `ListNodes` makes of the response that it has read.
unfoldable pub parse_list_nodes : Text → Cache → List StorageNodeInfo × Cache
unfolding list_nodes_lines
parse_list_nodes response cache = list_nodes_lines (split_lines response) cache
