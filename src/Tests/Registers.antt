-- ===== src/Tests/Registers.antt =====
-- The theorems on the two registers, at a register with one node and one file.
use p2p_server_file_storage.Prelude.{
  ◌+◌, ◌≡◌, ◌≤◌, ◌<◌, ◌⊎◌, refl, true, false, List, [], ◌∷◌, ◌++◌, none, some, length, Option, ltb,
  ◌&&◌, min, All, Perm, arith, ℤ, pos, negsuc, is_positive, below_ℕ, if◌then◌else◌,
}
use p2p_server_file_storage.Text.{Text, codes, is_empty, str_eq}
use p2p_server_file_storage.UnorderedMap.{find, values, assign}
use p2p_server_file_storage.Sort.{sort, insert}
use p2p_server_file_storage.Sequence.{check_indices, validate_sequence}
use p2p_server_file_storage.Nodes
use p2p_server_file_storage.Nodes.{
  StorageNode, NodeManager, Draw, is_valid, max_nodes, new_node, generate_node_id,
  validate_node_info, unused_id, register_node, get_node,
}
use p2p_server_file_storage.Nodes.Queries.{
  get_available_nodes, get_all_active_nodes, get_total_nodes, check_node_health,
}
use p2p_server_file_storage.Nodes.Registration.{
  register_node-accepts, register_node-refuses, register_node_returns, is_some,
}
use p2p_server_file_storage.Nodes.Invariant as NodeCalls
use p2p_server_file_storage.Nodes.Invariant.{Reach-IsConsistent}
use p2p_server_file_storage.Nodes.Selection.{
  IsAvailable, Descending, available_test, keep, get_available_nodes_best,
}
use p2p_server_file_storage.Nodes.Liveness.{check_node_health_unseen}
use p2p_server_file_storage.Files
use p2p_server_file_storage.Files.{
  ChunkInfo, FileMetadata, MetadataManager, returns, relocks, register_file, delete_file,
  file_exists, get_file_chunks, get_file_metadata, sanitize_filename, validate_chunk_sequence,
  validate_file_metadata,
}
use p2p_server_file_storage.Files.Names.{IsClean, sanitize_filename-IsClean}
use p2p_server_file_storage.Files.Accepting.{IsAcceptable, register_file_decides}
use p2p_server_file_storage.Files.Invariant as FileCalls
use p2p_server_file_storage.Files.Invariant.{Reach-IsAccurate, get_file_chunks-register_file}

abbrev ip : Text
ip = codes "10.0.0.7"

abbrev draw : Draw
draw = record { time = 255; random_digits = 1 ∷ 2 ∷ 3 ∷ 4 ∷ 5 ∷ 6 ∷ 7 ∷ 8 ∷ [] }

abbrev id : Text
id = codes "ff12345678"

abbrev one_node : NodeManager
one_node = record { nodes = (id, new_node id ip (pos 80) 5000 10 10) ∷ []; running = false }

generate_draw : generate_node_id draw ≡ id
unfolding generate_node_id
generate_draw = refl

registered :
    register_node ip (pos 80) 5000 (draw ∷ []) 10 10 Nodes.initial ≡ some (one_node, some id)
unfolding register_node validate_node_info unused_id generate_node_id assign find
registered = refl

register_node-accepts_example :
    (0 < 1000)
    × (get_node id Nodes.initial ≡ none)
    × (is_valid (new_node id ip (pos 80) 5000 10 10) ≡ true)
    × ((j : Text)
        → get_node j one_node ≡ (
            if str_eq id j
            then some (new_node id ip (pos 80) 5000 10 10)
            else get_node j Nodes.initial))
    × (get_total_nodes one_node ≡ get_total_nodes Nodes.initial + 1)
register_node-accepts_example =
    register_node-accepts ip (pos 80) 5000 (draw ∷ []) 10 10 Nodes.initial registered

abbrev bad_port : ℤ
bad_port = negsuc 4

refused : register_node ip bad_port 5000 [] 10 10 one_node ≡ some (one_node, none)
unfolding register_node validate_node_info
refused = refl

register_node-refuses_example :
    (one_node ≡ one_node)
    × ((is_empty ip ≡ true)
        ⊎ (15 < length ip)
        ⊎ (is_positive bad_port ≡ false)
        ⊎ (below_ℕ bad_port 65536 ≡ false)
        ⊎ (max_nodes ≤ length one_node.nodes))
register_node-refuses_example = register_node-refuses ip bad_port 5000 [] 10 10 one_node refused

abbrev other_draw : Draw
other_draw = record { time = 256; random_digits = [] }

register_node_returns_example :
    (m' : NodeManager) × (r : Option Text) × (register_node ip
        (pos 80)
        5000
        (draw ∷ other_draw ∷ [])
        20
        20
        one_node
      ≡ some (m', r))
    × (is_some r ≡ (validate_node_info ip (pos 80) 5000 && ltb (length one_node.nodes) max_nodes))
unfolding find str_eq generate_node_id
register_node_returns_example =
    register_node_returns ip (pos 80) 5000 (draw ∷ []) other_draw [] 20 20 one_node refl

Reach-IsConsistent_example : NodeCalls.IsConsistent one_node
Reach-IsConsistent_example = Reach-IsConsistent (
    NodeCalls.next NodeCalls.here
      (NodeCalls.register ip (pos 80) 5000 (draw ∷ []) 10 10 registered))

get_available_nodes_best_example :
    let offered = get_available_nodes 100 2 1000 one_node in
    let available = keep (available_test 100 1000) (values one_node.nodes) in
    (passed_over : List StorageNode) × Perm (offered ++ passed_over) available
    × Descending (offered ++ passed_over)
    × All (IsAvailable 100 1000) offered
    × (length offered ≡ min 2 (length available))
get_available_nodes_best_example = get_available_nodes_best 100 2 1000 one_node

check_node_health_unseen_example :
    (get_all_active_nodes 90000000000 (check_node_health 80000000000 one_node)
      ≡ get_all_active_nodes 90000000000 one_node)
    × (get_available_nodes 90000000000 2 1000 (check_node_health 80000000000 one_node)
        ≡ get_available_nodes 90000000000 2 1000 one_node)
check_node_health_unseen_example =
    check_node_health_unseen 80000000000 90000000000 2 1000 one_node (omega arith)

abbrev chunk_name : Text
chunk_name = codes "0123456789abcdef0123456789abcdef0123456789abcdef0123456789abcdef"

abbrev chunk : ChunkInfo
chunk = record { chunk_id = chunk_name; index = 0; size = 7; node_ids = id ∷ [] }

abbrev file : FileMetadata
file = record {
  filename = codes "a.txt";
  total_size = 7;
  chunks = chunk ∷ [];
  upload_time = 1;
  last_accessed = 2;
}

abbrev one_file : MetadataManager
one_file = record { files = (codes "a.txt", file) ∷ []; total_files = 1; total_bytes = 7 }

abbrev asked_name : Text
asked_name = codes " a?.txt"

stored : register_file asked_name 7 (chunk ∷ []) 1 2 Files.initial ≡ returns (one_file, true)
unfolding register_file validate_file_metadata Files.update_statistics sanitize_filename assign find
    validate_chunk_sequence validate_sequence check_indices sort insert Files.all_valid
    Files.is_valid_chunk Files.is_valid_file Files.add_sizes values Files.add_total_sizes
    Files.is_dangerous Files.is_blank
stored = refl

Reach-IsAccurate_example : FileCalls.IsAccurate one_file
Reach-IsAccurate_example =
    Reach-IsAccurate
      (FileCalls.next FileCalls.here (FileCalls.register asked_name 7 (chunk ∷ []) 1 2 stored))

get_file_chunks-register_file_example :
    (file_exists (codes "a.txt") one_file ≡ true)
    × (get_file_chunks (codes "a.txt") one_file ≡ chunk ∷ [])
    × ((get_file_metadata (codes "a.txt") 9 one_file).1 ≡ some (record file { last_accessed = 9 }))
unfolding sanitize_filename Files.is_dangerous Files.is_blank
get_file_chunks-register_file_example =
    get_file_chunks-register_file asked_name (codes "a.txt") 7 (chunk ∷ []) 1 2 9 Files.initial
      stored refl refl

sanitize_filename-IsClean_example :
    IsClean (sanitize_filename asked_name)
    × (IsClean asked_name → sanitize_filename asked_name ≡ asked_name)
    × (sanitize_filename (sanitize_filename asked_name) ≡ sanitize_filename asked_name)
sanitize_filename-IsClean_example = sanitize_filename-IsClean asked_name

register_file_decides_example :
    let new = Files.new_file (codes "a.txt") 7 (chunk ∷ []) 1 2 in
    (IsAcceptable asked_name 7 (chunk ∷ [])
      → (m' : MetadataManager) × (register_file asked_name 7 (chunk ∷ []) 1 2 Files.initial
          ≡ returns (m', true))
        × ((j : Text)
            → find j m'.files
              ≡ (if str_eq (codes "a.txt") j then some new else find j Files.initial.files))
        × (m'.total_files ≡ Files.get_file_count m')
        × (m'.total_bytes ≡ Files.get_total_bytes m'))
    × (¬ IsAcceptable asked_name 7 (chunk ∷ [])
        → register_file asked_name 7 (chunk ∷ []) 1 2 Files.initial
          ≡ returns (Files.initial, false))
unfolding sanitize_filename Files.is_dangerous Files.is_blank
register_file_decides_example = register_file_decides asked_name 7 (chunk ∷ []) 1 2 Files.initial
