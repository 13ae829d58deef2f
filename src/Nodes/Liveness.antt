-- ===== src/Nodes/Liveness.antt =====
-- Keep-alive: which nodes count as active, and that the health check changes no answer.
use p2p_server_file_storage.Prelude.{ℕ, ◌+◌, ◌%◌, ◌≤◌, ◌<◌, ◌≡◌, refl, List, [], ◌∷◌, arith, length}
use p2p_server_file_storage.Text.{Text, u64_mod}
use p2p_server_file_storage.UnorderedMap.{UnorderedMap, values, map_values}
use p2p_server_file_storage.Nodes.{StorageNode, NodeManager}
use p2p_server_file_storage.Nodes.Queries.{
  filter_nodes, get_available_nodes, filter_and_sort_nodes, is_timed_out, active_nodes,
  get_all_active_nodes, get_active_node_count, check_node_health, mark_health, count_active,
  get_active_nodes, add_free_space, get_total_free_space,
}

active_nodes-health :
    (now later : ℕ) (m : UnorderedMap StorageNode)
    → now ≤ later
    → active_nodes later (values (map_values (mark_health now) m)) ≡ active_nodes later (values m)
unfolding active_nodes values map_values mark_health is_timed_out
active_nodes-health now later [] h = refl
active_nodes-health now later ((k, n) ∷ m) h = ground (arith, active_nodes-health now later m h)

filter_nodes-health :
    (now later required : ℕ) (m : UnorderedMap StorageNode)
    → now ≤ later
    → (filter_nodes later required (values (map_values (mark_health now) m))).available
      ≡ (filter_nodes later required (values m)).available
unfolding filter_nodes values map_values mark_health is_timed_out
filter_nodes-health now later required [] h = refl
filter_nodes-health now later required ((k, n) ∷ m) h =
    ground (arith, filter_nodes-health now later required m h)

-- A health check is not seen by any later request: from then on the register lists the same active
-- nodes, and offers the same nodes for an upload, as it would have without the check.
pub check_node_health_unseen :
    (now later count required : ℕ) (m : NodeManager)
    → now ≤ later
    → (get_all_active_nodes later (check_node_health now m) ≡ get_all_active_nodes later m)
      × (get_available_nodes later count required (check_node_health now m)
          ≡ get_available_nodes later count required m)
unfolding get_all_active_nodes check_node_health get_available_nodes filter_and_sort_nodes
check_node_health_unseen now later count required m h =
    (active_nodes-health now later m.nodes h, rw (filter_nodes-health now later required m.nodes h))

count_active-length :
    (now : ℕ) (ns : List StorageNode) (count : ℕ)
    → count_active now ns count ≡ count + length (active_nodes now ns)
unfolding count_active active_nodes
count_active-length now [] count = omega arith
count_active-length now (n ∷ ns) count =
    ground (arith, count_active-length now ns count, count_active-length now ns (count + 1))

abbrev pub total_free_space : List StorageNode → ℕ
total_free_space [] = 0
total_free_space (n ∷ ns) = n.free_space + total_free_space ns

add_free_space-total :
    (now : ℕ) (ns : List StorageNode) (total : ℕ)
    → total < u64_mod
    → add_free_space now ns total ≡ (total + total_free_space (active_nodes now ns)) % u64_mod
unfolding add_free_space active_nodes
add_free_space-total now [] total h = omega arith
add_free_space-total now (n ∷ ns) total h = ground (
  arith,
  add_free_space-total now ns total h,
  add_free_space-total now ns ((total + n.free_space) % u64_mod),
)

-- The three ways to count the active nodes agree, and the total free space is that of the nodes
-- that `GetAllActiveNodes` lists, modulo 2^64.
pub active_counts_agree :
    (now : ℕ) (m : NodeManager)
    → (get_active_nodes now m ≡ length (get_all_active_nodes now m))
      × (get_active_node_count now m ≡ get_active_nodes now m)
      × (get_total_free_space now m ≡ total_free_space (get_all_active_nodes now m) % u64_mod)
unfolding get_active_nodes get_active_node_count get_total_free_space get_all_active_nodes
active_counts_agree now m =
    let ns = values m.nodes in
    (
      omega (arith, count_active-length now ns 0),
      omega (arith, count_active-length now ns 0),
      omega (arith, add_free_space-total now ns 0 (omega arith)),
    )
