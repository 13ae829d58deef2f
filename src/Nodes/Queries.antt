-- ===== src/Nodes/Queries.antt =====
-- node_manager.cpp: the methods that select, count and supervise the registered nodes.
use p2p_server_file_storage.Prelude.{
  ℕ, ◌+◌, ◌-◌, ◌/◌, ◌%◌, Bool, true, false, not, List, [], ◌∷◌, ltb, if◌then◌else◌, length, take,
}
use p2p_server_file_storage.Text.{u64_mod}
use p2p_server_file_storage.UnorderedMap.{UnorderedMap, map_values, values}
use p2p_server_file_storage.Sort.{sort}
use p2p_server_file_storage.Nodes.{StorageNode, NodeManager, node_timeout_sec, ticks_per_sec}

-- `duration_cast<seconds>(now - lastSeen).count() > NODE_TIMEOUT_SEC`. The code's difference can be
-- negative, and is then no timeout, as 0 is none here.
unfoldable pub is_timed_out : ℕ → StorageNode → Bool
is_timed_out now n = ltb node_timeout_sec ((now - n.last_seen) / ticks_per_sec)

-- The list and the counters of the loop in `FilterAndSortNodes`.
pub record Filtered : Type 0 where
  pub available : List StorageNode
  pub inactive_nodes : ℕ
  pub timeout_nodes : ℕ
  pub insufficient_space_nodes : ℕ

unfoldable pub filter_nodes : ℕ → ℕ → List StorageNode → Filtered
unfolding is_timed_out
filter_nodes now required [] = record {
  available = [];
  inactive_nodes = 0;
  timeout_nodes = 0;
  insufficient_space_nodes = 0;
}
filter_nodes now required (n ∷ ns) =
    let rest = filter_nodes now required ns in
    if not n.is_active
    then record rest { inactive_nodes = rest.inactive_nodes + 1 }
    else if is_timed_out now n
    then record rest { timeout_nodes = rest.timeout_nodes + 1 }
    else if ltb n.free_space required
    then record rest { insufficient_space_nodes = rest.insufficient_space_nodes + 1 }
    else record rest { available = n ∷ rest.available }

-- `a.freeSpace > b.freeSpace`.
abbrev pub more_space : StorageNode → StorageNode → Bool
more_space a b = ltb b.free_space a.free_space

unfoldable pub filter_and_sort_nodes : ℕ → ℕ → NodeManager → List StorageNode
filter_and_sort_nodes now required m =
    sort more_space (filter_nodes now required (values m.nodes)).available

unfoldable pub get_available_nodes : ℕ → ℕ → ℕ → NodeManager → List StorageNode
get_available_nodes now count required m =
    let available = filter_and_sort_nodes now required m in
    if ltb count (length available) then take count available else available

-- The loop of `GetAllActiveNodes`.
unfoldable pub active_nodes : ℕ → List StorageNode → List StorageNode
active_nodes now [] = []
active_nodes now (n ∷ ns) =
    let rest = active_nodes now ns in
    if not n.is_active then rest else if is_timed_out now n then rest else n ∷ rest

unfoldable pub get_all_active_nodes : ℕ → NodeManager → List StorageNode
get_all_active_nodes now m = active_nodes now (values m.nodes)

unfoldable pub get_active_node_count : ℕ → NodeManager → ℕ
get_active_node_count now m = length (get_all_active_nodes now m)

unfoldable pub mark_health : ℕ → StorageNode → StorageNode
mark_health now n = if is_timed_out now n then record n { is_active = false } else n

unfoldable pub check_node_health : ℕ → NodeManager → NodeManager
check_node_health now m = record m { nodes = map_values (mark_health now) m.nodes }

unfoldable pub keep_active : UnorderedMap StorageNode → UnorderedMap StorageNode
keep_active [] = []
keep_active ((k, n) ∷ m) =
    let rest = keep_active m in if not n.is_active then rest else (k, n) ∷ rest

unfoldable pub remove_inactive_nodes : NodeManager → NodeManager
unfolding keep_active
remove_inactive_nodes m = record m { nodes = keep_active m.nodes }

unfoldable pub start_keep_alive_checker : NodeManager → NodeManager
start_keep_alive_checker m = if m.running then m else record m { running = true }

unfoldable pub stop_keep_alive_checker : NodeManager → NodeManager
stop_keep_alive_checker m = if not m.running then m else record m { running = false }

-- One round of the keep-alive thread, behind its sleep.
unfoldable pub keep_alive_round : ℕ → NodeManager → NodeManager
keep_alive_round now m = if m.running then check_node_health now m else m

unfoldable pub get_total_nodes : NodeManager → ℕ
get_total_nodes m = length m.nodes

unfoldable pub count_active : ℕ → List StorageNode → ℕ → ℕ
count_active now [] count = count
count_active now (n ∷ ns) count =
    count_active now ns
      (if not n.is_active then count else if is_timed_out now n then count else count + 1)

unfoldable pub get_active_nodes : ℕ → NodeManager → ℕ
unfolding count_active
get_active_nodes now m = count_active now (values m.nodes) 0

unfoldable pub add_free_space : ℕ → List StorageNode → ℕ → ℕ
add_free_space now [] total = total
add_free_space now (n ∷ ns) total = add_free_space now ns (
    if not n.is_active
    then total
    else if is_timed_out now n
    then total
    else (total + n.free_space) % u64_mod)

unfoldable pub get_total_free_space : ℕ → NodeManager → ℕ
unfolding add_free_space
get_total_free_space now m = add_free_space now (values m.nodes) 0
