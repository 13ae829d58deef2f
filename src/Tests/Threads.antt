-- ===== src/Tests/Threads.antt =====
-- The theorems on concurrent registrations.
use p2p_server_file_storage.Prelude.{
  ℕ, zero, suc, ◌+◌, ◌≡◌, ◌≤◌, refl, [], ◌∷◌, none, arith, length, pos, false, ap,
}
use p2p_server_file_storage.Text.{Text, codes, str_eq}
use p2p_server_file_storage.UnorderedMap.{UnorderedMap, find}
use p2p_server_file_storage.Nodes.{
  StorageNode, NodeManager, Draw, initial, max_nodes, generate_node_id, validate_node_info,
  new_node,
}
use p2p_server_file_storage.Nodes.Race.{
  Shared, Interleaved, here, next, enter, outside, idle, check_room,
}
use p2p_server_file_storage.Nodes.Race.Bounds.{Interleaved-bounded}
use p2p_server_file_storage.Nodes.Race.Overshoot.{two_threads_overshoot}

abbrev ip : Text
ip = codes "10.0.0.7"

abbrev first_draw : Draw
first_draw = record { time = 255; random_digits = 1 ∷ [] }

abbrev second_draw : Draw
second_draw = record { time = 255; random_digits = 2 ∷ [] }

abbrev entered : Shared
entered = record { threads = check_room ip (pos 80) 5000 initial ∷ outside ∷ []; manager = initial }

Interleaved-bounded_example : length entered.manager.nodes ≤ max_nodes + 1
Interleaved-bounded_example =
    Interleaved-bounded 1 initial (omega arith)
      (next {before = []} {after = outside ∷ []} here (enter ip (pos 80) 5000))

-- Nodes with ids that no draw gives.
abbrev fill : ℕ → UnorderedMap StorageNode
fill zero = []
fill (suc n) = (n ∷ [], new_node (n ∷ []) ip (pos 80) 5000 10 10) ∷ fill n

length-fill : (n : ℕ) → length (fill n) ≡ n
length-fill zero = refl
length-fill (suc n) = ap suc (length-fill n)

find-fill : (a b : ℕ) (t : Text) (n : ℕ) → find (a ∷ b ∷ t) (fill n) ≡ none
unfolding find str_eq
find-fill a b t zero = refl
find-fill a b t (suc n) = ground (arith, find-fill a b t n)

abbrev almost_full : NodeManager
almost_full = record { nodes = fill 999; running = false }

two_threads_overshoot_example :
    (s : Shared) × Interleaved (record { threads = idle 2; manager = almost_full }) s
    × (length s.manager.nodes ≡ max_nodes + 1)
unfolding validate_node_info generate_node_id str_eq
two_threads_overshoot_example =
    two_threads_overshoot ip (pos 80) 5000 first_draw second_draw almost_full refl (length-fill 999)
      (find-fill b'f' b'f' (codes "1") 999) (find-fill b'f' b'f' (codes "2") 999) refl
