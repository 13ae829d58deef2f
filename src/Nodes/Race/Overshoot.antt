-- ===== src/Nodes/Race/Overshoot.antt =====
-- An interleaving that passes the maximal number of nodes.
use p2p_server_file_storage.Prelude.{
  ℕ, ◌+◌, ◌≡◌, refl, true, false, [], ◌∷◌, none, some, arith, leb, subst, length, ℤ,
}
use p2p_server_file_storage.Text.{Text, str_eq}
use p2p_server_file_storage.UnorderedMap.{find, find-assign, length-assign}
use p2p_server_file_storage.Nodes.{
  NodeManager, Draw, max_nodes, generate_node_id, validate_node_info, unused_id, new_node,
}
use p2p_server_file_storage.Nodes.Race.{
  outside, admitted, named, check_room, find_id, save_node, Shared, enter, draw, save, Interleaved,
  here, next, idle,
}

find_id-fresh :
    (ip : Text) (port : ℤ) (free_space : ℕ) (d : Draw) (m : NodeManager)
    → find (generate_node_id d) m.nodes ≡ none
    → find_id (d ∷ []) (admitted ip port free_space) m
      ≡ some (named ip port free_space (generate_node_id d))
unfolding find_id unused_id
find_id-fresh ip port free_space d m fresh =
    let e : unused_id (d ∷ []) m.nodes ≡ some (generate_node_id d) = rw (fresh, unused_id) refl in
    rw (e, find_id) refl

-- Both threads pass the check of the size before either of them saves its node.
both_enter :
    (ip : Text) (port : ℤ) (free_space : ℕ) (m : NodeManager)
    → validate_node_info ip port free_space ≡ true
    → leb max_nodes (length m.nodes) ≡ false
    → let inside = admitted ip port free_space in
      Interleaved
        (record { threads = idle 2; manager = m })
        (record { threads = inside ∷ inside ∷ []; manager = m })
both_enter ip port free_space m good room =
    let start : Shared = record { threads = idle 2; manager = m } in
    let entered : check_room ip port free_space m ≡ admitted ip port free_space =
      unfold check_room in rw (good, room) refl in
    let one : Interleaved start
        (record { threads = admitted ip port free_space ∷ outside ∷ []; manager = m }) =
      subst (λ p. Interleaved start (record { threads = p ∷ outside ∷ []; manager = m })) entered
        (next {before = []} {after = outside ∷ []} here (enter ip port free_space)) in
    subst
      (λ p.
        Interleaved start (record { threads = admitted ip port free_space ∷ p ∷ []; manager = m }))
      entered
      (next {before = admitted ip port free_space ∷ []} {after = []} one (enter ip port free_space))

-- From a register of 999 nodes, two threads with valid parameters whose drawn ids differ
-- and are not in use can end with 1001 nodes, one more than the maximum.
pub two_threads_overshoot :
    (ip : Text) (port : ℤ) (free_space : ℕ) (d d' : Draw) (m : NodeManager)
    → validate_node_info ip port free_space ≡ true
    → length m.nodes ≡ 999
    → find (generate_node_id d) m.nodes ≡ none
    → find (generate_node_id d') m.nodes ≡ none
    → str_eq (generate_node_id d) (generate_node_id d') ≡ false
    → (s : Shared) × Interleaved (record { threads = idle 2; manager = m }) s
      × (length s.manager.nodes ≡ max_nodes + 1)
unfolding save_node
two_threads_overshoot ip port free_space d d' m good size fresh fresh' apart =
    let id = generate_node_id d in
    let id' = generate_node_id d' in
    let node = new_node id ip port free_space 0 0 in
    let node' = new_node id' ip port free_space 0 0 in
    let m1 = save_node 0 0 (named ip port free_space id) m in
    let m2 = save_node 0 0 (named ip port free_space id') m1 in
    let room : leb max_nodes (length m.nodes) ≡ false = ground arith in
    let drawn = find_id-fresh ip port free_space d m fresh in
    let drawn' = find_id-fresh ip port free_space d' m fresh' in
    let two = both_enter ip port free_space m good room in
    let three =
      next {before = []} {after = admitted ip port free_space ∷ []} two
        (draw ip port free_space (d ∷ []) drawn) in
    let four =
      next {before = named ip port free_space id ∷ []} {after = []} three
        (draw ip port free_space (d' ∷ []) drawn') in
    let five =
      next {before = []} {after = named ip port free_space id' ∷ []} four
        (save ip port free_space id 0 0) in
    let six = next {before = outside ∷ []} {after = []} five (save ip port free_space id' 0 0) in
    let free : find id' m1.nodes ≡ none = ground (arith, find-assign id id' node m.nodes) in
    (
      record { threads = outside ∷ outside ∷ []; manager = m2 },
      six,
      ground (arith, length-assign id node m.nodes, length-assign id' node' m1.nodes, free),
    )
