-- ===== src/Nodes/Race/Bounds.antt =====
-- How far concurrent registrations can pass the maximal number of nodes.
use p2p_server_file_storage.Prelude.{
  ℕ, zero, suc, ◌⊎◌, ◌+◌, ◌≤◌, ◌≡◌, refl, List, [], ◌∷◌, ◌++◌, some, arith, leb, length,
  length-append, ℤ, ◌<◌, Bool-cases, inl, inr, Option-cases,
}
use p2p_server_file_storage.Text.{Text}
use p2p_server_file_storage.UnorderedMap.{find, length-assign, length-erase-le}
use p2p_server_file_storage.Nodes.{
  NodeManager, Draw, max_nodes, validate_node_info, unused_id, new_node, unregister_node,
}
use p2p_server_file_storage.Nodes.Race.{
  Phase, outside, admitted, named, check_room, find_id, save_node, Shared, Turn, enter, draw, save,
  unregister, Interleaved, here, next, idle,
}

-- The threads behind the check of the size.
abbrev inside : List Phase → ℕ
inside [] = 0
inside (outside ∷ ts) = inside ts
inside (admitted ip port free_space ∷ ts) = suc (inside ts)
inside (named ip port free_space id ∷ ts) = suc (inside ts)

inside-append :
    (before after : List Phase) → inside (before ++ after) ≡ inside before + inside after
inside-append [] after = omega arith
inside-append (outside ∷ before) after = inside-append before after
inside-append (admitted ip port free_space ∷ before) after =
    omega (arith, inside-append before after)
inside-append (named ip port free_space id ∷ before) after =
    omega (arith, inside-append before after)

length-around :
    (before after : List Phase) (phase : Phase)
    → length (before ++ phase ∷ after) ≡ length before + length after + 1
length-around before after phase = omega (arith, length-append before (phase ∷ after))

inside-le : (ts : List Phase) → inside ts ≤ length ts
inside-le [] = omega arith
inside-le (outside ∷ ts) = omega (arith, inside-le ts)
inside-le (admitted ip port free_space ∷ ts) = omega (arith, inside-le ts)
inside-le (named ip port free_space id ∷ ts) = omega (arith, inside-le ts)

-- The nodes and the threads that may still add one.
record IsWithin (count : ℕ) (s : Shared) : Type 0 where
  counted : length s.threads ≡ count
  bounded : length s.manager.nodes + inside s.threads < max_nodes + count

check_room-cases :
    (ip : Text) (port : ℤ) (free_space : ℕ) (m : NodeManager)
    → (check_room ip port free_space m ≡ outside)
      ⊎ ((check_room ip port free_space m ≡ admitted ip port free_space)
          × (length m.nodes < max_nodes))
unfolding check_room
check_room-cases ip port free_space m = elim (Bool-cases (validate_node_info ip port free_space)) [
  | inr bad ↦ inl (rw bad refl)
  | inl good ↦ elim (Bool-cases (leb max_nodes (length m.nodes))) [
    | inl full ↦ inl (rw (good, full) refl)
    | inr room ↦ inr (rw (good, room) refl, ground arith)
  ]
]

find_id-named :
    (ip : Text) (port : ℤ) (free_space : ℕ) (draws : List Draw) (m : NodeManager) {phase : Phase}
    → find_id draws (admitted ip port free_space) m ≡ some phase
    → (id : Text) × (phase ≡ named ip port free_space id)
unfolding find_id
find_id-named ip port free_space draws m h = elim (Option-cases (unused_id draws m.nodes)) [
  | inl e ↦ ground (arith, e)
  | inr (id, e) ↦ (id, ground (arith, e))
]

length-unregister_node :
    (id : Text) (m : NodeManager) → length (unregister_node id m).0.nodes ≤ length m.nodes
unfolding unregister_node
length-unregister_node id m = elim (Option-cases (find id m.nodes)) [
  | inl e ↦ rw (e, unregister_node) (omega arith)
  | inr (n, e) ↦ rw (e, unregister_node) (length-erase-le id m.nodes)
]

module _ (count : ℕ) (before after : List Phase) where
  abbrev around : Phase → NodeManager → Shared
  around phase m = record { threads = before ++ phase ∷ after; manager = m }

  -- One phase takes the place of another.
  replaced :
      (phase phase' : Phase) (m m' : NodeManager)
      → IsWithin count (around phase m)
      → length m'.nodes + inside (before ++ phase' ∷ after) < max_nodes + count
      → IsWithin count (around phase' m')
  replaced phase phase' m m' h bounded = record {
    counted =
        omega
          (arith, h.counted, length-around before after phase, length-around before after phase');
    bounded = bounded;
  }

  enter-IsWithin :
      (ip : Text) (port : ℤ) (free_space : ℕ) (m : NodeManager)
      → IsWithin count (around outside m)
      → IsWithin count (around (check_room ip port free_space m) m)
  enter-IsWithin ip port free_space m h = elim (check_room-cases ip port free_space m) [
    | inl e ↦ rw e h
    | inr (e, room) ↦
        let phase = admitted ip port free_space in
        rw e (
          replaced outside phase m m h (
            omega (
              arith,
              room,
              h.counted,
              length-around before after outside,
              inside-append before (phase ∷ after),
              inside-le before,
              inside-le after,
            )))
  ]

  draw-IsWithin :
      (ip : Text) (port : ℤ) (free_space : ℕ) (draws : List Draw) (m : NodeManager) {phase : Phase}
      → find_id draws (admitted ip port free_space) m ≡ some phase
      → IsWithin count (around (admitted ip port free_space) m)
      → IsWithin count (around phase m)
  draw-IsWithin ip port free_space draws m e h =
      let (id, same) = find_id-named ip port free_space draws m e in
      let old = admitted ip port free_space in
      let new = named ip port free_space id in
      rw same (
        replaced old new m m h (
          omega (
            arith,
            h.bounded,
            inside-append before (old ∷ after),
            inside-append before (new ∷ after),
          )))

  save-IsWithin :
      (ip : Text) (port : ℤ) (free_space : ℕ) (id : Text) (seen registered : ℕ) (m : NodeManager)
      → IsWithin count (around (named ip port free_space id) m)
      → IsWithin count (around outside (save_node seen registered (named ip port free_space id) m))
  unfolding save_node
  save-IsWithin ip port free_space id seen registered m h =
      let old = named ip port free_space id in
      replaced old outside m _ h (
        ground (
          arith,
          h.bounded,
          inside-append before (old ∷ after),
          inside-append before (outside ∷ after),
          length-assign id (new_node id ip port free_space seen registered) m.nodes,
        ))

Turn-IsWithin :
    (count : ℕ) (before after : List Phase) (m : NodeManager) {s s' : Shared}
    → Turn before after m s s'
    → IsWithin count s
    → IsWithin count s'
Turn-IsWithin count before after m (enter ip port free_space) h =
    enter-IsWithin count before after ip port free_space m h
Turn-IsWithin count before after m (draw ip port free_space draws e) h =
    draw-IsWithin count before after ip port free_space draws m e h
Turn-IsWithin count before after m (save ip port free_space id seen registered) h =
    save-IsWithin count before after ip port free_space id seen registered m h
Turn-IsWithin count before after m (unregister id) h = record {
  counted = h.counted;
  bounded = omega (arith, h.bounded, length-unregister_node id m);
}

idle-IsWithin : (n : ℕ) → (length (idle n) ≡ n) × (inside (idle n) ≡ 0)
idle-IsWithin zero = (refl, refl)
idle-IsWithin (suc n) = (omega (arith, (idle-IsWithin n).0), (idle-IsWithin n).1)

Interleaved-IsWithin :
    (count : ℕ) {first s : Shared} → Interleaved first s → IsWithin count first → IsWithin count s
Interleaved-IsWithin count here h = h
Interleaved-IsWithin count (next {before} {after} {m} r turn) h =
    Turn-IsWithin count before after m turn (Interleaved-IsWithin count r h)

-- However the sections of `count` + 1 threads interleave, and whatever nodes are removed meanwhile, a
-- register that starts with at most 1000 nodes never has more than 1000 + `count` nodes.
pub Interleaved-bounded :
    (count : ℕ) (m : NodeManager) {s : Shared}
    → length m.nodes ≤ max_nodes
    → Interleaved (record { threads = idle (suc count); manager = m }) s
    → length s.manager.nodes ≤ max_nodes + count
Interleaved-bounded count m h r =
    let (counted, none_inside) = idle-IsWithin (suc count) in
    let within =
      Interleaved-IsWithin (suc count) r
        (record { counted = counted; bounded = omega (arith, h, none_inside) }) in
    omega (arith, within.bounded)
