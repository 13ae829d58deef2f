-- ===== src/Nodes/Race.antt =====
-- `RegisterNode` of metadata-server/src/node_manager.cpp, taken apart into its three critical
-- sections, as the threads of the server interleave them.
pub mod Bounds
pub mod Overshoot
use p2p_server_file_storage.Prelude.{
  ℕ, zero, suc, ◌⊎◌, ◌+◌, ◌≤◌, ◌≡◌, refl, Bool, true, false, not, List, [], ◌∷◌, ◌++◌, Option, none,
  some, arith, leb, subst, if◌then◌else◌, length, length-append, ℤ, ◌<◌, Bool-cases, inl, inr,
  Option-cases,
}
use p2p_server_file_storage.Text.{Text, str_eq}
use p2p_server_file_storage.UnorderedMap.{
  find, find-assign, assign, erase, length-assign, length-erase-le,
}
use p2p_server_file_storage.Nodes.{
  NodeManager, Draw, max_nodes, generate_node_id, validate_node_info, unused_id, new_node,
  register_node, unregister_node,
}

-- Where a thread stands in `RegisterNode`: outside, behind the check of the size, or with an id that
-- it has found unused.
pub data Phase : Type 0 where
  outside : Phase
  admitted : (ip : Text) (port : ℤ) (free_space : ℕ) → Phase
  named : (ip : Text) (port : ℤ) (free_space : ℕ) (id : Text) → Phase

-- The validation and the first section: a thread that is refused returns false.
unfoldable pub check_room : Text → ℤ → ℕ → NodeManager → Phase
check_room ip port free_space m =
    if not (validate_node_info ip port free_space)
    then outside
    else if leb max_nodes (length m.nodes)
    then outside
    else admitted ip port free_space

-- The second section, with the ids drawn before and in it; `none`: it still draws.
unfoldable pub find_id : List Draw → Phase → NodeManager → Option Phase
find_id draws (admitted ip port free_space) m = elim (unused_id draws m.nodes) [
  | none ↦ none
  | some id ↦ some (named ip port free_space id)
]
find_id draws phase m = some phase

-- The third section.
unfoldable pub save_node : ℕ → ℕ → Phase → NodeManager → NodeManager
save_node seen registered (named ip port free_space id) m = record m {
  nodes = assign id (new_node id ip port free_space seen registered) m.nodes;
}
save_node seen registered phase m = m

-- The id that `RegisterNode` returns, if it returns true.
abbrev id_of : Phase → Option Text
id_of (named ip port free_space id) = some id
id_of phase = none

-- The sections one behind the other, with no other thread between them.
abbrev pub in_a_row :
    Text → ℤ → ℕ → List Draw → ℕ → ℕ → NodeManager → Option (NodeManager × Option Text)
in_a_row ip port free_space draws seen registered m =
    elim (find_id draws (check_room ip port free_space m) m) [
      | none ↦ none
      | some phase ↦ some (save_node seen registered phase m, id_of phase)
    ]

-- Where no other thread comes between them, the three sections are `RegisterNode` as it is modelled
-- in one step, whatever it returns.
pub in_a_row-register_node :
    (ip : Text) (port : ℤ) (free_space : ℕ) (draws : List Draw) (seen registered : ℕ)
    (m : NodeManager)
    → in_a_row ip port free_space draws seen registered m
      ≡ register_node ip port free_space draws seen registered m
unfolding find_id save_node register_node
in_a_row-register_node ip port free_space draws seen registered m =
    elim (Bool-cases (validate_node_info ip port free_space)) [
      | inr bad ↦
          let e : check_room ip port free_space m ≡ outside = unfold check_room in rw bad refl in
          rw (e, bad, in_a_row) refl
      | inl good ↦ elim (Bool-cases (leb max_nodes (length m.nodes))) [
        | inl full ↦
            let e : check_room ip port free_space m ≡ outside =
              unfold check_room in rw (good, full) refl in
            rw (e, good, full, in_a_row) refl
        | inr room ↦
            let e : check_room ip port free_space m ≡ admitted ip port free_space =
              unfold check_room in rw (good, room) refl in
            elim (Option-cases (unused_id draws m.nodes)) [
              | inl none_left ↦
                  rw (e, good, room, in_a_row) (rw (none_left, find_id, register_node) refl)
              | inr (id, found) ↦
                  rw (e, good, room, in_a_row) (rw (found, find_id, register_node) refl)
            ]
      ]
    ]

pub record Shared : Type 0 where
  pub threads : List Phase
  pub manager : NodeManager

-- A section of one thread; other threads may have come between it and the thread's last one.
pub data Turn (before after : List Phase) (m : NodeManager) : Shared → Shared → Type 0 where
  enter :
      (ip : Text) (port : ℤ) (free_space : ℕ)
      → Turn before after m
          (record { threads = before ++ outside ∷ after; manager = m })
          (record { threads = before ++ check_room ip port free_space m ∷ after; manager = m })
  draw :
      (ip : Text) (port : ℤ) (free_space : ℕ) (draws : List Draw) {phase : Phase}
      → find_id draws (admitted ip port free_space) m ≡ some phase
      → Turn before after m
          (record { threads = before ++ admitted ip port free_space ∷ after; manager = m })
          (record { threads = before ++ phase ∷ after; manager = m })
  save :
      (ip : Text) (port : ℤ) (free_space : ℕ) (id : Text) (seen registered : ℕ)
      → Turn before after m
          (record { threads = before ++ named ip port free_space id ∷ after; manager = m })
          (record {
            threads = before ++ outside ∷ after;
            manager = save_node seen registered (named ip port free_space id) m;
          })
  -- Another thread removes a node.
  unregister :
      (id : Text)
      → Turn before after m
          (record { threads = before ++ after; manager = m })
          (record { threads = before ++ after; manager = (unregister_node id m).0 })

pub data Interleaved (first : Shared) : Shared → Type 0 where
  here : Interleaved first first
  next :
      {before after : List Phase} {m : NodeManager} {s s' : Shared}
      → Interleaved first s
      → Turn before after m s s'
      → Interleaved first s'

-- So many threads outside `RegisterNode`.
abbrev pub idle : ℕ → List Phase
idle zero = []
idle (suc n) = outside ∷ idle n
