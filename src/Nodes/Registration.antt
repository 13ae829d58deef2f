-- ===== src/Nodes/Registration.antt =====
-- What `RegisterNode` does on each of its branches, and that its drawing loop ends.
use p2p_server_file_storage.Prelude.{
  ℕ, zero, suc, ◌+◌, ◌/◌, ◌%◌, ◌<◌, ◌≤◌, ◌≡◌, refl, ap, ◌∙◌, is_positive, below_ℕ, ◌⊎◌, inl, inr,
  true, false, List, [], ◌∷◌, ◌++◌, Option, none, some, Bool, ltb, leb, ◌&&◌, Bool-cases, arith,
  length, ℤ, Option-cases, if◌then◌else◌,
}
use p2p_server_file_storage.Text.{Text, is_empty, str_eq}
use p2p_server_file_storage.Nodes.Queries.{get_total_nodes}
use p2p_server_file_storage.UnorderedMap.{UnorderedMap, find, assign, find-assign, length-assign}
use p2p_server_file_storage.Nodes.{
  StorageNode, NodeManager, Draw, is_valid, validate_node_info, generate_node_id, unused_id,
  register_node, get_node, new_node, hex_digits, hex_digit, to_hex, max_nodes,
}

hex_digits-nonempty :
    (f n : ℕ) (out : Text) → is_empty out ≡ false → is_empty (hex_digits f n out) ≡ false
unfolding hex_digits
hex_digits-nonempty zero n out h = h
hex_digits-nonempty (suc f) n out h =
    ground (arith, hex_digits-nonempty f (n / 16) (hex_digit (n % 16) ∷ out))

is_empty-append : (s t : Text) → is_empty s ≡ false → is_empty (s ++ t) ≡ false
is_empty-append [] t h = cc
is_empty-append (c ∷ s) t h = refl

generate_node_id-nonempty : (d : Draw) → is_empty (generate_node_id d) ≡ false
unfolding generate_node_id to_hex hex_digits
generate_node_id-nonempty d =
    is_empty-append (to_hex d.time) _
      (ground (arith, hex_digits-nonempty d.time (d.time / 16) (hex_digit (d.time % 16) ∷ [])))

pub unused_id-fresh :
    (draws : List Draw) (nodes : UnorderedMap StorageNode) {id : Text}
    → unused_id draws nodes ≡ some id
    → (find id nodes ≡ none) × (is_empty id ≡ false)
unfolding unused_id
unused_id-fresh [] nodes h = cc
unused_id-fresh (d ∷ draws) nodes {id} h =
    ground (arith, unused_id-fresh draws nodes {id = id}, generate_node_id-nonempty d)

pub validate_node_info-is_valid :
    (id ip : Text) (port : ℤ) (free_space seen registered : ℕ)
    → is_empty id ≡ false
    → validate_node_info ip port free_space ≡ true
    → (is_valid (new_node id ip port free_space seen registered) ≡ true) × (length ip ≤ 15)
unfolding validate_node_info is_valid
validate_node_info-is_valid id ip port free_space seen registered e h = ground arith

pub register_node_inversion :
    (ip : Text) (port : ℤ) (free_space : ℕ) (draws : List Draw) (seen registered : ℕ)
    (m : NodeManager) {m' : NodeManager} {id : Text}
    → register_node ip port free_space draws seen registered m ≡ some (m', some id)
    → (validate_node_info ip port free_space ≡ true)
      × (length m.nodes < max_nodes)
      × (unused_id draws m.nodes ≡ some id)
      × (m'
          ≡ record m { nodes = assign id (new_node id ip port free_space seen registered) m.nodes })
unfolding register_node
register_node_inversion ip port free_space draws seen registered m h =
    (ground arith, ground arith, ground arith, ground arith)

-- When `RegisterNode` returns true, the register had room, the id that it hands out was in use by
-- no node, and afterwards that id stands for a valid record of the node, every other id for what it
-- stood for before, and one node more is registered.
pub register_node-accepts :
    (ip : Text) (port : ℤ) (free_space : ℕ) (draws : List Draw) (seen registered : ℕ)
    (m : NodeManager) {m' : NodeManager} {id : Text}
    → register_node ip port free_space draws seen registered m ≡ some (m', some id)
    → (length m.nodes < max_nodes)
      × (get_node id m ≡ none)
      × (is_valid (new_node id ip port free_space seen registered) ≡ true)
      × ((j : Text)
          → get_node j m' ≡ (
              if str_eq id j
              then some (new_node id ip port free_space seen registered)
              else get_node j m))
      × (get_total_nodes m' ≡ get_total_nodes m + 1)
unfolding register_node get_node get_total_nodes
register_node-accepts ip port free_space draws seen registered m {m'} {id} h =
    let (good, room, new, e) =
      register_node_inversion ip port free_space draws seen registered m h in
    let (fresh, nonempty) = unused_id-fresh draws m.nodes new in
    let node = new_node id ip port free_space seen registered in
    (
      room,
      fresh,
      (validate_node_info-is_valid id ip port free_space seen registered nonempty good).0,
      λ j. ap (λ (k : NodeManager). find j k.nodes) e ∙ find-assign id j node m.nodes,
      ground (arith, length-assign id node m.nodes),
    )

-- When it returns false the register is as it was, and either the parameters are invalid (no
-- address, one of more than 15 bytes, or a port outside 1 to 65535) or the register is full.
pub register_node-refuses :
    (ip : Text) (port : ℤ) (free_space : ℕ) (draws : List Draw) (seen registered : ℕ)
    (m : NodeManager) {m' : NodeManager}
    → register_node ip port free_space draws seen registered m ≡ some (m', none)
    → (m' ≡ m)
      × ((is_empty ip ≡ true)
          ⊎ (15 < length ip)
          ⊎ (is_positive port ≡ false)
          ⊎ (below_ℕ port 65536 ≡ false)
          ⊎ (max_nodes ≤ length m.nodes))
unfolding register_node validate_node_info
register_node-refuses ip port free_space draws seen registered m h = (ground arith, ground arith)

unused_id_total :
    (before : List Draw) (d : Draw) (after : List Draw) (nodes : UnorderedMap StorageNode)
    → find (generate_node_id d) nodes ≡ none
    → (id : Text) × (unused_id (before ++ d ∷ after) nodes ≡ some id)
unfolding unused_id
unused_id_total [] d after nodes h = (generate_node_id d, rw (h, unused_id))
unused_id_total (b ∷ before) d after nodes h =
    elim (Option-cases (find (generate_node_id b) nodes)) [
      | inl e ↦ (generate_node_id b, rw (e, unused_id))
      | inr (n, e) ↦ rw (e, unused_id) (unused_id_total before d after nodes h)
    ]

-- Whether an id was handed out.
abbrev pub is_some : Option Text → Bool
is_some none = false
is_some (some id) = true

-- The drawing loop ends: as soon as one of the drawn ids is in use by no node, `RegisterNode` returns,
-- whatever its parameters; and it hands out an id exactly if the parameters are valid and there is room.
pub register_node_returns :
    (ip : Text) (port : ℤ) (free_space : ℕ) (before : List Draw) (d : Draw) (after : List Draw)
    (seen registered : ℕ) (m : NodeManager)
    → find (generate_node_id d) m.nodes ≡ none
    → (m' : NodeManager) × (r : Option Text) × (register_node ip port free_space
          (before ++ d ∷ after)
          seen
          registered
          m
        ≡ some (m', r))
      × (is_some r ≡ (validate_node_info ip port free_space && ltb (length m.nodes) max_nodes))
unfolding register_node
register_node_returns ip port free_space before d after seen registered m h =
    let (id, e) = unused_id_total before d after m.nodes h in
    elim (Bool-cases (validate_node_info ip port free_space)) [
      | inr bad ↦ (m, none, ground (arith, bad), ground (arith, bad))
      | inl good ↦ elim (Bool-cases (leb max_nodes (length m.nodes))) [
        | inl full ↦ (m, none, ground (arith, good, full), ground (arith, good, full))
        | inr room ↦ (
          record m { nodes = assign id (new_node id ip port free_space seen registered) m.nodes },
          some id,
          ground (arith, good, room, e),
          ground (arith, good, room),
        )
      ]
    ]
