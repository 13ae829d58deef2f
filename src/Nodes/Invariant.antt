-- ===== src/Nodes/Invariant.antt =====
-- What holds of the register after any sequence of calls, whoever makes them.
use p2p_server_file_storage.Prelude.{
  ℕ, suc, ◌≤◌, ◌≡◌, refl, Bool, true, false, List, [], ◌∷◌, none, some, Option, arith, length, ℤ,
  subst, inl, inr, sym, Option-cases, if_cases, not,
}
use p2p_server_file_storage.Text.{Text}
use p2p_server_file_storage.UnorderedMap.{
  UnorderedMap, find, modify, Distinct, Distinct-assign, Distinct-erase, Distinct-modify,
  Distinct-map_values, Entries, Entries-assign, Entries-erase, Entries-modify, Entries-map_values,
  length-assign, length-erase-le, length-modify, length-map_values,
}
use p2p_server_file_storage.Nodes.{
  StorageNode, NodeManager, Draw, is_valid, max_nodes, initial, new_node, register_node,
  unregister_node, update_node_space, update_node_last_seen,
}
use p2p_server_file_storage.Nodes.Queries.{
  check_node_health, mark_health, keep_alive_round, start_keep_alive_checker,
  stop_keep_alive_checker, remove_inactive_nodes, keep_active, is_timed_out,
}
use p2p_server_file_storage.Nodes.Registration.{
  register_node_inversion, unused_id-fresh, validate_node_info-is_valid, register_node-refuses,
}

-- An entry stands under its own id and holds a valid node with a short address.
abbrev pub IsEntry : Text → StorageNode → Type 0
IsEntry k n = (n.node_id ≡ k) × (is_valid n ≡ true) × (length n.ip_address ≤ 15)

pub record IsConsistent (m : NodeManager) : Type 0 where
  pub distinct : Distinct m.nodes
  pub entries : Entries IsEntry m.nodes
  pub bounded : length m.nodes ≤ max_nodes

-- A call that changes the register. Each has the lock while it changes it; `RegisterNode` is taken
-- here as one step, and apart in Nodes.Race.
pub data Step (m : NodeManager) : NodeManager → Type 0 where
  register :
      (ip : Text) (port : ℤ) (free_space : ℕ) (draws : List Draw) (seen registered : ℕ)
      {m' : NodeManager} {result : Option Text}
      → register_node ip port free_space draws seen registered m ≡ some (m', result)
      → Step m m'
  unregister : (id : Text) → Step m (unregister_node id m).0
  update_space : (id : Text) (free_space : ℕ) → Step m (update_node_space id free_space m).0
  keep_alive : (id : Text) (now : ℕ) → Step m (update_node_last_seen id now m)
  health : (now : ℕ) → Step m (check_node_health now m)
  round : (now : ℕ) → Step m (keep_alive_round now m)
  remove_inactive : Step m (remove_inactive_nodes m)
  start : Step m (start_keep_alive_checker m)
  stop : Step m (stop_keep_alive_checker m)

pub data Reach (m : NodeManager) : NodeManager → Type 0 where
  here : Reach m m
  next : {k l : NodeManager} → Reach m k → Step k l → Reach m l

initial-IsConsistent : IsConsistent initial
initial-IsConsistent = record { distinct = tt; entries = tt; bounded = omega arith }

module _ (ip : Text) (port : ℤ) (free_space : ℕ) (draws : List Draw) (seen registered : ℕ) where
  register_node-IsConsistent :
      (m : NodeManager) {m' : NodeManager} (result : Option Text)
      → register_node ip port free_space draws seen registered m ≡ some (m', result)
      → IsConsistent m
      → IsConsistent m'
  register_node-IsConsistent m none h c =
      subst IsConsistent
        (sym (register_node-refuses ip port free_space draws seen registered m h).0) c
  register_node-IsConsistent m (some id) h c =
      let (good, room, new, e) =
        register_node_inversion ip port free_space draws seen registered m h in
      let (fresh, nonempty) = unused_id-fresh draws m.nodes new in
      let node = new_node id ip port free_space seen registered in
      let (valid, short) =
        validate_node_info-is_valid id ip port free_space seen registered nonempty good in
      subst IsConsistent (sym e) (record {
        distinct = Distinct-assign id node m.nodes c.distinct;
        entries = Entries-assign IsEntry id node m.nodes (refl, valid, short) c.entries;
        bounded = ground (arith, length-assign id node m.nodes);
      })

unregister_node-IsConsistent :
    (id : Text) (m : NodeManager) → IsConsistent m → IsConsistent (unregister_node id m).0
unfolding unregister_node
unregister_node-IsConsistent id m c = elim (Option-cases (find id m.nodes)) [
  | inl e ↦ rw (e, unregister_node) c
  | inr (n, e) ↦
      rw (e, unregister_node)
        (record {
          distinct = Distinct-erase id m.nodes c.distinct;
          entries = Entries-erase IsEntry id m.nodes c.entries;
          bounded = omega (arith, length-erase-le id m.nodes, c.bounded);
        })
]

-- A change of one node that leaves its id, address and port.
modify-IsConsistent :
    (id : Text) (f : StorageNode → StorageNode) (m : NodeManager)
    → ((k : Text) (n : StorageNode) → IsEntry k n → IsEntry k (f n))
    → IsConsistent m
    → IsConsistent (record m { nodes = modify id f m.nodes })
modify-IsConsistent id f m keep c = record {
  distinct = Distinct-modify id f m.nodes c.distinct;
  entries = Entries-modify IsEntry id f m.nodes keep c.entries;
  bounded = omega (arith, length-modify id f m.nodes, c.bounded);
}

update_node_space-IsConsistent :
    (id : Text) (free_space : ℕ) (m : NodeManager)
    → IsConsistent m
    → IsConsistent (update_node_space id free_space m).0
unfolding update_node_space
update_node_space-IsConsistent id free_space m c = elim (Option-cases (find id m.nodes)) [
  | inl e ↦ rw (e, update_node_space) c
  | inr (n, e) ↦
      rw (e, update_node_space)
        (modify-IsConsistent id (λ n. record n { free_space = free_space }) m
          (unfold is_valid in λ k n h. h) c)
]

update_node_last_seen-IsConsistent :
    (id : Text) (now : ℕ) (m : NodeManager)
    → IsConsistent m
    → IsConsistent (update_node_last_seen id now m)
unfolding update_node_last_seen is_valid
update_node_last_seen-IsConsistent id now m c =
    modify-IsConsistent id (λ n. record n { last_seen = now; is_active = true }) m (λ k n h. h) c

mark_health-IsEntry :
    (now : ℕ) (k : Text) (n : StorageNode) → IsEntry k n → IsEntry k (mark_health now n)
unfolding mark_health is_valid
mark_health-IsEntry now k n h = if_cases (IsEntry k) (is_timed_out now n) h h

check_node_health-IsConsistent :
    (now : ℕ) (m : NodeManager) → IsConsistent m → IsConsistent (check_node_health now m)
unfolding check_node_health
check_node_health-IsConsistent now m c = record {
  distinct = Distinct-map_values (mark_health now) m.nodes c.distinct;
  entries =
      Entries-map_values IsEntry (mark_health now) m.nodes (mark_health-IsEntry now) c.entries;
  bounded = omega (arith, length-map_values (mark_health now) m.nodes, c.bounded);
}

keep_alive_round-IsConsistent :
    (now : ℕ) (m : NodeManager) → IsConsistent m → IsConsistent (keep_alive_round now m)
unfolding keep_alive_round
keep_alive_round-IsConsistent now m c =
    if_cases IsConsistent m.running (check_node_health-IsConsistent now m c) c

keep_active-find :
    (k : Text) (m : UnorderedMap StorageNode) → find k m ≡ none → find k (keep_active m) ≡ none
unfolding keep_active find
keep_active-find k [] h = refl
keep_active-find k ((j, n) ∷ m) h = ground (arith, keep_active-find k m)

keep_active_lem :
    (m : UnorderedMap StorageNode)
    → Distinct m
    → Entries IsEntry m
    → Distinct (keep_active m)
      × Entries IsEntry (keep_active m)
      × (length (keep_active m) ≤ length m)
unfolding keep_active
keep_active_lem [] d h = (tt, tt, omega arith)
keep_active_lem ((k, n) ∷ m) d h =
    let (distinct, entries, le) = keep_active_lem m d.1 h.1 in
    if_cases (λ r. Distinct r × Entries IsEntry r × (length r ≤ suc (length m))) (not n.is_active)
      (distinct, entries, omega (arith, le))
      ((keep_active-find k m d.0, distinct), (h.0, entries), omega (arith, le))

remove_inactive_nodes-IsConsistent :
    (m : NodeManager) → IsConsistent m → IsConsistent (remove_inactive_nodes m)
unfolding remove_inactive_nodes
remove_inactive_nodes-IsConsistent m c =
    let (distinct, entries, le) = keep_active_lem m.nodes c.distinct c.entries in
    record { distinct = distinct; entries = entries; bounded = omega (arith, le, c.bounded) }

running-IsConsistent :
    (b : Bool) (m : NodeManager) → IsConsistent m → IsConsistent (record m { running = b })
running-IsConsistent b m c = record {
  distinct = c.distinct;
  entries = c.entries;
  bounded = c.bounded;
}

-- Every call keeps the register consistent: no id twice, each entry a valid node under its own id
-- with an address of at most 15 bytes, and at most 1000 nodes.
pub Step-IsConsistent : {m m' : NodeManager} → Step m m' → IsConsistent m → IsConsistent m'
unfolding start_keep_alive_checker stop_keep_alive_checker
Step-IsConsistent (register ip port free_space draws seen registered {result = r} h) c =
    register_node-IsConsistent ip port free_space draws seen registered _ r h c
Step-IsConsistent (unregister id) c = unregister_node-IsConsistent id _ c
Step-IsConsistent (update_space id free_space) c = update_node_space-IsConsistent id free_space _ c
Step-IsConsistent (keep_alive id now) c = update_node_last_seen-IsConsistent id now _ c
Step-IsConsistent (health now) c = check_node_health-IsConsistent now _ c
Step-IsConsistent (round now) c = keep_alive_round-IsConsistent now _ c
Step-IsConsistent remove_inactive c = remove_inactive_nodes-IsConsistent _ c
Step-IsConsistent {m} start c = if_cases IsConsistent m.running c (running-IsConsistent true m c)
Step-IsConsistent {m} stop c =
    if_cases IsConsistent (not m.running) c (running-IsConsistent false m c)

-- So it is consistent after any sequence of calls on the manager that the constructor makes.
pub Reach-IsConsistent : {m : NodeManager} → Reach initial m → IsConsistent m
Reach-IsConsistent here = initial-IsConsistent
Reach-IsConsistent (next r s) = Step-IsConsistent s (Reach-IsConsistent r)
