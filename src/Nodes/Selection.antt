-- ===== src/Nodes/Selection.antt =====
-- Which nodes `GetAvailableNodes` offers for an upload, and what the loop of `FilterAndSortNodes` counts.
use p2p_server_file_storage.Prelude.{
  ℕ, ◌+◌, ◌-◌, ◌/◌, ◌≤◌, ◌≡◌, refl, sym, ap, Bool, true, false, List, [], ◌∷◌, ◌++◌, arith, length,
  take, drop, All, All-take, All-mono, min, ltb, if◌then◌else◌, leb, ◌&&◌, Perm, Bool-cases, inl,
  inr, take-append-drop, take_all, length-take,
}
use p2p_server_file_storage.UnorderedMap.{values}
use p2p_server_file_storage.Sort.{
  sort, sort-perm, sort-IsSorted, sort-All, length-sort, IsSorted, IsOrder,
}
use p2p_server_file_storage.Nodes.{StorageNode, NodeManager, node_timeout_sec, ticks_per_sec}
use p2p_server_file_storage.Nodes.Queries.{
  filter_nodes, filter_and_sort_nodes, get_available_nodes, more_space,
}

-- A node that can take an upload: active, heard of in the last 60 seconds, and with the space.
pub record IsAvailable (now required : ℕ) (n : StorageNode) : Type 0 where
  pub active : n.is_active ≡ true
  pub heard : (now - n.last_seen) / ticks_per_sec ≤ node_timeout_sec
  pub room : required ≤ n.free_space

-- The same as a test, written apart from the program's loop.
abbrev pub available_test : ℕ → ℕ → StorageNode → Bool
available_test now required n =
    n.is_active && (leb ((now - n.last_seen) / ticks_per_sec) 60 && leb required n.free_space)

abbrev pub keep {ℓ} : {A : Type ℓ} → (A → Bool) → List A → List A
keep p [] = []
keep p (x ∷ xs) = if p x then x ∷ keep p xs else keep p xs

keep-All :
    (now required : ℕ) (ns : List StorageNode)
    → All (IsAvailable now required) (keep (available_test now required) ns)
keep-All now required [] = tt
keep-All now required (n ∷ ns) = elim (Bool-cases (available_test now required n)) [
  | inl e ↦ rw e (ground arith, keep-All now required ns)
  | inr e ↦ rw e (keep-All now required ns)
]

filter_nodes-keep :
    (now required : ℕ) (ns : List StorageNode)
    → (filter_nodes now required ns).available ≡ keep (available_test now required) ns
unfolding filter_nodes
filter_nodes-keep now required [] = refl
filter_nodes-keep now required (n ∷ ns) = ground (arith, filter_nodes-keep now required ns)

-- The four counters that the loop of `FilterAndSortNodes` prints add up to the number of nodes.
pub filter_nodes_total :
    (now required : ℕ) (ns : List StorageNode)
    → let r = filter_nodes now required ns in
      r.inactive_nodes + r.timeout_nodes + r.insufficient_space_nodes + length r.available
      ≡ length ns
unfolding filter_nodes
filter_nodes_total now required [] = refl
filter_nodes_total now required (n ∷ ns) = ground (arith, filter_nodes_total now required ns)

more_space-IsOrder : IsOrder more_space
more_space-IsOrder = record {
  asymmetric = λ x y h. ground arith;
  cotransitive = λ x y z h k. ground arith;
}

-- No node has more free space than one that stands before it.
abbrev pub Descending : List StorageNode → Type 0
Descending [] = Unit
Descending (n ∷ ns) = All (λ (p : StorageNode). p.free_space ≤ n.free_space) ns × Descending ns

sorted-Descending : (ns : List StorageNode) → IsSorted more_space ns → Descending ns
sorted-Descending [] h = tt
sorted-Descending (n ∷ ns) h = (
  All-mono (λ (p : StorageNode) (e : more_space p n ≡ false). ground arith) ns h.0,
  sorted-Descending ns h.1,
)

get_available_nodes-take :
    (now count required : ℕ) (m : NodeManager)
    → get_available_nodes now count required m ≡ take count (filter_and_sort_nodes now required m)
unfolding get_available_nodes
get_available_nodes-take now count required m =
    let all = filter_and_sort_nodes now required m in
    elim (Bool-cases (ltb count (length all))) [
      | inl e ↦ rw e
      | inr e ↦ rw e (sym (take_all count all (ground arith)))
    ]

-- `GetAvailableNodes` offers as many nodes as were asked for, or all that are available if those
-- are fewer. Each one offered is active, was heard of in the last 60 seconds and has the space; with
-- the nodes passed over they are exactly the available nodes of the register; and they stand in
-- order of free space, so no node passed over has more than one that is offered.
pub get_available_nodes_best :
    (now count required : ℕ) (m : NodeManager)
    → let offered = get_available_nodes now count required m in
      let available = keep (available_test now required) (values m.nodes) in
      (passed_over : List StorageNode) × Perm (offered ++ passed_over) available
      × Descending (offered ++ passed_over)
      × All (IsAvailable now required) offered
      × (length offered ≡ min count (length available))
unfolding filter_and_sort_nodes
get_available_nodes_best now count required m =
    let ns = values m.nodes in
    let available = keep (available_test now required) ns in
    let all = filter_and_sort_nodes now required m in
    let e : all ≡ sort more_space available =
      ap (sort more_space) (filter_nodes-keep now required ns) in
    rw (get_available_nodes-take now count required m, e)
      (
        drop count (sort more_space available),
        rw (take-append-drop count (sort more_space available)) (sort-perm more_space available),
        rw (take-append-drop count (sort more_space available)) (
            sorted-Descending (sort more_space available)
              (sort-IsSorted more_space more_space-IsOrder available)),
        All-take (IsAvailable now required) count (sort more_space available)
            (sort-All more_space (IsAvailable now required) available (keep-All now required ns)),
        rw (length-take count (sort more_space available), length-sort more_space available),
      )
