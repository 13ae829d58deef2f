-- ===== src/UnorderedMap.antt =====
-- std::unordered_map<std::string, V> as the list of its entries in the order of iteration. A new
-- key comes last: the standard leaves the order open, and no theorem rests on it.
use p2p_server_file_storage.Prelude.{
  ◌≤◌, ◌+◌, ◌≡◌, refl, sym, subst, inl, inr, List, [], ◌∷◌, Option, none, some, arith,
  if◌then◌else◌, length, Bool-cases,
}
use p2p_server_file_storage.Text.{Text, str_eq, str_eq_iff}
use mathlib.Core.Option

abbrev pub UnorderedMap {ℓ} : Type ℓ → Type ℓ
UnorderedMap V = List (Text × V)

module _ {ℓ} {V : Type ℓ} where
  -- `m.find(k)`.
  unfoldable pub find : Text → UnorderedMap V → Option V
  find k [] = none
  find k ((j, v) ∷ m) = if str_eq j k then some v else find k m

  -- `m[k] = v`.
  unfoldable pub assign : Text → V → UnorderedMap V → UnorderedMap V
  assign k v [] = (k, v) ∷ []
  assign k v ((j, w) ∷ m) = if str_eq j k then (j, v) ∷ m else (j, w) ∷ assign k v m

  -- `m.erase(m.find(k))`.
  unfoldable pub erase : Text → UnorderedMap V → UnorderedMap V
  erase k [] = []
  erase k ((j, w) ∷ m) = if str_eq j k then m else (j, w) ∷ erase k m

  -- A change of `m.find(k)->second`.
  unfoldable pub modify : Text → (V → V) → UnorderedMap V → UnorderedMap V
  modify k f [] = []
  modify k f ((j, w) ∷ m) = if str_eq j k then (j, f w) ∷ m else (j, w) ∷ modify k f m

  -- `for (auto &pair : m)`, with a change of `pair.second`.
  unfoldable pub map_values : (V → V) → UnorderedMap V → UnorderedMap V
  map_values f [] = []
  map_values f ((j, w) ∷ m) = (j, f w) ∷ map_values f m

  unfoldable pub values : UnorderedMap V → List V
  values [] = []
  values ((j, w) ∷ m) = w ∷ values m

  unfoldable pub keys : UnorderedMap V → List Text
  keys [] = []
  keys ((j, w) ∷ m) = j ∷ keys m

  -- No key stands twice.
  abbrev pub Distinct : UnorderedMap V → Type ℓ
  Distinct [] = Unit
  Distinct ((k, v) ∷ m) = (find k m ≡ none) × Distinct m

  pub find-assign :
      (k j : Text) (v : V) (m : UnorderedMap V)
      → find j (assign k v m) ≡ (if str_eq k j then some v else find j m)
  unfolding find assign
  find-assign k j v [] = refl
  find-assign k j v ((i, w) ∷ m) =
      ground (arith, str_eq_iff k j, str_eq_iff i k, str_eq_iff i j, find-assign k j v m)

  pub find-erase :
      (k j : Text) (m : UnorderedMap V)
      → Distinct m
      → find j (erase k m) ≡ (if str_eq k j then none else find j m)
  unfolding find erase
  find-erase k j [] d = ground arith
  find-erase k j ((i, w) ∷ m) d =
      ground (arith, str_eq_iff k j, str_eq_iff i k, str_eq_iff i j, find-erase k j m d.1)

  pub find-modify :
      (k j : Text) (f : V → V) (m : UnorderedMap V)
      → find j (modify k f m) ≡ (if str_eq k j then Option.map f (find j m) else find j m)
  unfolding find modify
  find-modify k j f [] = ground arith
  find-modify k j f ((i, w) ∷ m) =
      ground (arith, str_eq_iff k j, str_eq_iff i k, str_eq_iff i j, find-modify k j f m)

  pub find-map_values :
      (j : Text) (f : V → V) (m : UnorderedMap V)
      → find j (map_values f m) ≡ Option.map f (find j m)
  unfolding find map_values
  find-map_values j f [] = refl
  find-map_values j f ((i, w) ∷ m) = ground (arith, find-map_values j f m)

  pub Distinct-assign :
      (k : Text) (v : V) (m : UnorderedMap V) → Distinct m → Distinct (assign k v m)
  unfolding find assign
  Distinct-assign k v [] d = (refl, tt)
  Distinct-assign k v ((i, w) ∷ m) d = elim (Bool-cases (str_eq i k)) [
    | inl e ↦ rw e d
    | inr e ↦ rw e (
      ground (arith, str_eq_iff i k, str_eq_iff k i, find-assign k i v m),
      Distinct-assign k v m d.1,
    )
  ]

  find-none-erase : (k j : Text) (m : UnorderedMap V) → find j m ≡ none → find j (erase k m) ≡ none
  unfolding find erase
  find-none-erase k j [] h = refl
  find-none-erase k j ((i, w) ∷ m) h = ground (arith, find-none-erase k j m)

  pub Distinct-erase : (k : Text) (m : UnorderedMap V) → Distinct m → Distinct (erase k m)
  unfolding find erase
  Distinct-erase k [] d = tt
  Distinct-erase k ((i, w) ∷ m) d = elim (Bool-cases (str_eq i k)) [
    | inl e ↦ rw e d.1
    | inr e ↦ rw e (find-none-erase k i m d.0, Distinct-erase k m d.1)
  ]

  pub Distinct-modify :
      (k : Text) (f : V → V) (m : UnorderedMap V) → Distinct m → Distinct (modify k f m)
  unfolding find modify
  Distinct-modify k f [] d = tt
  Distinct-modify k f ((i, w) ∷ m) d = elim (Bool-cases (str_eq i k)) [
    | inl e ↦ rw e d
    | inr e ↦ rw e (ground (arith, find-modify k i f m), Distinct-modify k f m d.1)
  ]

  pub Distinct-map_values :
      (f : V → V) (m : UnorderedMap V) → Distinct m → Distinct (map_values f m)
  unfolding map_values
  Distinct-map_values f [] d = tt
  Distinct-map_values f ((i, w) ∷ m) d =
      (ground (arith, find-map_values i f m), Distinct-map_values f m d.1)

module _ {ℓ} {V : Type ℓ} where
  pub length-assign :
      (k : Text) (v : V) (m : UnorderedMap V)
      → length (assign k v m) ≡ elim (find k m) [ none ↦ length m + 1 | some _ ↦ length m ]
  unfolding find assign
  length-assign k v [] = omega arith
  length-assign k v ((i, w) ∷ m) = ground (arith, length-assign k v m)

  pub length-erase-le : (k : Text) (m : UnorderedMap V) → length (erase k m) ≤ length m
  unfolding erase
  length-erase-le k [] = omega arith
  length-erase-le k ((i, w) ∷ m) = ground (arith, length-erase-le k m)

  pub length-modify : (k : Text) (f : V → V) (m : UnorderedMap V) → length (modify k f m) ≡ length m
  unfolding modify
  length-modify k f [] = refl
  length-modify k f ((i, w) ∷ m) = ground (arith, length-modify k f m)

  pub length-map_values : (f : V → V) (m : UnorderedMap V) → length (map_values f m) ≡ length m
  unfolding map_values
  length-map_values f [] = refl
  length-map_values f ((i, w) ∷ m) = ground (arith, length-map_values f m)

-- A property of each entry.
module _ {ℓ κ} {V : Type ℓ} (P : Text → V → Type κ) where
  abbrev pub Entries : UnorderedMap V → Type κ
  Entries [] = Unit
  Entries ((k, v) ∷ m) = P k v × Entries m

  pub Entries-find : (k : Text) {v : V} (m : UnorderedMap V) → Entries m → find k m ≡ some v → P k v
  unfolding find
  Entries-find k [] h e = cc
  Entries-find k {v} ((i, w) ∷ m) h e = elim (Bool-cases (str_eq i k)) [
    | inl q ↦ subst (λ x. P k x) (ground arith) (subst (λ j. P j w) ((str_eq_iff i k).0 q) h.0)
    | inr q ↦ Entries-find k m h.1 (ground arith)
  ]

  pub Entries-assign :
      (k : Text) (v : V) (m : UnorderedMap V) → P k v → Entries m → Entries (assign k v m)
  unfolding assign
  Entries-assign k v [] p h = (p, tt)
  Entries-assign k v ((i, w) ∷ m) p h = elim (Bool-cases (str_eq i k)) [
    | inl e ↦ rw e (subst (λ j. P j v) (sym ((str_eq_iff i k).0 e)) p, h.1)
    | inr e ↦ rw e (h.0, Entries-assign k v m p h.1)
  ]

  pub Entries-erase : (k : Text) (m : UnorderedMap V) → Entries m → Entries (erase k m)
  unfolding erase
  Entries-erase k [] h = tt
  Entries-erase k ((i, w) ∷ m) h = elim (Bool-cases (str_eq i k)) [
    | inl e ↦ rw e h.1
    | inr e ↦ rw e (h.0, Entries-erase k m h.1)
  ]

  pub Entries-modify :
      (k : Text) (f : V → V) (m : UnorderedMap V)
      → ((j : Text) (v : V) → P j v → P j (f v))
      → Entries m
      → Entries (modify k f m)
  unfolding modify
  Entries-modify k f [] g h = tt
  Entries-modify k f ((i, w) ∷ m) g h = elim (Bool-cases (str_eq i k)) [
    | inl e ↦ rw e (g i w h.0, h.1)
    | inr e ↦ rw e (h.0, Entries-modify k f m g h.1)
  ]

  pub Entries-map_values :
      (f : V → V) (m : UnorderedMap V)
      → ((j : Text) (v : V) → P j v → P j (f v))
      → Entries m
      → Entries (map_values f m)
  unfolding map_values
  Entries-map_values f [] g h = tt
  Entries-map_values f ((i, w) ∷ m) g h = (g i w h.0, Entries-map_values f m g h.1)
