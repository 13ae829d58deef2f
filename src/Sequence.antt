-- ===== src/Sequence.antt =====
-- The check that both `ValidateChunkSequence` methods make (metadata_manager.cpp and
-- chunk_processor.cpp): sorted by index, the chunks are numbered 0, 1, 2, ….
use mathlib.Core.List
use mathlib.Core.List.{Permᴰ}
use mathlib.Core.List.Permᴰ.{nil, cons, swap, trans}
use mathlib.Core.Path.{ap₂}
use mathlib.Core.Logic.{∥∥₁_elim}
use native.Mathlib.Nat.{ℕ_set}
use mathlib.Core.List.Perm
use p2p_server_file_storage.Prelude.{
  ℕ, zero, suc, ◌+◌, ◌≡◌, refl, sym, ap, ◌∙◌, ◌↔◌, Bool, true, false, not, List, [], ◌∷◌, arith,
  length, map, ltb, ◌==◌, if◌then◌else◌, Perm,
}
use p2p_server_file_storage.Text.{is_empty}
use p2p_server_file_storage.Sort.{sort, insert, length-sort, sort-perm}

-- i, i + 1, …: `n` numbers.
abbrev pub range : ℕ → ℕ → List ℕ
range i zero = []
range i (suc n) = i ∷ range (i + 1) n

module _ {ℓ} {A : Type ℓ} (index : A → ℕ) where
  abbrev pub by_index : A → A → Bool
  by_index a b = ltb (index a) (index b)

  -- `for (i = 0; …) if (sorted[i].index != i) return false;`
  unfoldable pub check_indices : ℕ → List A → Bool
  check_indices i [] = true
  check_indices i (x ∷ xs) =
      let rest = check_indices (i + 1) xs in if not (index x == i) then false else rest

  unfoldable pub validate_sequence : List A → Bool
  validate_sequence xs = if is_empty xs then false else check_indices 0 (sort by_index xs)

  pub check_indices_iff :
      (i : ℕ) (xs : List A) → (check_indices i xs ≡ true) ↔ (map index xs ≡ range i (length xs))
  unfolding check_indices
  check_indices_iff i [] = (λ _. refl, λ _. refl)
  check_indices_iff i (x ∷ xs) = (
    λ h. ground (arith, check_indices_iff (i + 1) xs),
    λ h. ground (arith, check_indices_iff (i + 1) xs),
  )

  map-insert :
      (x : A) (xs : List A) → map index (insert by_index x xs) ≡ insert ltb (index x) (map index xs)
  unfolding insert
  map-insert x [] = refl
  map-insert x (y ∷ ys) = ground (arith, map-insert x ys)

  map-sort : (xs : List A) → map index (sort by_index xs) ≡ sort ltb (map index xs)
  unfolding sort
  map-sort [] = refl
  map-sort (x ∷ xs) = map-insert x (sort by_index xs) ∙ ap (insert ltb (index x)) (map-sort xs)

insert_comm : (a b : ℕ) (l : List ℕ) → insert ltb a (insert ltb b l) ≡ insert ltb b (insert ltb a l)
unfolding insert
insert_comm a b [] = ground arith
insert_comm a b (c ∷ l) = ground (arith, insert_comm a b l)

sort-range : (i n : ℕ) → sort ltb (range i n) ≡ range i n
unfolding sort insert
sort-range i zero = refl
sort-range i (suc zero) = refl
sort-range i (suc (suc n)) = rw (sort-range (i + 1) (suc n)) (ground arith)

sort-permᴰ : {xs ys : List ℕ} → Permᴰ xs ys → sort ltb xs ≡ sort ltb ys
unfolding sort
sort-permᴰ nil = refl
sort-permᴰ (cons e p) = ap₂ (insert ltb) e (sort-permᴰ p)
sort-permᴰ (swap {a} {b} {l = l} e f) =
    insert_comm a b (sort ltb l) ∙ ap₂ (λ x y. insert ltb x (insert ltb y (sort ltb l))) f e
sort-permᴰ (trans p q) = sort-permᴰ p ∙ sort-permᴰ q

-- Sorting numbers forgets their order.
pub sort_of_perm : {xs ys : List ℕ} → Perm xs ys → sort ltb xs ≡ sort ltb ys
sort_of_perm p = ∥∥₁_elim p (List.is_set ℕ_set _ _) sort-permᴰ

module _ {ℓ} {A : Type ℓ} (index : A → ℕ) where
  -- The check accepts a list of chunks exactly when it is not empty and the indices are 0, 1, …, up
  -- to the number of chunks, each once, in any order.
  pub validate_sequence_iff :
      (xs : List A)
      → (validate_sequence index xs ≡ true)
        ↔ ((is_empty xs ≡ false) × Perm (map index xs) (range 0 (length xs)))
  unfolding validate_sequence
  validate_sequence_iff [] = (λ h. cc, λ h. cc)
  validate_sequence_iff (x ∷ xs) = (
    λ h. (
      refl,
      Perm.trans (Perm.symm (Perm.map index (sort-perm (by_index index) (x ∷ xs))))
          (rw (in_order h) (Perm.refl (range 0 (length (x ∷ xs))))),
    ),
    λ h. (check_indices_iff index 0 (sort (by_index index) (x ∷ xs))).1 (
        map-sort index (x ∷ xs)
        ∙ sort_of_perm h.1
        ∙ sort-range 0 (length (x ∷ xs))
        ∙ ap (range 0) (sym (length-sort (by_index index) (x ∷ xs)))),
  )
    where
      in_order :
          check_indices index 0 (sort (by_index index) (x ∷ xs)) ≡ true
          → map index (sort (by_index index) (x ∷ xs)) ≡ range 0 (length (x ∷ xs))
      in_order h =
          (check_indices_iff index 0 (sort (by_index index) (x ∷ xs))).0 h
          ∙ ap (range 0) (length-sort (by_index index) (x ∷ xs))

  -- Sorted, chunks with the indices 0, 1, … stand at their places.
  pub map-sort_of_perm :
      (xs : List A)
      → Perm (map index xs) (range 0 (length xs))
      → map index (sort (by_index index) xs) ≡ range 0 (length xs)
  map-sort_of_perm xs p = map-sort index xs ∙ sort_of_perm p ∙ sort-range 0 (length xs)

  -- A list in order is left as it is by the sort.
  pub sort_of_range :
      (i : ℕ) (xs : List A) → map index xs ≡ range i (length xs) → sort (by_index index) xs ≡ xs
  unfolding sort insert
  sort_of_range i [] h = refl
  sort_of_range i (x ∷ []) h = refl
  sort_of_range i (x ∷ y ∷ xs) h = rw (sort_of_range (i + 1) (y ∷ xs) (ground arith)) (ground arith)
