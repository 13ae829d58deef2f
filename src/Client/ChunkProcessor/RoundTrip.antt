-- ===== src/Client/ChunkProcessor/RoundTrip.antt =====
-- A file that is split is put together again.
use mathlib.Core.List.Perm
use p2p_server_file_storage.Prelude.{
  ℕ, zero, suc, ◌+◌, ◌-◌, ◌*◌, ◌/◌, ◌≤◌, ◌<◌, ◌≡◌, refl, ap, ◌∙◌, Bool, true, false, List, [], ◌∷◌,
  ◌++◌, append-nil, map, some, arith, length, length-take, length-drop, take, drop, take_all,
  take-append-drop, All, Bool-cases, inl, inr, ltb, Perm,
}
use p2p_server_file_storage.Text.{Text, is_empty, str_eq_iff, str_eq_refl}
use p2p_server_file_storage.Sort.{sort, sort-All_inv}
use p2p_server_file_storage.Sequence.{range, by_index, validate_sequence_iff, sort_of_range}
use p2p_server_file_storage.Client.ChunkProcessor.{
  Chunk, chunk_size, is_valid, lower, validate_chunk_sequence, split_loop, split_file,
  validate_chunk, all_valid, write_chunks, assemble_file,
}

-- The bytes of the chunks, one behind the other.
abbrev pub joined : List Chunk → List ℕ
joined [] = []
joined (c ∷ cs) = c.bytes ++ joined cs

module _ (sha256 : List ℕ → Text) (hashes : (d : List ℕ) → length (sha256 d) ≡ 64) where
  -- A chunk as `SplitFile` makes them for a buffer of `n` bytes.
  pub record IsPiece (n : ℕ) (c : Chunk) : Type 0 where
    pub sized : length c.bytes ≡ c.size
    pub filled : 0 < c.size
    pub within : c.size ≤ n
    pub hashed : c.chunk_id ≡ sha256 c.bytes

  hash-nonempty : (d : List ℕ) → is_empty (sha256 d) ≡ false
  hash-nonempty d = go (sha256 d) (hashes d)
    where
      go : (t : Text) → length t ≡ 64 → is_empty t ≡ false
      go [] e = absurd (omega arith)
      go (c ∷ t) e = refl

  abbrev Splits : ℕ → ℕ → List ℕ → List Chunk → Type 0
  Splits n index input cs =
      (joined cs ≡ input)
      × (map (λ (c : Chunk). c.index) cs ≡ range index (length cs))
      × All (IsPiece n) cs
      × (length input ≤ length cs * n)
      × (length cs * n < length input + n)

  split_loop_lem :
      (n fuel index : ℕ) (input : List ℕ)
      → 0 < n
      → length input < fuel
      → (cs : List Chunk) × (split_loop sha256 n fuel index input ≡ some cs)
        × Splits n index input cs
  unfolding split_loop
  split_loop_lem n zero index input pos h = elim h [ ]
  split_loop_lem (suc n) (suc fuel) index [] pos h =
      ([], refl, (refl, refl, tt, omega arith, omega arith))
  split_loop_lem zero (suc fuel) index input pos h = elim pos [ ]
  split_loop_lem (suc n) (suc fuel) index (x ∷ xs) pos h =
      let part : List ℕ = x ∷ take n xs in
      let len = length-take n xs in
      let id = hash-nonempty part in
      let piece : Chunk = record {
        chunk_id = sha256 part;
        index = index;
        size = length part;
        bytes = part;
      } in
      let good : IsPiece (suc n) piece = record {
        sized = refl;
        filled = omega arith;
        within = omega (arith, len);
        hashed = refl;
      } in
      elim (Bool-cases (ltb (length part) (suc n))) [
        | inl short ↦ (
          piece ∷ [],
          rw (id, short),
          (
            append-nil part ∙ ap (◌∷◌ x) (take_all n xs (ground (arith, len))),
            refl,
            (good, tt),
            ground (arith, len),
            ground arith,
          ),
        )
        | inr full ↦
            let (cs, e, (j, r, p, lo, hi)) =
              split_loop_lem (suc n) fuel (index + 1) (drop n xs) pos
                (omega (arith, length-drop n xs)) in
            (
              piece ∷ cs,
              rw (id, full) (rw e),
              (
                ap (◌∷◌ x) (ap (◌++◌ (take n xs)) j ∙ take-append-drop n xs),
                ap (◌∷◌ index) r,
                (good, p),
                omega (arith, length-drop n xs),
                ground (arith, len, length-drop n xs),
              ),
            )
      ]

  -- `SplitFile` of a file that can be opened, where hashing does not fail: the chunks spell the
  -- content in order and are numbered 0, 1, …; each holds at most 1048576 bytes and at least one,
  -- says its size and its hash; and there are as many as the size divided by 1048576, rounded up.
  pub split_file_lem :
      (content : List ℕ)
      → let cs = split_file sha256 (some content) in
        (joined cs ≡ content)
        × (map (λ (c : Chunk). c.index) cs ≡ range 0 (length cs))
        × All (IsPiece chunk_size) cs
        × (length cs ≡ (length content + chunk_size - 1) / chunk_size)
  unfolding split_file
  split_file_lem content =
      let (cs, e, (j, r, p, lo, hi)) =
        split_loop_lem chunk_size (suc (length content)) 0 content (omega arith) (omega arith) in
      rw (e, split_file) (j, r, p, omega (arith, lo, hi))

  all_valid-pieces : (n : ℕ) (cs : List Chunk) → All (IsPiece n) cs → all_valid sha256 cs ≡ true
  unfolding all_valid validate_chunk
  all_valid-pieces n [] h = refl
  all_valid-pieces n (c ∷ cs) (p, h) =
      let whole : is_valid c ≡ true =
        unfold is_valid in
        ground (
          arith,
          ap length p.hashed,
          hashes c.bytes,
          ap (λ (t : Text). is_empty t) p.hashed,
          hash-nonempty c.bytes,
          p.sized,
          p.filled,
        ) in
      rw (whole, hash-nonempty c.bytes, p.hashed, str_eq_refl (lower (sha256 c.bytes)), all_valid)
        (all_valid-pieces n cs h)

write_chunks-joined :
    (good : ℕ → Bool) (i : ℕ) (cs : List Chunk)
    → ((j : ℕ) → good j ≡ true)
    → write_chunks good i cs ≡ (true, joined cs)
unfolding write_chunks
write_chunks-joined good i [] h = refl
write_chunks-joined good i (c ∷ cs) h = rw (h i, write_chunks-joined good (i + 1) cs h)

write_chunks-true :
    (good : ℕ → Bool) (i : ℕ) (cs : List Chunk)
    → (write_chunks good i cs).0 ≡ true
    → (write_chunks good i cs).1 ≡ joined cs
unfolding write_chunks
write_chunks-true good i [] h = refl
write_chunks-true good i (c ∷ cs) h = ground (arith, write_chunks-true good (i + 1) cs)

validate_in_order :
    (cs : List Chunk)
    → is_empty cs ≡ false
    → map (λ (c : Chunk). c.index) cs ≡ range 0 (length cs)
    → validate_chunk_sequence cs ≡ true
unfolding validate_chunk_sequence
validate_in_order cs ne h =
    (validate_sequence_iff (λ (c : Chunk). c.index) cs).1
      (ne, rw h (Perm.refl (range 0 (length cs))))

pub joined-nonempty :
    (cs : List Chunk) (l : List ℕ) → joined cs ≡ l → is_empty l ≡ false → is_empty cs ≡ false
joined-nonempty [] [] e h = cc
joined-nonempty [] (x ∷ l) e h = cc
joined-nonempty (c ∷ cs) l e h = refl

-- Where hashing gives 64 characters, a file that is not empty, split into chunks and put together
-- again, is written as it was, if the output can be created and no write fails.
pub assemble_file-split_file :
    (sha256 : List ℕ → Text) (good : ℕ → Bool) (content : List ℕ)
    → ((d : List ℕ) → length (sha256 d) ≡ 64)
    → ((i : ℕ) → good i ≡ true)
    → is_empty content ≡ false
    → assemble_file sha256 true good (split_file sha256 (some content)) ≡ (true, content)
unfolding assemble_file
assemble_file-split_file sha256 good content hashes writes nonempty =
    let cs = split_file sha256 (some content) in
    let (spelled, numbered, pieces, _) = split_file_lem sha256 hashes content in
    let some_chunk : is_empty cs ≡ false = joined-nonempty cs content spelled nonempty in
    let sorted : sort (by_index (λ (c : Chunk). c.index)) cs ≡ cs =
      sort_of_range (λ (c : Chunk). c.index) 0 cs numbered in
    rw (
      some_chunk,
      validate_in_order cs some_chunk numbered,
      sorted,
      all_valid-pieces sha256 hashes chunk_size cs pieces,
      write_chunks-joined good 0 cs writes,
      spelled,
    )

-- A chunk whose hash is its id but for the case of the letters, and that is well formed.
pub record IsGenuine (sha256 : List ℕ → Text) (c : Chunk) : Type 0 where
  pub formed : is_valid c ≡ true
  pub hashed : lower (sha256 c.bytes) ≡ lower c.chunk_id

all_valid-IsGenuine :
    (sha256 : List ℕ → Text) (cs : List Chunk)
    → all_valid sha256 cs ≡ true
    → All (IsGenuine sha256) cs
unfolding all_valid validate_chunk
all_valid-IsGenuine sha256 [] h = tt
all_valid-IsGenuine sha256 (c ∷ cs) h = (
  record {
    formed = ground arith;
    hashed = (str_eq_iff (lower (sha256 c.bytes)) (lower c.chunk_id)).0 (ground arith);
  },
  all_valid-IsGenuine sha256 cs (ground arith),
)

-- Whatever chunks come back from the nodes: if `AssembleFile` returns true, they were numbered 0,
-- 1, … in some order, each was well formed with its id for its hash up to case, and the file holds
-- exactly their bytes in the order of their indices.
pub assemble_file_sound :
    (sha256 : List ℕ → Text) (opens : Bool) (good : ℕ → Bool) (cs : List Chunk)
    → (assemble_file sha256 opens good cs).0 ≡ true
    → Perm (map (λ (c : Chunk). c.index) cs) (range 0 (length cs))
      × All (IsGenuine sha256) cs
      × ((assemble_file sha256 opens good cs).1
          ≡ joined (sort (by_index (λ (c : Chunk). c.index)) cs))
unfolding assemble_file validate_chunk_sequence
assemble_file_sound sha256 opens good cs h =
    let sorted = sort (by_index (λ (c : Chunk). c.index)) cs in
    (
      ((validate_sequence_iff (λ (c : Chunk). c.index) cs).0 (ground arith)).1,
      sort-All_inv (by_index (λ (c : Chunk). c.index)) (IsGenuine sha256) cs
          (all_valid-IsGenuine sha256 sorted (ground arith)),
      ground (arith, write_chunks-true good 0 sorted),
    )
