-- ===== src/Files/Accepting.antt =====
-- Which uploads `RegisterFile` accepts, and what it does with them.
use mathlib.Core.List.Perm
use p2p_server_file_storage.Prelude.{
  ℕ, ◌+◌, ◌%◌, ◌<◌, ◌≡◌, refl, sym, subst, ap, ◌∙◌, ◌↔◌, Bool, true, false, List, [], ◌∷◌, some,
  arith, length, map, if◌then◌else◌, Bool-cases, inl, inr, Perm, All,
}
use p2p_server_file_storage.Text.{Text, is_empty, u64_mod, str_eq, str_eq_refl}
use p2p_server_file_storage.UnorderedMap.{find, assign, find-assign}
use p2p_server_file_storage.Sort.{sort, insert, length-sort, sort-perm, sort-All, sort-All_inv}
use p2p_server_file_storage.Sequence.{range, by_index, validate_sequence_iff}
use p2p_server_file_storage.Files.{
  ChunkInfo, FileMetadata, MetadataManager, returns, is_valid_chunk, is_valid_file,
  sanitize_filename, validate_chunk_sequence, all_valid, add_sizes, validate_file_metadata,
  new_file, register_file, update_statistics, get_file_count, get_total_bytes,
}

abbrev pub indices : List ChunkInfo → List ℕ
indices = map (λ c. c.index)

abbrev pub total_chunk_size : List ChunkInfo → ℕ
total_chunk_size [] = 0
total_chunk_size (c ∷ cs) = c.size + total_chunk_size cs

pub record IsValidChunk (c : ChunkInfo) : Type 0 where
  pub hashed : length c.chunk_id ≡ 64
  pub stored : is_empty c.node_ids ≡ false
  pub sized : 0 < c.size

-- An upload that can be registered.
pub record IsAcceptable (filename : Text) (size : ℕ) (chunks : List ChunkInfo) : Type 0 where
  pub named : is_empty (sanitize_filename filename) ≡ false
  pub sized : 0 < size
  pub nonempty : is_empty chunks ≡ false
  pub valid : All IsValidChunk chunks
  pub numbered : Perm (indices chunks) (range 0 (length chunks))
  pub summed : total_chunk_size chunks % u64_mod ≡ size

pub is_valid_chunk_iff : (c : ChunkInfo) → (is_valid_chunk c ≡ true) ↔ IsValidChunk c
unfolding is_valid_chunk
is_valid_chunk_iff c = (λ h. ground arith, λ h. nonempty c.chunk_id c (refl) h)
  where
    nonempty :
        (id : Text) (d : ChunkInfo) → d.chunk_id ≡ id → IsValidChunk d → is_valid_chunk d ≡ true
    nonempty [] d e h = ground arith
    nonempty (x ∷ id) d e h = ground arith

all_valid_iff : (cs : List ChunkInfo) → (all_valid cs ≡ true) ↔ All IsValidChunk cs
unfolding all_valid
all_valid_iff [] = (λ _. tt, λ _. refl)
all_valid_iff (c ∷ cs) = (
  λ h. ((is_valid_chunk_iff c).0 (ground arith), (all_valid_iff cs).0 (ground arith)),
  λ h. rw ((is_valid_chunk_iff c).1 h.0, all_valid) ((all_valid_iff cs).1 h.1),
)

add_sizes-total :
    (cs : List ChunkInfo) (total : ℕ)
    → total < u64_mod
    → add_sizes cs total ≡ (total + total_chunk_size cs) % u64_mod
unfolding add_sizes
add_sizes-total [] total h = omega arith
add_sizes-total (c ∷ cs) total h =
    omega (arith, add_sizes-total cs ((total + c.size) % u64_mod) (omega arith))

module _ (before : ChunkInfo → ChunkInfo → Bool) where
  total-insert :
      (c : ChunkInfo) (cs : List ChunkInfo)
      → total_chunk_size (insert before c cs) ≡ c.size + total_chunk_size cs
  unfolding insert
  total-insert c [] = refl
  total-insert c (d ∷ cs) = ground (arith, total-insert c cs)

  pub total_chunk_size-sort :
      (cs : List ChunkInfo) → total_chunk_size (sort before cs) ≡ total_chunk_size cs
  unfolding sort
  total_chunk_size-sort [] = refl
  total_chunk_size-sort (c ∷ cs) =
      omega (arith, total-insert c (sort before cs), total_chunk_size-sort cs)

is_empty-length {ℓ} :
    {A : Type ℓ} (xs ys : List A) → length xs ≡ length ys → is_empty xs ≡ is_empty ys
is_empty-length [] [] h = refl
is_empty-length [] (y ∷ ys) h = absurd (omega arith)
is_empty-length (x ∷ xs) [] h = absurd (omega arith)
is_empty-length (x ∷ xs) (y ∷ ys) h = refl

validate_file_metadata_parts :
    (f : FileMetadata)
    → (validate_file_metadata f ≡ true) ↔ (
        (is_valid_file f ≡ true)
        × (all_valid f.chunks ≡ true)
        × (validate_chunk_sequence f.chunks ≡ true)
        × (add_sizes f.chunks 0 ≡ f.total_size))
unfolding validate_file_metadata
validate_file_metadata_parts f =
    (λ h. (ground arith, ground arith, ground arith, ground arith), λ h. ground arith)

module _ (cs : List ChunkInfo) where
  abbrev sorted : List ChunkInfo
  sorted = sort (by_index (λ (c : ChunkInfo). c.index)) cs

  pub sorted-perm : Perm (indices sorted) (indices cs)
  sorted-perm =
      Perm.map (λ (c : ChunkInfo). c.index) (sort-perm (by_index (λ (c : ChunkInfo). c.index)) cs)

  sorted-length : length sorted ≡ length cs
  sorted-length = length-sort (by_index (λ (c : ChunkInfo). c.index)) cs

  sorted-sequence :
      (validate_chunk_sequence sorted ≡ true)
      ↔ ((is_empty cs ≡ false) × Perm (indices cs) (range 0 (length cs)))
  unfolding validate_chunk_sequence
  sorted-sequence = (
    λ h.
        let (nonempty, numbered) =
          (validate_sequence_iff (λ (c : ChunkInfo). c.index) sorted).0 h in
        (
          sym (is_empty-length sorted cs sorted-length) ∙ nonempty,
          Perm.trans (Perm.symm sorted-perm)
              (subst (λ n. Perm (indices sorted) (range 0 n)) sorted-length numbered),
        ),
    λ h. (validate_sequence_iff (λ (c : ChunkInfo). c.index) sorted).1 (
      is_empty-length sorted cs sorted-length ∙ h.0,
      subst (λ n. Perm (indices sorted) (range 0 n)) (sym sorted-length)
          (Perm.trans sorted-perm h.1),
    ),
  )

  sorted-valid : (all_valid sorted ≡ true) ↔ All IsValidChunk cs
  sorted-valid = (
    λ h.
        sort-All_inv (by_index (λ (c : ChunkInfo). c.index)) IsValidChunk cs
          ((all_valid_iff sorted).0 h),
    λ h.
        (all_valid_iff sorted).1
          (sort-All (by_index (λ (c : ChunkInfo). c.index)) IsValidChunk cs h),
  )

  sorted-sum : add_sizes sorted 0 ≡ total_chunk_size cs % u64_mod
  sorted-sum = omega (
    arith,
    add_sizes-total sorted 0 (omega arith),
    total_chunk_size-sort (by_index (λ (c : ChunkInfo). c.index)) cs,
  )

validate_new_file_iff :
    (filename : Text) (size : ℕ) (cs : List ChunkInfo) (uploaded accessed : ℕ)
    → ((is_empty (sanitize_filename filename) ≡ false)
        × (validate_file_metadata (new_file (sanitize_filename filename) size cs uploaded accessed)
            ≡ true))
      ↔ IsAcceptable filename size cs
unfolding is_valid_file
validate_new_file_iff filename size cs uploaded accessed = (
  λ h.
      let f = new_file (sanitize_filename filename) size cs uploaded accessed in
      let (file, chunks, sequence, sum) = (validate_file_metadata_parts f).0 h.1 in
      let (nonempty, numbered) = (sorted-sequence cs).0 sequence in
      record {
        named = h.0;
        sized = ground arith;
        nonempty = nonempty;
        valid = (sorted-valid cs).0 chunks;
        numbered = numbered;
        summed = sym (sorted-sum cs) ∙ sum;
      },
  λ a. (
    a.named,
    (validate_file_metadata_parts
          (new_file (sanitize_filename filename) size cs uploaded accessed)).1
        (
          ground (
            arith,
            is_empty-length (sorted cs) cs (sorted-length cs),
            a.named,
            a.sized,
            a.nonempty,
          ),
          (sorted-valid cs).1 a.valid,
          (sorted-sequence cs).1 (a.nonempty, a.numbered),
          sorted-sum cs ∙ a.summed,
        ),
  ),
)

-- `RegisterFile` accepts an upload exactly when its name is not empty once sanitized, its size is
-- positive and the sum of its chunks modulo 2^64, it has a chunk, each chunk has an id of 64
-- characters, a node and a positive size, and the chunks are numbered 0, 1, … in some order.
-- Accepted, the file is found under the sanitized name with its chunks in order, every other name
-- stands for what it stood for, and the statistics are the true count and volume; a refused one
-- leaves the register as it was.
pub register_file_decides :
    (filename : Text) (size : ℕ) (cs : List ChunkInfo) (uploaded accessed : ℕ) (m : MetadataManager)
    → let name = sanitize_filename filename in
      let file = new_file name size cs uploaded accessed in
      (IsAcceptable filename size cs
        → (m' : MetadataManager) × (register_file filename size cs uploaded accessed m
            ≡ returns (m', true))
          × ((j : Text) → find j m'.files ≡ (if str_eq name j then some file else find j m.files))
          × (m'.total_files ≡ get_file_count m')
          × (m'.total_bytes ≡ get_total_bytes m'))
      × (¬ IsAcceptable filename size cs
          → register_file filename size cs uploaded accessed m ≡ returns (m, false))
unfolding register_file update_statistics get_file_count get_total_bytes
register_file_decides filename size cs uploaded accessed m =
    let name = sanitize_filename filename in
    let file = new_file name size cs uploaded accessed in
    (
      λ a.
          let (named, good) = (validate_new_file_iff filename size cs uploaded accessed).1 a in
          (
            record {
              files = assign name file m.files;
              total_files = length (assign name file m.files);
              total_bytes = get_total_bytes (record m { files = assign name file m.files });
            },
            rw (named, good, register_file),
            λ j. find-assign name j file m.files,
            refl,
            refl,
          ),
      λ refused. elim (Bool-cases (is_empty name)) [
        | inl e ↦ rw (e, register_file)
        | inr named ↦ elim (Bool-cases (validate_file_metadata file)) [
          | inl good ↦
              absurd (
                refused
                  ((validate_new_file_iff filename size cs uploaded accessed).0 (named, good)))
          | inr bad ↦ rw (named, bad, register_file)
        ]
      ],
    )

-- Inversion: what a call that returns true was given.
pub accepted :
    (filename : Text) (size : ℕ) (cs : List ChunkInfo) (uploaded accessed : ℕ) (m : MetadataManager)
    {m' : MetadataManager}
    → register_file filename size cs uploaded accessed m ≡ returns (m', true)
    → IsAcceptable filename size cs
unfolding register_file
accepted filename size cs uploaded accessed m h =
    (validate_new_file_iff filename size cs uploaded accessed).0 (ground arith, ground arith)

pub find-register_file :
    (filename : Text) (size : ℕ) (cs : List ChunkInfo) (uploaded accessed : ℕ) (m : MetadataManager)
    {m' : MetadataManager}
    → register_file filename size cs uploaded accessed m ≡ returns (m', true)
    → find (sanitize_filename filename) m'.files
      ≡ some (new_file (sanitize_filename filename) size cs uploaded accessed)
unfolding register_file update_statistics
find-register_file filename size cs uploaded accessed m {m'} h =
    let name = sanitize_filename filename in
    let file = new_file name size cs uploaded accessed in
    let e : m'.files ≡ assign name file m.files = ground arith in
    ap (find name) e ∙ find-assign name name file m.files ∙ rw (str_eq_refl name)
