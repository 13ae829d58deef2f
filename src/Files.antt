-- ===== src/Files.antt =====
-- MetadataManager of metadata-server/src/metadata_manager.cpp: the register of stored files. A
-- method is a function of the manager and of the clock readings that it takes. `filesMutex` is not
-- recursive: what a call that locks it while its own thread holds it does is undefined (`relocks`).
pub mod Names
pub mod Accepting
pub mod Invariant
use p2p_server_file_storage.Prelude.{
  ℕ, ◌+◌, ◌%◌, Bool, true, false, not, ◌&&◌, ◌||◌, List, [], ◌∷◌, Option, none, some, ltb, ◌==◌,
  if◌then◌else◌, length,
}
use p2p_server_file_storage.Text.{Text, is_empty, str_eq, u64_mod}
use p2p_server_file_storage.UnorderedMap.{UnorderedMap, find, assign, erase, modify, keys, values}
use p2p_server_file_storage.Sort.{sort}
use p2p_server_file_storage.Sequence.{by_index, validate_sequence}

pub record ChunkInfo : Type 0 where
  pub chunk_id : Text
  pub index : ℕ
  pub size : ℕ
  pub node_ids : List Text

-- `ChunkInfo::IsValid`.
unfoldable pub is_valid_chunk : ChunkInfo → Bool
is_valid_chunk c =
    not (is_empty c.chunk_id)
    && length c.chunk_id == 64
    && not (is_empty c.node_ids)
    && ltb 0 c.size

pub record FileMetadata : Type 0 where
  pub filename : Text
  pub total_size : ℕ
  pub chunks : List ChunkInfo
  pub upload_time : ℕ
  pub last_accessed : ℕ

-- `FileMetadata::IsValid`.
unfoldable pub is_valid_file : FileMetadata → Bool
is_valid_file f = not (is_empty f.filename) && ltb 0 f.total_size && not (is_empty f.chunks)

find_chunk : Text → List ChunkInfo → Option ChunkInfo
find_chunk id [] = none
find_chunk id (c ∷ cs) = if str_eq c.chunk_id id then some c else find_chunk id cs

unfoldable pub has_chunk : FileMetadata → Text → Bool
unfolding find_chunk
has_chunk f id = elim (find_chunk id f.chunks) [ none ↦ false | some _ ↦ true ]

pub record MetadataManager : Type 0 where
  pub files : UnorderedMap FileMetadata
  pub total_files : ℕ
  pub total_bytes : ℕ

-- The constructor.
abbrev pub initial : MetadataManager
initial = record { files = []; total_files = 0; total_bytes = 0 }

-- What becomes of a call that takes the mutex: it returns, or it locks the mutex that its own thread
-- holds, which is undefined behaviour (it may wait for ever, or throw).
pub data Outcome {ℓ} (A : Type ℓ) : Type ℓ where
  returns : A → Outcome A
  relocks : Outcome A

-- The characters that `SanitizeFilename` removes.
unfoldable pub is_dangerous : ℕ → Bool
is_dangerous c =
    c == b'/'
    || c == b'\\'
    || c == b':'
    || c == b'*'
    || c == b'?'
    || c == b'"'
    || c == b'<'
    || c == b'>'
    || c == b'|'

-- A space or a tab.
unfoldable pub is_blank : ℕ → Bool
is_blank c = c == 32 || c == 9

remove_dangerous : Text → Text
remove_dangerous [] = []
remove_dangerous (c ∷ s) =
    let rest = remove_dangerous s in if is_dangerous c then rest else c ∷ rest

-- `s.erase(0, s.find_first_not_of(" \t"))`; all of a blank text goes.
drop_leading : Text → Text
drop_leading [] = []
drop_leading (c ∷ s) = let rest = drop_leading s in if is_blank c then rest else c ∷ s

-- `s.erase(s.find_last_not_of(" \t") + 1)`; all of a blank text goes.
drop_trailing : Text → Text
drop_trailing [] = []
drop_trailing (c ∷ s) =
    let rest = drop_trailing s in if is_empty rest && is_blank c then [] else c ∷ rest

unfoldable pub sanitize_filename : Text → Text
unfolding remove_dangerous drop_leading drop_trailing
sanitize_filename s = drop_trailing (drop_leading (remove_dangerous s))

unfoldable pub validate_chunk_sequence : List ChunkInfo → Bool
validate_chunk_sequence = validate_sequence (λ (c : ChunkInfo). c.index)

unfoldable pub all_valid : List ChunkInfo → Bool
all_valid [] = true
all_valid (c ∷ cs) = let rest = all_valid cs in if not (is_valid_chunk c) then false else rest

-- `calculatedSize += chunk.size`, in a uint64_t.
unfoldable pub add_sizes : List ChunkInfo → ℕ → ℕ
add_sizes [] total = total
add_sizes (c ∷ cs) total = add_sizes cs ((total + c.size) % u64_mod)

unfoldable pub validate_file_metadata : FileMetadata → Bool
validate_file_metadata f =
    if not (is_valid_file f)
    then false
    else if not (all_valid f.chunks)
    then false
    else if not (validate_chunk_sequence f.chunks)
    then false
    else if not (add_sizes f.chunks 0 == f.total_size)
    then false
    else true

unfoldable pub add_total_sizes : List FileMetadata → ℕ → ℕ
add_total_sizes [] total = total
add_total_sizes (f ∷ fs) total = add_total_sizes fs ((total + f.total_size) % u64_mod)

unfoldable pub get_file_count : MetadataManager → ℕ
get_file_count m = length m.files

unfoldable pub get_total_bytes : MetadataManager → ℕ
get_total_bytes m = add_total_sizes (values m.files) 0

-- The argument says whether the calling thread holds `filesMutex` already.
unfoldable pub update_statistics : Bool → MetadataManager → Outcome MetadataManager
update_statistics true m = relocks
update_statistics false m =
    returns
      (record m { total_files = length m.files; total_bytes = add_total_sizes (values m.files) 0 })

abbrev pub new_file : Text → ℕ → List ChunkInfo → ℕ → ℕ → FileMetadata
new_file name size chunks uploaded accessed = record {
  filename = name;
  total_size = size;
  chunks = sort (by_index (λ (c : ChunkInfo). c.index)) chunks;
  upload_time = uploaded;
  last_accessed = accessed;
}

-- The lock on the map is released before the statistics are brought up to date.
unfoldable pub register_file :
    Text → ℕ → List ChunkInfo → ℕ → ℕ → MetadataManager → Outcome (MetadataManager × Bool)
register_file filename size chunks uploaded accessed m =
    let name = sanitize_filename filename in
    let file = new_file name size chunks uploaded accessed in
    if is_empty name
    then returns (m, false)
    else if not (validate_file_metadata file)
    then returns (m, false)
    else elim (update_statistics false (record m { files = assign name file m.files })) [
      | returns m' ↦ returns (m', true)
      | relocks ↦ relocks
    ]

-- `UpdateStatistics` is called under the lock.
unfoldable pub delete_file : Text → MetadataManager → Outcome (MetadataManager × Bool)
delete_file filename m =
    let name = sanitize_filename filename in
    elim (find name m.files) [
      | none ↦ returns (m, false)
      | some _ ↦ elim (update_statistics true (record m { files = erase name m.files })) [
        | returns m' ↦ returns (m', true)
        | relocks ↦ relocks
      ]
    ]

-- The reference that `GetFileMetadata` hands out is to the record with the new access time.
unfoldable pub get_file_metadata :
    Text → ℕ → MetadataManager → MetadataManager × Option FileMetadata
get_file_metadata filename now m =
    let name = sanitize_filename filename in
    elim (find name m.files) [
      | none ↦ (m, none)
      | some f ↦ (
        record m { files = modify name (λ f. record f { last_accessed = now }) m.files },
        some (record f { last_accessed = now }),
      )
    ]

unfoldable pub file_exists : Text → MetadataManager → Bool
file_exists filename m = elim (find (sanitize_filename filename) m.files) [
  | none ↦ false
  | some _ ↦ true
]

unfoldable pub list_files : MetadataManager → List Text
list_files m = keys m.files

unfoldable pub get_all_files : MetadataManager → List FileMetadata
get_all_files m = values m.files

unfoldable pub get_file_chunks : Text → MetadataManager → List ChunkInfo
get_file_chunks filename m = elim (find (sanitize_filename filename) m.files) [
  | none ↦ []
  | some f ↦ f.chunks
]

unfoldable pub get_chunk_info : Text → Text → MetadataManager → Option ChunkInfo
unfolding find_chunk
get_chunk_info filename id m = elim (find (sanitize_filename filename) m.files) [
  | none ↦ none
  | some f ↦ find_chunk id f.chunks
]
