-- ===== src/Files/Invariant.antt =====
-- What holds of the file register after any sequence of calls that return.
use p2p_server_file_storage.Prelude.{
  ℕ, ◌+◌, ◌%◌, ◌<◌, ◌≡◌, refl, sym, subst, ap, ◌∙◌, Bool, true, false, List, [], ◌∷◌, some, arith,
  length, Option-cases, inl, inr, All,
}
use p2p_server_file_storage.Text.{Text, is_empty, u64_mod}
use p2p_server_file_storage.UnorderedMap.{
  UnorderedMap, find, assign, modify, values, Distinct, Distinct-assign, Distinct-modify, Entries,
  Entries-assign, Entries-modify, length-modify,
}
use p2p_server_file_storage.Sort.{length-sort, sort-All}
use p2p_server_file_storage.Sequence.{range, by_index, map-sort_of_perm, sort_of_range}
use p2p_server_file_storage.Files.{
  ChunkInfo, FileMetadata, MetadataManager, returns, initial, sanitize_filename, new_file,
  register_file, delete_file, get_file_metadata, get_file_chunks, file_exists, update_statistics,
  add_total_sizes,
}
use p2p_server_file_storage.Files.Names.{IsClean, sanitize_filename-IsClean}
use p2p_server_file_storage.Files.Accepting.{
  indices, total_chunk_size, total_chunk_size-sort, IsValidChunk, IsAcceptable, find-register_file,
  accepted,
}

-- A file as the register holds it: under its own clean name, with valid chunks at their places whose
-- sizes make up its size.
pub record IsStored (name : Text) (f : FileMetadata) : Type 0 where
  pub own_name : f.filename ≡ name
  pub clean : IsClean name
  pub named : is_empty name ≡ false
  pub sized : 0 < f.total_size
  pub valid : All IsValidChunk f.chunks
  pub in_order : indices f.chunks ≡ range 0 (length f.chunks)
  pub summed : total_chunk_size f.chunks % u64_mod ≡ f.total_size

pub record IsAccurate (m : MetadataManager) : Type 0 where
  pub distinct : Distinct m.files
  pub stored : Entries IsStored m.files
  pub counted : m.total_files ≡ length m.files
  pub weighed : m.total_bytes ≡ add_total_sizes (values m.files) 0

-- A call that changes the register and returns.
pub data Step (m : MetadataManager) : MetadataManager → Type 0 where
  register :
      (filename : Text) (size : ℕ) (cs : List ChunkInfo) (uploaded accessed : ℕ)
      {m' : MetadataManager} {result : Bool}
      → register_file filename size cs uploaded accessed m ≡ returns (m', result)
      → Step m m'
  delete :
      (filename : Text) {m' : MetadataManager} {result : Bool}
      → delete_file filename m ≡ returns (m', result)
      → Step m m'
  access : (filename : Text) (now : ℕ) → Step m (get_file_metadata filename now m).0

pub data Reach (m : MetadataManager) : MetadataManager → Type 0 where
  here : Reach m m
  next : {k l : MetadataManager} → Reach m k → Step k l → Reach m l

new_file-IsStored :
    (filename : Text) (size : ℕ) (cs : List ChunkInfo) (uploaded accessed : ℕ)
    → IsAcceptable filename size cs
    → IsStored
        (sanitize_filename filename)
        (new_file (sanitize_filename filename) size cs uploaded accessed)
new_file-IsStored filename size cs uploaded accessed a = record {
  own_name = refl;
  clean = (sanitize_filename-IsClean filename).0;
  named = a.named;
  sized = a.sized;
  valid = sort-All (by_index (λ (c : ChunkInfo). c.index)) IsValidChunk cs a.valid;
  in_order =
      map-sort_of_perm (λ (c : ChunkInfo). c.index) cs a.numbered
      ∙ ap (range 0) (sym (length-sort (by_index (λ (c : ChunkInfo). c.index)) cs));
  summed =
      ap (λ n. n % u64_mod) (total_chunk_size-sort (by_index (λ (c : ChunkInfo). c.index)) cs)
      ∙ a.summed;
}

register_file-IsAccurate :
    (filename : Text) (size : ℕ) (cs : List ChunkInfo) (uploaded accessed : ℕ) (m : MetadataManager)
    {m' : MetadataManager} (result : Bool)
    → register_file filename size cs uploaded accessed m ≡ returns (m', result)
    → IsAccurate m
    → IsAccurate m'
unfolding register_file update_statistics
register_file-IsAccurate filename size cs uploaded accessed m false h c =
    subst IsAccurate {x = m} (ground arith) c
register_file-IsAccurate filename size cs uploaded accessed m true h c =
    let name = sanitize_filename filename in
    let file = new_file name size cs uploaded accessed in
    let stored =
      new_file-IsStored filename size cs uploaded accessed
        (accepted filename size cs uploaded accessed m h) in
    let files = assign name file m.files in
    subst IsAccurate
      {x = record {
        files = files;
        total_files = length files;
        total_bytes = add_total_sizes (values files) 0;
      }}
      (ground arith)
      (record {
        distinct = Distinct-assign name file m.files c.distinct;
        stored = Entries-assign IsStored name file m.files stored c.stored;
        counted = refl;
        weighed = refl;
      })

module _ (name : Text) (now : ℕ) where
  abbrev touch : FileMetadata → FileMetadata
  touch f = record f { last_accessed = now }

  add_total_sizes-touch :
      (files : UnorderedMap FileMetadata) (total : ℕ)
      → add_total_sizes (values (modify name touch files)) total
        ≡ add_total_sizes (values files) total
  unfolding add_total_sizes values modify
  add_total_sizes-touch [] total = refl
  add_total_sizes-touch ((j, f) ∷ files) total =
      ground (arith, add_total_sizes-touch files ((total + f.total_size) % u64_mod))

get_file_metadata-IsAccurate :
    (filename : Text) (now : ℕ) (m : MetadataManager)
    → IsAccurate m
    → IsAccurate (get_file_metadata filename now m).0
unfolding get_file_metadata
get_file_metadata-IsAccurate filename now m c =
    let name = sanitize_filename filename in
    elim (Option-cases (find name m.files)) [
      | inl e ↦ rw (e, get_file_metadata) c
      | inr (f, e) ↦
          rw (e, get_file_metadata)
            (record {
              distinct = Distinct-modify name (touch name now) m.files c.distinct;
              stored =
                  Entries-modify IsStored name (touch name now) m.files
                    (λ k g h. record {
                      own_name = h.own_name;
                      clean = h.clean;
                      named = h.named;
                      sized = h.sized;
                      valid = h.valid;
                      in_order = h.in_order;
                      summed = h.summed;
                    })
                    c.stored;
              counted = c.counted ∙ sym (length-modify name (touch name now) m.files);
              weighed = c.weighed ∙ sym (add_total_sizes-touch name now m.files 0);
            })
    ]

-- Every call that returns keeps the register consistent: no name twice, each name clean and not
-- empty, each file with valid chunks numbered 0, 1, … at their places and of the right total size
-- modulo 2^64, and the statistics the true count and volume.
pub Step-IsAccurate : {m m' : MetadataManager} → Step m m' → IsAccurate m → IsAccurate m'
unfolding delete_file update_statistics
Step-IsAccurate (register filename size cs uploaded accessed {result = r} h) c =
    register_file-IsAccurate filename size cs uploaded accessed _ r h c
Step-IsAccurate {m} (delete filename h) c = subst IsAccurate {x = m} (ground arith) c
Step-IsAccurate (access filename now) c = get_file_metadata-IsAccurate filename now _ c

-- So it is consistent after any sequence of calls on the register that the constructor makes.
pub Reach-IsAccurate : {m : MetadataManager} → Reach initial m → IsAccurate m
unfolding add_total_sizes values
Reach-IsAccurate here = record { distinct = tt; stored = tt; counted = refl; weighed = refl }
Reach-IsAccurate (next r s) = Step-IsAccurate s (Reach-IsAccurate r)

-- An accepted upload whose chunks are listed in order is given back by `GetFileChunks` and
-- `GetFileMetadata` chunk by chunk, under any name that is sanitized to the same.
pub get_file_chunks-register_file :
    (filename other : Text) (size : ℕ) (cs : List ChunkInfo) (uploaded accessed now : ℕ)
    (m : MetadataManager) {m' : MetadataManager}
    → register_file filename size cs uploaded accessed m ≡ returns (m', true)
    → indices cs ≡ range 0 (length cs)
    → sanitize_filename other ≡ sanitize_filename filename
    → (file_exists other m' ≡ true)
      × (get_file_chunks other m' ≡ cs)
      × ((get_file_metadata other now m').1
          ≡ some (record {
            filename = sanitize_filename filename;
            total_size = size;
            chunks = cs;
            upload_time = uploaded;
            last_accessed = now;
          }))
unfolding file_exists get_file_chunks get_file_metadata
get_file_chunks-register_file filename other size cs uploaded accessed now m {m'} h in_order same =
    let name = sanitize_filename filename in
    let stored = new_file name size cs uploaded accessed in
    let order : stored ≡ record stored { chunks = cs } =
      ap (λ (l : List ChunkInfo). record stored { chunks = l })
        (sort_of_range (λ (c : ChunkInfo). c.index) 0 cs in_order) in
    let found : find (sanitize_filename other) m'.files ≡ some (record stored { chunks = cs }) =
      ap (λ n. find n m'.files) same
      ∙ find-register_file filename size cs uploaded accessed m h
      ∙ ap some order in
    (rw (found, file_exists), rw (found, get_file_chunks), rw (found, get_file_metadata))
