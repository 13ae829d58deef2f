-- ===== src/Client/ChunkProcessor.antt =====
-- ChunkProcessor of client/src/core/chunk_processor.cpp. The SHA-256 of the platform's library is
-- the parameter `sha256`: the hexadecimal text of the hash of some data, empty if it fails. Files
-- are their bytes: what `ifstream` reads, and what `ofstream` is handed to write.
pub mod RoundTrip
use p2p_server_file_storage.Prelude.{
  ℕ, zero, suc, ◌+◌, ◌<◌, ◌≡◌, Bool, true, false, not, ◌&&◌, List, [], ◌∷◌, ◌++◌, map, Option, none,
  some, ltb, leb, ◌==◌, if◌then◌else◌, length, take, drop,
}
use p2p_server_file_storage.Text.{Text, is_empty, str_eq}
use p2p_server_file_storage.Sort.{sort}
use p2p_server_file_storage.Sequence.{by_index, validate_sequence}

pub record Chunk : Type 0 where
  pub chunk_id : Text
  pub index : ℕ
  pub size : ℕ
  pub bytes : List ℕ

abbrev pub chunk_size : ℕ
chunk_size = 1048576

-- `Chunk::IsValid`.
unfoldable pub is_valid : Chunk → Bool
is_valid c =
    not (is_empty c.chunk_id) && length c.chunk_id == 64 && ltb 0 c.size && length c.bytes == c.size

-- `std::tolower` in the C locale.
unfoldable pub to_lower : ℕ → ℕ
to_lower c = if leb b'A' c && leb c b'Z' then c + 32 else c

unfoldable pub lower : Text → Text
unfolding to_lower
lower = map to_lower

unfoldable pub validate_chunk_sequence : List Chunk → Bool
validate_chunk_sequence = validate_sequence (λ (c : Chunk). c.index)

module _ (sha256 : List ℕ → Text) where
  -- A round of the loop of `SplitFile` for a buffer of `n` bytes, on fuel: `none` in the place of
  -- the chunks is the error that makes `SplitFile` return none of them.
  unfoldable pub split_loop : ℕ → ℕ → ℕ → List ℕ → Option (List Chunk)
  split_loop n zero index input = some []
  split_loop n (suc fuel) index input =
      let part = take n input in
      let id = sha256 part in
      let chunk : Chunk = record {
        chunk_id = id;
        index = index;
        size = length part;
        bytes = part;
      } in
      let more = split_loop n fuel (index + 1) (drop n input) in
      if is_empty part
      then some []
      else if is_empty id
      then none
      else if ltb (length part) n
      then some (chunk ∷ [])
      else elim more [ none ↦ none | some chunks ↦ some (chunk ∷ chunks) ]

  -- `SplitFile`; `none` is a file that cannot be opened. A file of `l` bytes has at most `l` chunks,
  -- so the fuel is enough.
  unfoldable pub split_file : Option (List ℕ) → List Chunk
  split_file none = []
  split_file (some content) = elim (split_loop chunk_size (suc (length content)) 0 content) [
    | none ↦ []
    | some chunks ↦ chunks
  ]

  unfoldable pub validate_chunk : Chunk → Bool
  validate_chunk c =
      if not (is_valid c)
      then false
      else if is_empty (sha256 c.bytes)
      then false
      else str_eq (lower (sha256 c.bytes)) (lower c.chunk_id)

  unfoldable pub all_valid : List Chunk → Bool
  all_valid [] = true
  all_valid (c ∷ cs) = let rest = all_valid cs in if not (validate_chunk c) then false else rest

-- The loop that writes the chunks: `good i` is the state of the stream behind write number `i`. The
-- result of `AssembleFile`, and the bytes handed to the stream.
unfoldable pub write_chunks : (ℕ → Bool) → ℕ → List Chunk → Bool × List ℕ
write_chunks good i [] = (true, [])
write_chunks good i (c ∷ cs) =
    let (success, rest) = write_chunks good (i + 1) cs in
    if not (good i) then (false, c.bytes) else (success, c.bytes ++ rest)

-- `AssembleFile`, where `opens` says whether the output file can be created; no write is made
-- before every chunk has been checked.
unfoldable pub assemble_file : (List ℕ → Text) → Bool → (ℕ → Bool) → List Chunk → Bool × List ℕ
assemble_file sha256 opens good chunks =
    let sorted = sort (by_index (λ (c : Chunk). c.index)) chunks in
    if is_empty chunks
    then (false, [])
    else if not (validate_chunk_sequence chunks)
    then (false, [])
    else if not (all_valid sha256 sorted)
    then (false, [])
    else if not opens
    then (false, [])
    else write_chunks good 0 sorted
