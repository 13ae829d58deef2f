-- ===== src/Client/DownloadManager/Returned.antt =====
-- A download gives back the file that was uploaded.
use mathlib.Core.HLevel.{⊥_prop}
use mathlib.Core.List.{Memᴰ}
use mathlib.Core.Logic.{∥∥₁_elim}
use p2p_server_file_storage.Prelude.{
  ℕ, ◌≡◌, inl, inr, refl, subst, ap, ◌∙◌, Bool, true, false, List, [], ◌∷◌, Option, some, length,
  All, All-mono, Mem,
}
use p2p_server_file_storage.Text.{Text, is_empty}
use p2p_server_file_storage.Client.ChunkProcessor.{Chunk, split_file, chunk_size}
use p2p_server_file_storage.Client.ChunkProcessor.RoundTrip.{
  joined-nonempty, IsPiece, assemble_file-split_file, split_file_lem,
}
use p2p_server_file_storage.Client.MetadataClient.{Cache, StorageNodeInfo, RemoteChunk, RemoteFile}
use p2p_server_file_storage.Client.DownloadManager.{
  try_download_from_nodes, download_chunks, download_file,
}
use p2p_server_file_storage.Client.DownloadManager.Verified.{
  IsServedBy, downloaded, try_download_from_nodes_lem,
}

module _ (sha256 : List ℕ → Text) (get_chunk : StorageNodeInfo → Text → Option (List ℕ)) where
  -- What a chunk of an uploaded file needs to come back: the metadata has its id and index; one of
  -- the nodes listed for it is in the cache and answers with its bytes; and no listed node answers
  -- with other bytes that have the same hash up to case.
  pub record IsHeld (cache : Cache) (c : Chunk) (rc : RemoteChunk) : Type 0 where
    pub same_id : rc.chunk_id ≡ c.chunk_id
    pub same_index : rc.index ≡ c.index
    pub holder : Text
    pub listed : Mem holder rc.node_ids
    pub served : IsServedBy sha256 get_chunk rc.chunk_id cache holder c.bytes
    pub unforged :
        (node_id : Text) (bytes : List ℕ)
        → Mem node_id rc.node_ids
        → IsServedBy sha256 get_chunk rc.chunk_id cache node_id bytes
        → bytes ≡ c.bytes

  abbrev pub AllHeld : Cache → List Chunk → List RemoteChunk → Type 0
  AllHeld cache [] [] = Unit
  AllHeld cache (c ∷ cs) (rc ∷ rcs) = IsHeld cache c rc × AllHeld cache cs rcs
  AllHeld cache cs rcs = ⊥

  All_at :
      (P : Text → Type 0) (t : Text) (ts : List Text) → All (λ t. ¬ P t) ts → Mem t ts → P t → ⊥
  All_at P t ts h at p = ∥∥₁_elim at ⊥_prop (go ts h)
    where
      go : (ts : List Text) → All (λ t. ¬ P t) ts → Memᴰ t ts → ⊥
      go [] h m = elim m [ ]
      go (x ∷ xs) (n, h) (Memᴰ.head e) = n (subst P e p)
      go (x ∷ xs) (n, h) (Memᴰ.tail m) = go xs h m

  try_download_from_nodes_held :
      (hashes : (d : List ℕ) → length (sha256 d) ≡ 64) (n : ℕ) (cache : Cache) (c : Chunk)
      (rc : RemoteChunk)
      → IsPiece sha256 hashes n c
      → IsHeld cache c rc
      → try_download_from_nodes sha256 get_chunk rc.chunk_id rc.node_ids cache rc.index ≡ some c
  try_download_from_nodes_held hashes n cache c rc piece held =
      elim (try_download_from_nodes_lem sha256 get_chunk rc.chunk_id rc.node_ids cache rc.index) [
        | inr (unserved, r) ↦ absurd (
            All_at
              (λ node_id.
                (bytes : List ℕ) × IsServedBy sha256 get_chunk rc.chunk_id cache node_id bytes)
              held.holder rc.node_ids (All-mono (λ node_id no p. no p.0 p.1) rc.node_ids unserved)
              held.listed (c.bytes, held.served))
        | inl (node_id, bytes, at, served, r) ↦
            let same : bytes ≡ c.bytes = held.unforged node_id bytes at served in
            r ∙ ap some (whole same)
      ]
    where
      whole :
          {bytes : List ℕ}
          → bytes ≡ c.bytes
          → downloaded sha256 get_chunk rc.chunk_id rc.index bytes ≡ c
      whole e = rw (e, held.same_id, held.same_index, piece.sized) refl

  download_chunks_held :
      (hashes : (d : List ℕ) → length (sha256 d) ≡ 64) (n : ℕ) (cache : Cache) (cs : List Chunk)
      (rcs : List RemoteChunk)
      → All (IsPiece sha256 hashes n) cs
      → AllHeld cache cs rcs
      → download_chunks sha256 get_chunk rcs cache ≡ some cs
  unfolding download_chunks
  download_chunks_held hashes n cache [] [] pieces held = refl
  download_chunks_held hashes n cache [] (rc ∷ rcs) pieces held = elim held [ ]
  download_chunks_held hashes n cache (c ∷ cs) [] pieces held = elim held [ ]
  download_chunks_held hashes n cache (c ∷ cs) (rc ∷ rcs) (piece, pieces) (h, held) =
      rw
        (
          try_download_from_nodes_held hashes n cache c rc piece h,
          download_chunks_held hashes n cache cs rcs pieces held,
          download_chunks,
        )
        refl

-- `DownloadFile` gives back the file that `SplitFile` cut: where hashing gives 64 characters, the
-- content is not empty, the metadata lists a chunk for every piece, in order, with its id and index,
-- each piece is held by a known node listed for it and no listed node sends other bytes with its
-- hash, the output can be created and no write fails, the result is true and the file the content.
pub download_file-split_file :
    (sha256 : List ℕ → Text) (get_chunk : StorageNodeInfo → Text → Option (List ℕ)) (f : RemoteFile)
    (cache : Cache) (good : ℕ → Bool) (content : List ℕ)
    → ((d : List ℕ) → length (sha256 d) ≡ 64)
    → ((i : ℕ) → good i ≡ true)
    → is_empty content ≡ false
    → is_empty f.filename ≡ false
    → AllHeld sha256 get_chunk cache (split_file sha256 (some content)) f.chunks
    → download_file sha256 get_chunk f cache true good ≡ (true, content)
unfolding download_file
download_file-split_file sha256 get_chunk f cache good content hashes writes nonempty named held =
    let cs = split_file sha256 (some content) in
    let (spelled, numbered, pieces, count) = split_file_lem sha256 hashes content in
    let some_chunks : is_empty f.chunks ≡ false =
      kept cs f.chunks held (joined-nonempty cs content spelled nonempty) in
    rw (
      named,
      some_chunks,
      download_chunks_held sha256 get_chunk hashes chunk_size cache cs f.chunks pieces held,
      assemble_file-split_file sha256 good content hashes writes nonempty,
    )
  where
    kept :
        (cs : List Chunk) (rcs : List RemoteChunk)
        → AllHeld sha256 get_chunk cache cs rcs
        → is_empty cs ≡ false
        → is_empty rcs ≡ false
    kept [] [] h e = cc
    kept [] (rc ∷ rcs) h e = elim h [ ]
    kept (c ∷ cs) [] h e = elim h [ ]
    kept (c ∷ cs) (rc ∷ rcs) h e = refl
