-- ===== src/Client/DownloadManager/Verified.antt =====
-- What a download returns: data whose hash is its id.
use p2p_server_file_storage.Prelude.{
  ℕ, ◌≡◌, ◌⊎◌, inl, inr, refl, sym, ap, Bool, true, List, [], ◌∷◌, map, Option, none, some, arith,
  length, All, Mem, mem-cons_of_mem, mem-cons_self, Perm, Bool-cases, Option-cases,
}
use p2p_server_file_storage.Text.{Text, str_eq, str_eq_iff}
use p2p_server_file_storage.Sort.{sort}
use p2p_server_file_storage.Sequence.{range, by_index}
use p2p_server_file_storage.Client.ChunkProcessor.{Chunk, lower, assemble_file}
use p2p_server_file_storage.Client.ChunkProcessor.RoundTrip.{joined, IsGenuine, assemble_file_sound}
use p2p_server_file_storage.Client.MetadataClient.{
  Cache, StorageNodeInfo, RemoteChunk, RemoteFile, get_node_info,
}
use p2p_server_file_storage.Client.DownloadManager.{
  checked, fetch, try_download_from_nodes, download_chunks, download_file,
}

module _ (sha256 : List ℕ → Text) (get_chunk : StorageNodeInfo → Text → Option (List ℕ)) where
  -- The node is in the cache, answers, and its answer has the id for its hash, up to case.
  pub record IsServedBy (id : Text) (cache : Cache) (node_id : Text) (bytes : List ℕ) : Type 0 where
    pub node : StorageNodeInfo
    pub known : get_node_info node_id cache ≡ some node
    pub answered : get_chunk node id ≡ some bytes
    pub hashed : lower (sha256 bytes) ≡ lower id

  checked-some :
      (id : Text) (answer : Option (List ℕ)) (bytes : List ℕ)
      → checked sha256 get_chunk id answer ≡ some bytes
      → (answer ≡ some bytes) × (lower (sha256 bytes) ≡ lower id)
  unfolding checked
  checked-some id none bytes e = ground arith
  checked-some id (some answer) bytes e =
      elim (Bool-cases (str_eq (lower (sha256 answer)) (lower id))) [
        | inl h ↦
            let same : answer ≡ bytes = ground arith in
            (ap some same, rw (sym same) ((str_eq_iff (lower (sha256 answer)) (lower id)).0 h))
        | inr h ↦ ground arith
      ]

  fetch-some :
      (id node_id : Text) (cache : Cache) (bytes : List ℕ)
      → fetch sha256 get_chunk id (get_node_info node_id cache) ≡ some bytes
      → IsServedBy id cache node_id bytes
  unfolding fetch
  fetch-some id node_id cache bytes = go (get_node_info node_id cache) refl
    where
      go :
          (found : Option StorageNodeInfo)
          → get_node_info node_id cache ≡ found
          → fetch sha256 get_chunk id found ≡ some bytes
          → IsServedBy id cache node_id bytes
      go none known e = ground arith
      go (some node) known e =
          let (answered, hashed) = checked-some id (get_chunk node id) bytes e in
          record { node = node; known = known; answered = answered; hashed = hashed }

  IsServedBy-fetch :
      (id node_id : Text) (cache : Cache) (bytes : List ℕ)
      → IsServedBy id cache node_id bytes
      → fetch sha256 get_chunk id (get_node_info node_id cache) ≡ some bytes
  unfolding fetch checked
  IsServedBy-fetch id node_id cache bytes h =
      let same = (str_eq_iff (lower (sha256 bytes)) (lower id)).1 h.hashed in
      rw (h.known, fetch) (rw (h.answered, checked) (rw (same) refl))

  -- The chunk with this id, index and data.
  abbrev pub downloaded : Text → ℕ → List ℕ → Chunk
  downloaded id index bytes = record {
    chunk_id = id;
    index = index;
    size = length bytes;
    bytes = bytes;
  }

  abbrev pub Served : Text → List Text → Cache → ℕ → Type 0
  Served id node_ids cache index =
      (node_id : Text) × (bytes : List ℕ) × Mem node_id node_ids
      × IsServedBy id cache node_id bytes
      × (try_download_from_nodes sha256 get_chunk id node_ids cache index
          ≡ some (downloaded id index bytes))

  abbrev pub Unserved : Text → List Text → Cache → ℕ → Type 0
  Unserved id node_ids cache index =
      All (λ node_id. (bytes : List ℕ) → ¬ IsServedBy id cache node_id bytes) node_ids
      × (try_download_from_nodes sha256 get_chunk id node_ids cache index ≡ none)

  -- `TryDownloadFromNodes` either returns the answer of one of the listed nodes, which is in the
  -- cache and sent data with the id for its hash up to case, as the chunk with this id, index and
  -- size; or it fails, and no listed node is known and sends such data.
  pub try_download_from_nodes_lem :
      (id : Text) (node_ids : List Text) (cache : Cache) (index : ℕ)
      → Served id node_ids cache index ⊎ Unserved id node_ids cache index
  unfolding try_download_from_nodes
  try_download_from_nodes_lem id [] cache index = inr (tt, refl)
  try_download_from_nodes_lem id (node_id ∷ node_ids) cache index =
      elim (Option-cases (fetch sha256 get_chunk id (get_node_info node_id cache))) [
        | inr (bytes, e) ↦ inl (
          node_id,
          bytes,
          mem-cons_self,
          fetch-some id node_id cache bytes e,
          rw (e, try_download_from_nodes) refl,
        )
        | inl e ↦ elim (try_download_from_nodes_lem id node_ids cache index) [
          | inl (other, bytes, at, served, r) ↦ inl (
            other,
            bytes,
            (mem-cons_of_mem node_id at),
            served,
            rw (e, try_download_from_nodes) r,
          )
          | inr (unserved, r) ↦ inr (
            (
              λ bytes served. none-some e (IsServedBy-fetch id node_id cache bytes served),
              unserved,
            ),
            rw (e, try_download_from_nodes) r,
          )
        ]
      ]
    where
      none-some : {o : Option (List ℕ)} {b : List ℕ} → o ≡ none → o ≡ some b → ⊥
      none-some e f = ground arith

  download_chunks-some :
      (rcs : List RemoteChunk) (cache : Cache) (cs : List Chunk)
      → download_chunks sha256 get_chunk rcs cache ≡ some cs
      → (map (λ (c : Chunk). c.index) cs ≡ map (λ (rc : RemoteChunk). rc.index) rcs)
        × (map (λ (c : Chunk). c.chunk_id) cs ≡ map (λ (rc : RemoteChunk). rc.chunk_id) rcs)
  unfolding download_chunks
  download_chunks-some [] cache [] e = (refl, refl)
  download_chunks-some [] cache (c ∷ cs) e = ground arith
  download_chunks-some (rc ∷ rcs) cache cs e =
      elim (try_download_from_nodes_lem rc.chunk_id rc.node_ids cache rc.index) [
        | inr (unserved, r) ↦ ground (arith, r)
        | inl (node_id, bytes, at, served, r) ↦
            elim (Option-cases (download_chunks sha256 get_chunk rcs cache)) [
              | inl rest ↦ ground (arith, r, rest)
              | inr (more, rest) ↦
                  let whole : downloaded rc.chunk_id rc.index bytes ∷ more ≡ cs =
                    ground (arith, r, rest) in
                  let (indices, ids) = download_chunks-some rcs cache more rest in
                  rw (sym whole) (ap (◌∷◌ rc.index) indices, ap (◌∷◌ rc.chunk_id) ids)
            ]
      ]

  -- Whatever the nodes answer: if `DownloadFile` returns true, it holds chunks with the ids and
  -- indices of the metadata, the indices are 0, 1, … in some order, each chunk is well formed and
  -- has its id for its hash up to case, and the file is their bytes in the order of the indices.
  pub download_file_sound :
      (f : RemoteFile) (cache : Cache) (opens : Bool) (good : ℕ → Bool)
      → (download_file sha256 get_chunk f cache opens good).0 ≡ true
      → (cs : List Chunk) × (map (λ (c : Chunk). c.index) cs
          ≡ map (λ (rc : RemoteChunk). rc.index) f.chunks)
        × (map (λ (c : Chunk). c.chunk_id) cs ≡ map (λ (rc : RemoteChunk). rc.chunk_id) f.chunks)
        × Perm (map (λ (c : Chunk). c.index) cs) (range 0 (length cs))
        × All (IsGenuine sha256) cs
        × ((download_file sha256 get_chunk f cache opens good).1
            ≡ joined (sort (by_index (λ (c : Chunk). c.index)) cs))
  unfolding download_file
  download_file_sound f cache opens good h =
      elim (Option-cases (download_chunks sha256 get_chunk f.chunks cache)) [
        | inl e ↦ ground (arith, e)
        | inr (cs, e) ↦
            let (indices, ids) = download_chunks-some f.chunks cache cs e in
            let assembled : (assemble_file sha256 opens good cs).0 ≡ true = ground (arith, e) in
            let (numbered, genuine, spelled) = assemble_file_sound sha256 opens good cs assembled in
            (cs, indices, ids, numbered, genuine, ground (arith, e, spelled))
      ]
