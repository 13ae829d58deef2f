-- ===== src/Client/DownloadManager/Transferred.antt =====
-- `DownloadFile` over the exchanges of NodeClient.
use p2p_server_file_storage.Prelude.{
  ℕ, ◌≡◌, sym, ap, ◌∙◌, Bool, true, false, List, [], ◌∷◌, Option, none, some, length, All, Mem,
}
use p2p_server_file_storage.Text.{Text, is_empty}
use p2p_server_file_storage.Client.ChunkProcessor.{Chunk, chunk_size, lower, split_file}
use p2p_server_file_storage.Client.ChunkProcessor.RoundTrip.{IsPiece, split_file_lem}
use p2p_server_file_storage.Client.MetadataClient.{
  Cache, StorageNodeInfo, RemoteChunk, RemoteFile, get_node_info,
}
use p2p_server_file_storage.Network.Sockets.{Connection}
use p2p_server_file_storage.Client.NodeClient.{Fetched, fetched, get_chunk}
use p2p_server_file_storage.Client.NodeClient.Delivered.{IsAnsweredBy, get_chunk_lem}
use p2p_server_file_storage.Client.NodeClient.Settled.{returns}
use p2p_server_file_storage.Client.DownloadManager.{download_file}
use p2p_server_file_storage.Client.DownloadManager.Verified.{IsServedBy}
use p2p_server_file_storage.Client.DownloadManager.Returned.{
  IsHeld, AllHeld, download_file-split_file,
}

data_of : Fetched → Option (List ℕ)
data_of (fetched d) = some d
data_of other = none

-- `GetChunk` as `TryDownloadFromNodes` calls it, over the connections that the operating system gives
-- for a node and a chunk id; where it returns.
unfoldable pub get_over :
    (StorageNodeInfo → Text → Connection) → StorageNodeInfo → Text → Option (List ℕ)
unfolding data_of
get_over net node id = data_of (get_chunk (net node id) node id).0

module _ (sha256 : List ℕ → Text) (net : StorageNodeInfo → Text → Connection) where
  -- The metadata has the id and index of the chunk; one of the nodes listed for it is in the cache
  -- and answers `GET_CHUNK` with its bytes; and no listed node answers with other bytes that have the
  -- same hash up to case.
  pub record IsAvailable (cache : Cache) (c : Chunk) (rc : RemoteChunk) : Type 0 where
    pub same_id : rc.chunk_id ≡ c.chunk_id
    pub same_index : rc.index ≡ c.index
    pub holder : Text
    pub listed : Mem holder rc.node_ids
    pub node : StorageNodeInfo
    pub known : get_node_info holder cache ≡ some node
    pub answered : IsAnsweredBy (net node rc.chunk_id) node rc.chunk_id c.bytes
    pub unforged :
        (node_id : Text) (d : List ℕ)
        → Mem node_id rc.node_ids
        → IsServedBy sha256 (get_over net) rc.chunk_id cache node_id d
        → d ≡ c.bytes

  abbrev pub AllAvailable : Cache → List Chunk → List RemoteChunk → Type 0
  AllAvailable cache [] [] = Unit
  AllAvailable cache (c ∷ cs) (rc ∷ rcs) = IsAvailable cache c rc × AllAvailable cache cs rcs
  AllAvailable cache cs rcs = ⊥

  IsAvailable-IsHeld :
      (hashes : (d : List ℕ) → length (sha256 d) ≡ 64) (n : ℕ) (cache : Cache) (c : Chunk)
      (rc : RemoteChunk)
      → IsPiece sha256 hashes n c
      → IsAvailable cache c rc
      → IsHeld sha256 (get_over net) cache c rc
  unfolding get_over
  IsAvailable-IsHeld hashes n cache c rc piece h =
      let named : lower (sha256 c.bytes) ≡ lower rc.chunk_id =
        ap lower (sym piece.hashed ∙ sym h.same_id) in
      record {
        same_id = h.same_id;
        same_index = h.same_index;
        holder = h.holder;
        listed = h.listed;
        served = record {
          node = h.node;
          known = h.known;
          answered =
              ap (λ r. data_of r.0)
                (get_chunk_lem (net h.node rc.chunk_id) h.node rc.chunk_id c.bytes h.answered);
          hashed = named;
        };
        unforged = h.unforged;
      }

  AllAvailable-AllHeld :
      (hashes : (d : List ℕ) → length (sha256 d) ≡ 64) (n : ℕ) (cache : Cache) (cs : List Chunk)
      (rcs : List RemoteChunk)
      → All (IsPiece sha256 hashes n) cs
      → AllAvailable cache cs rcs
      → AllHeld sha256 (get_over net) cache cs rcs
  AllAvailable-AllHeld hashes n cache [] [] pieces h = tt
  AllAvailable-AllHeld hashes n cache [] (rc ∷ rcs) pieces h = h
  AllAvailable-AllHeld hashes n cache (c ∷ cs) [] pieces h = h
  AllAvailable-AllHeld hashes n cache (c ∷ cs) (rc ∷ rcs) (piece, pieces) (h, hs) = (
    IsAvailable-IsHeld hashes n cache c rc piece h,
    AllAvailable-AllHeld hashes n cache cs rcs pieces hs,
  )

-- `DownloadFile` gives back the file that `SplitFile` cut, over the network: where every `GetChunk`
-- returns, hashing gives 64 characters, the content and the name in the metadata are not empty, the
-- metadata lists a chunk for every piece, in order, with its id and index, one of the known nodes listed
-- for it answers with `GET_RESPONSE OK`, the size and the bytes, in whatever parts, no listed node answers
-- with other bytes of the same hash up to case, the output can be created and no write fails, the result
-- is true and the file the content.
pub download_file_transferred :
    (sha256 : List ℕ → Text) (net : StorageNodeInfo → Text → Connection) (f : RemoteFile)
    (cache : Cache) (good : ℕ → Bool) (content : List ℕ)
    → ((node : StorageNodeInfo) (id : Text) → returns (get_chunk (net node id) node id).0 ≡ true)
    → ((d : List ℕ) → length (sha256 d) ≡ 64)
    → ((i : ℕ) → good i ≡ true)
    → is_empty content ≡ false
    → is_empty f.filename ≡ false
    → AllAvailable sha256 net cache (split_file sha256 (some content)) f.chunks
    → download_file sha256 (get_over net) f cache true good ≡ (true, content)
download_file_transferred sha256 net f cache good content returning hashes writes nonempty named h =
    let cs = split_file sha256 (some content) in
    let (spelled, numbered, pieces, count) = split_file_lem sha256 hashes content in
    download_file-split_file sha256 (get_over net) f cache good content hashes writes nonempty named
      (AllAvailable-AllHeld sha256 net hashes chunk_size cache cs f.chunks pieces h)
