-- ===== src/Client/UploadManager/Transferred.antt =====
-- `UploadFile` over the exchanges of NodeClient.
use p2p_server_file_storage.Prelude.{
  ℕ, ◌≤◌, ◌≡◌, ap, ◌∙◌, Bool, true, false, List, [], ◌∷◌, Option, none, some, length, All, All-mono,
  arith,
}
use p2p_server_file_storage.Text.{Text}
use p2p_server_file_storage.Network.Binary.{GetsOn}
use p2p_server_file_storage.Client.ChunkProcessor.{Chunk, chunk_size, split_file}
use p2p_server_file_storage.Client.ChunkProcessor.RoundTrip.{split_file_lem}
use p2p_server_file_storage.Client.MetadataClient.{StorageNodeInfo}
use p2p_server_file_storage.Network.Sockets.{Connection, Event}
use p2p_server_file_storage.Client.NodeClient.{store_chunk}
use p2p_server_file_storage.Client.NodeClient.Stored.{IsStored, store_chunk_lem}
use p2p_server_file_storage.Client.UploadManager.{total_size, upload_file}
use p2p_server_file_storage.Client.UploadManager.Replication.{
  IsPair, AllReplicated, upload_file_sound,
}

result : Option (Bool × List Event) → Bool
result none = false
result (some (success, events)) = success

-- The id and the bytes of a chunk fit a command.
pub record IsSmall (c : Chunk) : Type 0 where
  pub named : length c.chunk_id ≤ 1024
  pub sized : length c.bytes ≤ chunk_size

split_file-IsSmall :
    (sha256 : List ℕ → Text) (hashes : (d : List ℕ) → length (sha256 d) ≡ 64)
    (content : Option (List ℕ))
    → All IsSmall (split_file sha256 content)
unfolding split_file
split_file-IsSmall sha256 hashes none = tt
split_file-IsSmall sha256 hashes (some content) =
    let (spelled, numbered, pieces, count) = split_file_lem sha256 hashes content in
    All-mono
      (λ c piece. record {
        named = omega (arith, hashes c.bytes, ap (λ t. length t) piece.hashed);
        sized = omega (arith, piece.sized, piece.within);
      })
      (split_file sha256 (some content)) pieces

-- The connections that the operating system gives, for a node, a chunk id and the data.
module _ (net : StorageNodeInfo → Text → List ℕ → Connection) where
  -- `StoreChunk` as `UploadChunk` calls it.
  unfoldable pub store_over : StorageNodeInfo → Text → List ℕ → Bool
  unfolding result
  store_over node id d = result (store_chunk (net node id d) node id d)

  -- The loops that send the bytes of a chunk get on, and make as many calls as they need.
  pub record GetOn : Type 0 where
    pub gets_on :
        (node : StorageNodeInfo) (id : Text) (d : List ℕ)
        → length d ≤ chunk_size
        → All GetsOn (net node id d).sends
    pub calls :
        (node : StorageNodeInfo) (id : Text) (d : List ℕ)
        → length d ≤ chunk_size
        → length d ≤ length (net node id d).sends

  -- `StoreChunk` returned true for the node, which was handed the command and the data and confirmed
  -- them: what it did to the socket is to create it, hand over the two, and close it.
  abbrev pub IsHanded : StorageNodeInfo → Chunk → Type 0
  IsHanded node c =
      (events : List Event) × (store_chunk (net node c.chunk_id c.bytes) node c.chunk_id c.bytes
        ≡ some (true, events))
      × IsStored (net node c.chunk_id c.bytes) c.chunk_id c.bytes events

  store_over-IsHanded :
      GetOn
      → (node : StorageNodeInfo) (c : Chunk) → length c.chunk_id ≤ 1024
      → length c.bytes ≤ chunk_size
      → store_over node c.chunk_id c.bytes ≡ true
      → IsHanded node c
  unfolding store_over
  store_over-IsHanded h node c named fits e =
      let (done, events, returned, stored) =
        store_chunk_lem (net node c.chunk_id c.bytes) node c.chunk_id c.bytes
          (h.gets_on node c.chunk_id c.bytes fits) (h.calls node c.chunk_id c.bytes fits) named
          (omega (arith, fits)) in
      let success : done ≡ true = ground (arith, e, returned) in
      (events, returned ∙ ap (λ (b : Bool). some (b, events)) success, stored success)

  -- Two nodes at different places of the list were handed the chunk, and the ids are theirs.
  pub record IsTransferred (nodes : List StorageNodeInfo) (c : Chunk) (ids : List Text)
      : Type 0 where
    pub one : StorageNodeInfo
    pub other : StorageNodeInfo
    pub pair : IsPair nodes one other
    pub one_handed : IsHanded one c
    pub other_handed : IsHanded other c
    pub reported : ids ≡ one.node_id ∷ other.node_id ∷ []

  abbrev pub AllTransferred : List StorageNodeInfo → List Chunk → List (List Text) → Type 0
  AllTransferred nodes [] [] = Unit
  AllTransferred nodes (c ∷ cs) (ids ∷ more) =
      IsTransferred nodes c ids × AllTransferred nodes cs more
  AllTransferred nodes cs more = ⊥

  AllReplicated-AllTransferred :
      GetOn
      → (nodes : List StorageNodeInfo) (cs : List Chunk) (more : List (List Text)) → All IsSmall cs
      → AllReplicated store_over nodes cs more
      → AllTransferred nodes cs more
  AllReplicated-AllTransferred h nodes [] [] small r = tt
  AllReplicated-AllTransferred h nodes [] (ids ∷ more) small r = r
  AllReplicated-AllTransferred h nodes (c ∷ cs) [] small r = r
  AllReplicated-AllTransferred h nodes (c ∷ cs) (ids ∷ more) (small, smalls) (r, rs) = (
    record {
      one = r.one;
      other = r.other;
      pair = r.pair;
      one_handed = store_over-IsHanded h r.one c small.named small.sized r.one_took;
      other_handed = store_over-IsHanded h r.other c small.named small.sized r.other_took;
      reported = r.reported;
    },
    AllReplicated-AllTransferred h nodes cs more smalls rs,
  )

-- Where hashing gives 64 characters and `UploadFile` returns true over connections whose sends get on,
-- each chunk of the file went by `StoreChunk` to two nodes at different places of the list that the
-- server gave: it returned true for each of them and handed over the command and then the data, and the
-- node confirmed them; and the server acknowledged exactly these chunks with the ids of those nodes.
pub upload_file_transferred :
    (sha256 : List ℕ → Text) (net : StorageNodeInfo → Text → List ℕ → Connection)
    (request : Text → ℕ → List StorageNodeInfo)
    (notify : Text → List Chunk → List (List Text) → Bool) (content : Option (List ℕ)) (name : Text)
    → ((d : List ℕ) → length (sha256 d) ≡ 64)
    → GetOn net
    → (upload_file sha256 (store_over net) request notify content name).0 ≡ true
    → let cs = split_file sha256 content in
      (ids : List (List Text)) × AllTransferred net (request name (total_size cs 0)) cs ids
      × (notify name cs ids ≡ true)
upload_file_transferred sha256 net request notify content name hashes h e =
    let (some_chunk, (ids, run, all, told)) =
      upload_file_sound sha256 (store_over net) request notify content name e in
    let cs = split_file sha256 content in
    (
      ids,
      AllReplicated-AllTransferred net h (request name (total_size cs 0)) cs ids
          (split_file-IsSmall sha256 hashes content) all,
      told,
    )
