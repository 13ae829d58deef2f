-- ===== src/Client/UploadManager.antt =====
-- UploadManager of client/src/core/upload_manager.cpp. `StoreChunk` of the node client, the
-- exchange with a storage node over the network, is the parameter `store`: whether it succeeds for
-- a node, a chunk id and the data. Transferred takes the exchange of NodeClient for it.
pub mod Replication
pub mod Transferred
use p2p_server_file_storage.Prelude.{
  ℕ, zero, suc, ◌+◌, ◌*◌, ◌%◌, ◌≡◌, Bool, true, false, not, List, [], ◌∷◌, ◌++◌, Option, none, some,
  ltb, if◌then◌else◌, length, get_elem?,
}
use p2p_server_file_storage.Text.{Text, is_empty, u64_mod}
use p2p_server_file_storage.Client.ChunkProcessor.{Chunk, split_file}
use p2p_server_file_storage.Client.MetadataClient.{StorageNodeInfo}

abbrev pub replication_factor : ℕ
replication_factor = 2

-- `nodes[i]`, which is in range where the code uses it.
node_at : List StorageNodeInfo → ℕ → List StorageNodeInfo
node_at nodes i = elim (get_elem? nodes i) [ none ↦ [] | some n ↦ n ∷ [] ]

-- The loop of `SelectNodesForChunk` over `i`, with the rounds left; indices are 64-bit numbers.
select_loop : List StorageNodeInfo → ℕ → ℕ → ℕ → List StorageNodeInfo
unfolding node_at
select_loop nodes index zero i = []
select_loop nodes index (suc rounds) i =
    node_at nodes (((index * replication_factor) % u64_mod + i) % u64_mod % length nodes)
    ++ select_loop nodes index rounds (i + 1)

unfoldable pub select_nodes_for_chunk : List StorageNodeInfo → ℕ → List StorageNodeInfo
unfolding select_loop
select_nodes_for_chunk nodes index =
    if ltb (length nodes) replication_factor
    then []
    else select_loop nodes index replication_factor 0

module _ (store : StorageNodeInfo → Text → List ℕ → Bool) where
  -- The ids of the nodes that took the chunk; a failure is passed over.
  unfoldable pub store_loop : Chunk → List StorageNodeInfo → List Text
  store_loop c [] = []
  store_loop c (n ∷ ns) =
      let rest = store_loop c ns in if store n c.chunk_id c.bytes then n.node_id ∷ rest else rest

  -- The result of `UploadChunk`, and `uploadedNodeIds`.
  unfoldable pub upload_chunk : Chunk → List StorageNodeInfo → Bool × List Text
  upload_chunk c nodes =
      let selected = select_nodes_for_chunk nodes c.index in
      let uploaded = store_loop c selected in
      if ltb (length selected) replication_factor
      then (false, [])
      else (not (ltb (length uploaded) replication_factor), uploaded)

  -- The loop of `UploadFile` over the chunks; `none` is its return of false.
  unfoldable pub upload_chunks : List Chunk → List StorageNodeInfo → Option (List (List Text))
  upload_chunks [] nodes = some []
  upload_chunks (c ∷ cs) nodes =
      let (done, ids) = upload_chunk c nodes in
      let rest = upload_chunks cs nodes in
      if not done then none else elim rest [ none ↦ none | some more ↦ some (ids ∷ more) ]

-- `totalSize += chunk.size`, in a uint64_t.
unfoldable pub total_size : List Chunk → ℕ → ℕ
total_size [] total = total
total_size (c ∷ cs) total = total_size cs ((total + c.size) % u64_mod)

-- `UploadFile`, with the hash, the answers of the storage nodes, and the two calls of the metadata
-- client as parameters. The result, and the ids that `NotifyUploadComplete` was given, if it was
-- called. The check that the file exists is the one of `SplitFile`.
unfoldable pub upload_file :
    (List ℕ → Text)
    → (StorageNodeInfo → Text → List ℕ → Bool)
    → (Text → ℕ → List StorageNodeInfo)
    → (Text → List Chunk → List (List Text) → Bool)
    → Option (List ℕ)
    → Text
    → Bool × Option (List (List Text))
upload_file sha256 store request_upload_nodes notify_upload_complete content remote_filename =
    let chunks = split_file sha256 content in
    let nodes = request_upload_nodes remote_filename (total_size chunks 0) in
    if is_empty chunks
    then (false, none)
    else if ltb (length nodes) replication_factor
    then (false, none)
    else elim (upload_chunks store chunks nodes) [
      | none ↦ (false, none)
      | some ids ↦ (notify_upload_complete remote_filename chunks ids, some ids)
    ]
