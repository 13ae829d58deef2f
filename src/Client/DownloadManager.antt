-- ===== src/Client/DownloadManager.antt =====
-- DownloadManager of client/src/core/download_manager.cpp. `GetChunk` of the node client is the
-- parameter `get_chunk`: the data that a node answers with, `none` where it returns false. Transferred
-- takes the exchange of NodeClient for it.
pub mod Verified
pub mod Returned
pub mod Transferred
use p2p_server_file_storage.Prelude.{
  ℕ, ◌+◌, Bool, true, false, not, ◌||◌, List, [], ◌∷◌, Option, none, some, if◌then◌else◌, length,
}
use p2p_server_file_storage.Text.{Text, is_empty, str_eq}
use p2p_server_file_storage.Client.ChunkProcessor.{Chunk, lower, assemble_file}
use p2p_server_file_storage.Client.MetadataClient.{
  Cache, StorageNodeInfo, RemoteChunk, RemoteFile, get_node_info,
}

module _ (sha256 : List ℕ → Text) (get_chunk : StorageNodeInfo → Text → Option (List ℕ)) where
  -- The data of a node that is kept: what it sent, if its hash is the id of the chunk.
  unfoldable pub checked : Text → Option (List ℕ) → Option (List ℕ)
  checked id none = none
  checked id (some bytes) = if str_eq (lower (sha256 bytes)) (lower id) then some bytes else none

  unfoldable pub fetch : Text → Option StorageNodeInfo → Option (List ℕ)
  unfolding checked
  fetch id none = none
  fetch id (some node) = checked id (get_chunk node id)

  -- The chunk of `TryDownloadFromNodes`, which keeps its index; `none` is its return of false. Nodes
  -- that are not in the cache, do not answer or send other data are passed over.
  unfoldable pub try_download_from_nodes : Text → List Text → Cache → ℕ → Option Chunk
  unfolding fetch
  try_download_from_nodes id [] cache index = none
  try_download_from_nodes id (node_id ∷ node_ids) cache index =
      let rest = try_download_from_nodes id node_ids cache index in
      elim (fetch id (get_node_info node_id cache)) [
        | none ↦ rest
        | some bytes ↦
            some (record { chunk_id = id; index = index; size = length bytes; bytes = bytes })
      ]

  -- `DownloadChunk`, into a chunk with this index.
  unfoldable pub download_chunk : RemoteChunk → Cache → ℕ → Option Chunk
  download_chunk c cache index = try_download_from_nodes c.chunk_id c.node_ids cache index

  -- The loop of `DownloadFile`; `none` is its return of false.
  unfoldable pub download_chunks : List RemoteChunk → Cache → Option (List Chunk)
  download_chunks [] cache = some []
  download_chunks (c ∷ cs) cache =
      let rest = download_chunks cs cache in
      elim (try_download_from_nodes c.chunk_id c.node_ids cache c.index) [
        | none ↦ none
        | some chunk ↦ elim rest [ none ↦ none | some chunks ↦ some (chunk ∷ chunks) ]
      ]

  -- `DownloadFile` with the metadata that `RequestDownload` returned: the result, and the bytes
  -- handed to the output file.
  unfoldable pub download_file : RemoteFile → Cache → Bool → (ℕ → Bool) → Bool × List ℕ
  download_file metadata cache opens good =
      if is_empty metadata.filename || is_empty metadata.chunks
      then (false, [])
      else elim (download_chunks metadata.chunks cache) [
        | none ↦ (false, [])
        | some chunks ↦ assemble_file sha256 opens good chunks
      ]
