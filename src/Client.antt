-- ===== src/Client.antt =====
-- The client: client/src/core/. `ChunkProcessor` cuts a file into chunks and puts it together,
-- `MetadataClient` talks to the metadata server and `NodeClient` to the storage nodes, `UploadManager`
-- and `DownloadManager` move the chunks, and `CommandLine` is the program that uses them.
pub mod ChunkProcessor
pub mod MetadataClient
pub mod NodeClient
pub mod UploadManager
pub mod DownloadManager
pub mod CommandLine
