-- ===== src/Protocol/Replicas.antt =====
-- How many nodes the server looks for, against the chunks that the client cuts.
use p2p_server_file_storage.Prelude.{ℕ, ◌+◌, ◌*◌, ◌≤◌, ◌<◌, ◌≡◌, List, some, arith, length}
use p2p_server_file_storage.Text.{Text, u64_mod}
use p2p_server_file_storage.Client.ChunkProcessor.{split_file}
use p2p_server_file_storage.Client.ChunkProcessor.RoundTrip.{split_file_lem}
use p2p_server_file_storage.Protocol.{required_nodes, replication_factor, chunk_size}

-- For a file whose size is at least 2^20 below 2^64, `HandleRequestUpload` asks for two nodes
-- for each chunk that `SplitFile` cuts, where hashing gives 64 characters.
pub required_nodes_lem :
    (sha256 : List ℕ → Text) (content : List ℕ)
    → ((d : List ℕ) → length (sha256 d) ≡ 64)
    → length content + chunk_size ≤ u64_mod
    → required_nodes (length content)
      ≡ length (split_file sha256 (some content)) * replication_factor
unfolding required_nodes
required_nodes_lem sha256 content hashes h =
    let (_, _, _, count) = split_file_lem sha256 hashes content in omega (arith, count)

-- For a larger size the sum wraps, and no node is asked for at all.
pub required_nodes_wraps :
    (size : ℕ) → u64_mod < size + chunk_size → size < u64_mod → required_nodes size ≡ 0
unfolding required_nodes
required_nodes_wraps size h below = omega arith
