-- ===== src/Tests/Client.antt =====
-- The client's theorems at a file of three bytes, with a hash that adds the bytes up.
use p2p_server_file_storage.Prelude.{
  ℕ, ◌+◌, ◌≡◌, refl, Bool, true, List, [], ◌∷◌, map, Option, some, length, mem-cons_of_mem,
  mem-cons_self, All, Perm, arith, pos, ap,
}
use p2p_server_file_storage.Text.{Text, codes, str_eq}
use p2p_server_file_storage.Protocol.{required_nodes}
use p2p_server_file_storage.Protocol.Replicas.{required_nodes_lem}
use p2p_server_file_storage.UnorderedMap.{find}
use p2p_server_file_storage.Sort.{sort}
use p2p_server_file_storage.Sequence.{range, by_index}
use p2p_server_file_storage.Client.ChunkProcessor.{
  Chunk, split_file, split_loop, chunk_size, assemble_file,
}
use p2p_server_file_storage.Client.ChunkProcessor.RoundTrip.{
  joined, IsPiece, IsGenuine, split_file_lem, assemble_file-split_file,
}
use p2p_server_file_storage.Client.MetadataClient.{
  Cache, StorageNodeInfo, RemoteChunk, RemoteFile, cached, get_node_info,
}
use p2p_server_file_storage.Client.DownloadManager.{download_file}
use p2p_server_file_storage.Client.DownloadManager.Verified.{IsServedBy, download_file_sound}
use p2p_server_file_storage.Client.DownloadManager.Returned.{AllHeld, download_file-split_file}

abbrev zeros : Text
zeros = codes "000000000000000000000000000000000000000000000000000000000000000"

abbrev total : List ℕ → ℕ
total [] = 0
total (b ∷ bs) = b + total bs

abbrev hash : List ℕ → Text
hash d = total d ∷ zeros

abbrev content : List ℕ
content = 1 ∷ 2 ∷ 3 ∷ []

abbrev id : Text
id = hash content

abbrev chunk : Chunk
chunk = record { chunk_id = id; index = 0; size = 3; bytes = content }

abbrev writes : ℕ → Bool
writes i = true

assemble_file-split_file_example :
    assemble_file hash true writes (split_file hash (some content)) ≡ (true, content)
assemble_file-split_file_example =
    assemble_file-split_file hash writes content (λ d. refl) (λ i. refl) refl

split_file_lem_example :
    let cs = split_file hash (some content) in
    (joined cs ≡ content)
    × (map (λ (c : Chunk). c.index) cs ≡ range 0 (length cs))
    × All (IsPiece hash (λ d. refl) chunk_size) cs
    × (length cs ≡ 1)
split_file_lem_example = split_file_lem hash (λ d. refl) content

abbrev node_info : Text → StorageNodeInfo
node_info name = record {
  node_id = name;
  ip_address = codes "10.0.0.1";
  port = some (pos 80);
  free_space = some 0;
}

abbrev nodes : List StorageNodeInfo
nodes = node_info (codes "a") ∷ node_info (codes "b") ∷ node_info (codes "c") ∷ []

abbrev cache : Cache
cache = (codes "a", cached (codes "a") (codes "10.0.0.1") (pos 80)) ∷ []

abbrev answers : StorageNodeInfo → Text → Option (List ℕ)
answers node name = some content

abbrev listed_chunk : RemoteChunk
listed_chunk = record { chunk_id = id; index = 0; size = 3; node_ids = codes "z" ∷ codes "a" ∷ [] }

abbrev listed_file : RemoteFile
listed_file = record {
  filename = codes "f";
  total_size = some 3;
  chunk_count = some 1;
  chunks = listed_chunk ∷ [];
}

served : IsServedBy hash answers id cache (codes "a") content
unfolding get_node_info find str_eq
served = record { node = node_info_of_cache; known = refl; answered = refl; hashed = refl }
  where
    node_info_of_cache : StorageNodeInfo
    node_info_of_cache = node_info (codes "a")

held : AllHeld hash answers cache (split_file hash (some content)) (listed_chunk ∷ [])
unfolding split_file split_loop
held = (
  record {
    same_id = refl;
    same_index = refl;
    holder = codes "a";
    listed = mem-cons_of_mem (codes "z") mem-cons_self;
    served = served;
    unforged = λ node_id bytes at s. same bytes s.answered;
  },
  tt,
)
  where
    same : (bytes : List ℕ) → some content ≡ some bytes → bytes ≡ content
    same bytes e = ground arith

downloads : download_file hash answers listed_file cache true writes ≡ (true, content)
downloads =
    download_file-split_file hash answers listed_file cache writes content (λ d. refl) (λ i. refl)
      refl refl held

download_file_sound_example :
    (cs : List Chunk) × (map (λ (c : Chunk). c.index) cs ≡ 0 ∷ [])
    × (map (λ (c : Chunk). c.chunk_id) cs ≡ id ∷ [])
    × Perm (map (λ (c : Chunk). c.index) cs) (range 0 (length cs))
    × All (IsGenuine hash) cs
    × ((download_file hash answers listed_file cache true writes).1
        ≡ joined (sort (by_index (λ (c : Chunk). c.index)) cs))
download_file_sound_example =
    download_file_sound hash answers listed_file cache true writes
      (ap (λ (r : Bool × List ℕ). r.0) downloads)

abbrev takes : StorageNodeInfo → Text → List ℕ → Bool
takes node name bytes = true

abbrev request : Text → ℕ → List StorageNodeInfo
request name size = nodes

abbrev notify : Text → List Chunk → List (List Text) → Bool
notify name cs ids = true

required_nodes_lem_example : required_nodes 3 ≡ 2
unfolding split_file split_loop
required_nodes_lem_example = required_nodes_lem hash content (λ d. refl) (omega arith)
