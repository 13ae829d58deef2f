-- ===== src/Client/MetadataClient.antt =====
-- MetadataClient of client/src/core/metadata_client.cpp: the requests that it writes, and how it
-- reads the responses. `ParseCommand` and `SplitLines` are the functions of the server, line by
-- line, and are those of Text. The connections are in Exchanges; the console output is left out.
pub mod Listing
pub mod Exchanges
pub mod Received
use p2p_server_file_storage.Prelude.{
  ℕ, Bool, false, not, ◌&&◌, List, [], ◌∷◌, ◌++◌, Option, none, some, if◌then◌else◌, length, ltb, ℤ,
}
use p2p_server_file_storage.Text.{Text, codes, crlf, is_empty, str_eq, to_string, stoull, stoi}
use p2p_server_file_storage.Text.Words.{parse_command, spaced}
use p2p_server_file_storage.Text.Lines.{split_lines}
use p2p_server_file_storage.UnorderedMap.{UnorderedMap, find, assign}
use p2p_server_file_storage.Client.ChunkProcessor.{Chunk}

-- A number that the code leaves indeterminate is `none`.
pub record StorageNodeInfo : Type 0 where
  pub node_id : Text
  pub ip_address : Text
  pub port : Option ℤ
  pub free_space : Option ℕ

pub record NodeInfoCache : Type 0 where
  pub node_id : Text
  pub ip_address : Text
  pub port : ℤ
  pub free_space : ℕ

-- `FileMetadata::ChunkInfo`.
pub record RemoteChunk : Type 0 where
  pub chunk_id : Text
  pub index : ℕ
  pub size : ℕ
  pub node_ids : List Text

pub record RemoteFile : Type 0 where
  pub filename : Text
  pub total_size : Option ℕ
  pub chunk_count : Option ℕ
  pub chunks : List RemoteChunk

abbrev pub Cache : Type 0
Cache = UnorderedMap NodeInfoCache

unfoldable pub request_upload_message : Text → ℕ → Text
request_upload_message filename file_size =
    codes "REQUEST_UPLOAD " ++ (filename ++ (codes " " ++ to_string file_size))

unfoldable pub request_download_message : Text → Text
request_download_message filename = codes "REQUEST_DOWNLOAD " ++ filename

-- A line for a chunk; a chunk without a list of nodes gets none.
unfoldable pub notify_chunk_line : Chunk → List Text → Text
notify_chunk_line c ids = c.chunk_id ++ spaced (to_string c.index ∷ to_string c.size ∷ ids)

unfoldable pub notify_chunk_lines : List Chunk → List (List Text) → Text
unfolding notify_chunk_line
notify_chunk_lines [] ids = []
notify_chunk_lines (c ∷ cs) [] = notify_chunk_line c [] ++ (crlf ++ notify_chunk_lines cs [])
notify_chunk_lines (c ∷ cs) (ids ∷ rest) =
    notify_chunk_line c ids ++ (crlf ++ notify_chunk_lines cs rest)

-- The request of `NotifyUploadComplete`.
unfoldable pub notify_message : Text → List Chunk → List (List Text) → Text
unfolding notify_chunk_lines
notify_message filename chunks ids =
    codes "UPLOAD_COMPLETE "
    ++ (filename ++ (crlf ++ (notify_chunk_lines chunks ids ++ (codes "END_CHUNKS" ++ crlf))))

set_free_space : StorageNodeInfo → Option ℕ → StorageNodeInfo
set_free_space n none = n
set_free_space n (some f) = record n { free_space = some f }

-- A number that cannot be read leaves that field, and those behind it, as they were.
set_numbers : StorageNodeInfo → Option ℤ → Option ℕ → StorageNodeInfo
unfolding set_free_space
set_numbers n none f = n
set_numbers n (some p) f = set_free_space (record n { port = some p }) f

unfoldable pub parse_node_info : List Text → StorageNodeInfo
unfolding set_numbers
parse_node_info (id ∷ ip ∷ port ∷ free_space ∷ _) =
    set_numbers (record { node_id = id; ip_address = ip; port = none; free_space = none })
      (stoi port) (stoull free_space)
parse_node_info args = record { node_id = []; ip_address = []; port = none; free_space = none }

-- Whether a line has the words that an entry needs at least.
has_words : ℕ → List Text → Bool
has_words n words = not (ltb (length words) n)

unfoldable pub parse_node_lines : List Text → List StorageNodeInfo
unfolding has_words
parse_node_lines [] = []
parse_node_lines (l ∷ ls) =
    let node = parse_node_info (parse_command l) in
    let rest = parse_node_lines ls in
    if has_words 4 (parse_command l)
    then (if not (is_empty node.node_id) then node ∷ rest else rest)
    else rest

-- `args[0] == name && args[1] == "OK"`, with at least `n` words.
unfoldable pub is_ok : ℕ → Text → List Text → Bool
unfolding has_words
is_ok n name (a ∷ b ∷ args) = has_words n (a ∷ b ∷ args) && (str_eq a name && str_eq b (codes "OK"))
is_ok n name args = false

unfoldable pub upload_response_lines : List Text → List StorageNodeInfo
upload_response_lines [] = []
upload_response_lines (l ∷ ls) =
    if is_ok 3 (codes "UPLOAD_RESPONSE") (parse_command l) then parse_node_lines ls else []

-- What `RequestUploadNodes` makes of the full response.
unfoldable pub parse_upload_response : Text → List StorageNodeInfo
unfolding upload_response_lines
parse_upload_response response = upload_response_lines (split_lines response)

-- The `recv` loop of `RequestUploadNodes`: `none` is an error, the end a closed connection; it
-- stops when more than 4096 bytes have come.
unfoldable pub receive_full_response : List (Option Text) → Text → Text
receive_full_response [] response = response
receive_full_response (none ∷ input) response = response
receive_full_response (some part ∷ input) response =
    let more = receive_full_response input (response ++ part) in
    if ltb 4096 (length (response ++ part)) then response ++ part else more

abbrev pub cached : Text → Text → ℤ → NodeInfoCache
cached id ip port = record { node_id = id; ip_address = ip; port = port; free_space = 0 }

-- The loop over the words behind the size of a chunk: the ids of its nodes, and the cache. Three
-- words of which the last is a number are a node; a first word that begins no such three is
-- skipped, and where fewer than three words are left each is an id.
unfoldable pub parse_chunk_nodes : List Text → Cache → List Text × Cache
parse_chunk_nodes (id ∷ ip ∷ port ∷ words) cache = elim (stoi port) [
  | none ↦ parse_chunk_nodes (ip ∷ port ∷ words) cache
  | some p ↦
      let (ids, cache') = parse_chunk_nodes words (assign id (cached id ip p) cache) in
      (id ∷ ids, cache')
]
parse_chunk_nodes words cache = (words, cache)

remote_chunk : Text → Option ℕ → Option ℕ → List Text → Option RemoteChunk
remote_chunk id (some index) (some size) ids =
    some (record { chunk_id = id; index = index; size = size; node_ids = ids })
remote_chunk id index size ids = none

-- `none`: the line is skipped, and the cache is as it was.
unfoldable pub parse_remote_chunk : List Text → Cache → Option RemoteChunk × Cache
unfolding remote_chunk
parse_remote_chunk (id ∷ index ∷ size ∷ w ∷ words) cache =
    let (ids, cache') = parse_chunk_nodes (w ∷ words) cache in
    let chunk = remote_chunk id (stoull index) (stoull size) ids in
    (chunk, elim chunk [ none ↦ cache | some _ ↦ cache' ])
parse_remote_chunk words cache = (none, cache)

keep_remote : Option RemoteChunk → List RemoteChunk → List RemoteChunk
keep_remote none cs = cs
keep_remote (some c) cs = c ∷ cs

-- The loop of `RequestDownload` over the lines behind the first.
unfoldable pub parse_remote_chunks : List Text → Cache → List RemoteChunk × Cache
unfolding keep_remote
parse_remote_chunks [] cache = ([], cache)
parse_remote_chunks (l ∷ ls) cache =
    let (chunk, cache') = parse_remote_chunk (parse_command l) cache in
    let (chunks, cache'') = parse_remote_chunks ls cache' in
    if str_eq l (codes "END_CHUNKS") then ([], cache) else (keep_remote chunk chunks, cache'')

abbrev pub no_file : RemoteFile
no_file = record { filename = []; total_size = none; chunk_count = none; chunks = [] }

-- Behind the first line with its two numbers.
remote_file : Text → Option ℕ → Option ℕ → List Text → Cache → RemoteFile × Cache
remote_file filename none count ls cache = (no_file, cache)
remote_file filename (some size) none ls cache = (record no_file { total_size = some size }, cache)
remote_file filename (some size) (some count) ls cache =
    let (chunks, cache') = parse_remote_chunks ls cache in
    (
      record {
        filename = filename;
        total_size = some size;
        chunk_count = some count;
        chunks = chunks;
      },
      cache',
    )

download_response_words : Text → List Text → List Text → Cache → RemoteFile × Cache
unfolding remote_file
download_response_words filename (a ∷ b ∷ size ∷ count ∷ words) ls cache =
    if is_ok 4 (codes "DOWNLOAD_RESPONSE") (a ∷ b ∷ size ∷ count ∷ words)
    then remote_file filename (stoull size) (stoull count) ls cache
    else (no_file, cache)
download_response_words filename words ls cache = (no_file, cache)

download_response_lines : Text → List Text → Cache → RemoteFile × Cache
unfolding download_response_words
download_response_lines filename [] cache = (no_file, cache)
download_response_lines filename (l ∷ ls) cache =
    download_response_words filename (parse_command l) ls cache

-- What `RequestDownload` makes of the response that it has read.
unfoldable pub parse_download_response : Text → Text → Cache → RemoteFile × Cache
unfolding download_response_lines
parse_download_response filename response cache =
    download_response_lines filename (split_lines response) cache

-- `GetNodeInfo`.
unfoldable pub get_node_info : Text → Cache → Option StorageNodeInfo
get_node_info id cache = elim (find id cache) [
  | none ↦ none
  | some n ↦ some (record {
    node_id = n.node_id;
    ip_address = n.ip_address;
    port = some n.port;
    free_space = some n.free_space;
  })
]
