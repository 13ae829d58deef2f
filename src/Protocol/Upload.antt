-- ===== src/Protocol/Upload.antt =====
-- UPLOAD_COMPLETE, the request of several lines, and the routing of a connection by its first line.
use mathlib.Core.Option
use p2p_server_file_storage.Prelude.{
  ℕ, zero, suc, ◌+◌, ◌%◌, Bool, not, ◌||◌, List, [], ◌∷◌, ◌++◌, Option, none, some, if◌then◌else◌,
}
use p2p_server_file_storage.Text.{Text, codes, crlf, str_eq, starts_with, stoull, u64_mod}
use p2p_server_file_storage.Text.Words.{parse_command}
use p2p_server_file_storage.Text.Lines.{split_lines}
use p2p_server_file_storage.Network.{Recv, receive_message, max_message}
use p2p_server_file_storage.Files.{
  ChunkInfo, MetadataManager, Outcome, is_valid_chunk, register_file, returns, relocks,
}
use p2p_server_file_storage.Protocol.Requests.{
  Server, Environment, create_error_response, line, join_words, process_request,
}

-- The rounds that the protection against an endless loop allows.
abbrev pub max_rounds : ℕ
max_rounds = 10001

unfoldable pub is_end_line : Text → Bool
is_end_line l = str_eq l (codes "END_CHUNKS") || str_eq l (codes "END_FILES")

-- The loop of `ReadMultilineRequest`, with the rounds left and the request so far; `none` is its
-- return of false. Beside it, what the socket will deliver next.
unfoldable pub read_lines : ℕ → List Recv → Text → Option Text × List Recv
read_lines zero input request = (none, input)
read_lines (suc rounds) input request =
    let r = receive_message max_message input in
    let more = read_lines rounds r.rest (request ++ (r.message ++ crlf)) in
    if not r.success
    then (none, r.rest)
    else if is_end_line r.message
    then (some (request ++ (r.message ++ crlf)), r.rest)
    else more

unfoldable pub read_multiline_request : Text → List Recv → Option Text × List Recv
unfolding read_lines
read_multiline_request first_line input = read_lines max_rounds input (first_line ++ crlf)

-- A chunk from the words of its line, if both numbers can be read.
chunk_of_words : Text → Option ℕ → Option ℕ → List Text → Option ChunkInfo
chunk_of_words id (some index) (some size) ids =
    some (record { chunk_id = id; index = index; size = size; node_ids = ids })
chunk_of_words id index size ids = none

-- `none`: the line is skipped, for it has fewer than five words, a number that cannot be read, or
-- makes no valid chunk.
unfoldable pub parse_chunk_words : List Text → Option ChunkInfo
unfolding chunk_of_words
parse_chunk_words (id ∷ index ∷ size ∷ n ∷ n' ∷ ns) =
    elim (chunk_of_words id (stoull index) (stoull size) (n ∷ n' ∷ ns)) [
      | none ↦ none
      | some c ↦ if is_valid_chunk c then some c else none
    ]
parse_chunk_words words = none

keep_chunk : Option ChunkInfo → List ChunkInfo → List ChunkInfo
keep_chunk none cs = cs
keep_chunk (some c) cs = c ∷ cs

-- The loop over the lines behind the first, up to END_CHUNKS.
unfoldable pub parse_chunks : List Text → List ChunkInfo
unfolding keep_chunk parse_chunk_words
parse_chunks [] = []
parse_chunks (l ∷ ls) =
    let rest = keep_chunk (parse_chunk_words (parse_command l)) (parse_chunks ls) in
    if str_eq l (codes "END_CHUNKS") then [] else rest

-- `totalSize += chunk.size`, in a uint64_t.
unfoldable pub add_chunk_sizes : List ChunkInfo → ℕ → ℕ
add_chunk_sizes [] total = total
add_chunk_sizes (c ∷ cs) total = add_chunk_sizes cs ((total + c.size) % u64_mod)

unfoldable pub upload_response : Server → Outcome (MetadataManager × Bool) → Option (Server × Text)
upload_response s relocks = none
upload_response s (returns (files, accepted)) = some (
  record s { files = files },
  if accepted
      then line (codes "UPLOAD_COMPLETE_RESPONSE OK")
      else line (codes "UPLOAD_COMPLETE_RESPONSE ERROR REGISTRATION_FAILED"),
)

-- `HandleUploadComplete`, from the words of the first line on.
unfoldable pub upload_words : Environment → List Text → List Text → Server → Option (Server × Text)
unfolding upload_response
upload_words env (command ∷ w ∷ ws) ls s =
    let chunks = parse_chunks ls in
    if str_eq command (codes "UPLOAD_COMPLETE")
    then upload_response s (
        register_file (join_words w ws) (add_chunk_sizes chunks 0) chunks (env.clock 0)
          (env.clock 1) s.files)
    else some (s, line (codes "UPLOAD_COMPLETE_RESPONSE ERROR INVALID_FORMAT"))
upload_words env words ls s = some (s, line (codes "UPLOAD_COMPLETE_RESPONSE ERROR INVALID_FORMAT"))

unfoldable pub upload_lines : Environment → List Text → Server → Option (Server × Text)
unfolding upload_words
upload_lines env [] s = some (s, line (codes "UPLOAD_COMPLETE_RESPONSE ERROR INVALID_FORMAT"))
upload_lines env (l ∷ ls) s = upload_words env (parse_command l) ls s

unfoldable pub handle_upload_complete :
    Environment → Text → List Recv → Server → Option (Server × Text)
handle_upload_complete env first_line input s = elim (read_multiline_request first_line input).0 [
  | none ↦ some (s, line (codes "UPLOAD_COMPLETE_RESPONSE ERROR READ_ERROR"))
  | some request ↦ upload_lines env (split_lines request) s
]

unfoldable pub expected_upload :
    Option (Server × Text) → List Text → Server → Option (Server × Text)
expected_upload reply [] s =
    some (s, create_error_response (codes "INVALID_COMMAND") (codes "Expected UPLOAD_COMPLETE"))
expected_upload reply (command ∷ args) s =
    if str_eq command (codes "UPLOAD_COMPLETE")
    then reply
    else some
        (s, create_error_response (codes "INVALID_COMMAND") (codes "Expected UPLOAD_COMPLETE"))

unfoldable pub process_multiline_request :
    Environment → Text → List Recv → Server → Option (Server × Text)
unfolding expected_upload
process_multiline_request env first_line input s =
    expected_upload (handle_upload_complete env first_line input s) (parse_command first_line) s

-- `HandleClient` up to its response: `some (s, none)` is a connection that is closed with none.
unfoldable pub handle_client : Environment → List Recv → Server → Option (Server × Option Text)
handle_client env input s =
    let r = receive_message max_message input in
    let reply =
      if starts_with (codes "UPLOAD_COMPLETE") r.message
      then process_multiline_request env r.message r.rest s
      else process_request env r.message s in
    if r.success then Option.map (λ (a : Server × Text). (a.0, some a.1)) reply else some (s, none)
