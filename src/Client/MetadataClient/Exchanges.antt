-- ===== src/Client/MetadataClient/Exchanges.antt =====
-- The exchanges of MetadataClient with the metadata server, each over a connection of its own:
-- client/src/core/metadata_client.cpp. A result stands beside what was done to the socket. The
-- console output is left out.
use p2p_server_file_storage.Prelude.{
  ℕ, zero, suc, Bool, true, false, not, ◌&&◌, List, [], ◌∷◌, ◌++◌, Option, none, some,
  if◌then◌else◌, length, ℤ,
}
use p2p_server_file_storage.Text.{Text, codes, contains, crlf, str_eq}
use p2p_server_file_storage.Network.{Recv, is_sent, send_message, receive_message, max_message}
use p2p_server_file_storage.Network.Sockets.{
  Connection, Event, opened, handed, closed, connect_to, hand_over, port_number, taken,
}
use p2p_server_file_storage.Client.ChunkProcessor.{Chunk}
use p2p_server_file_storage.Client.MetadataClient.{
  Cache, StorageNodeInfo, RemoteFile, no_file, request_upload_message, request_download_message,
  notify_message, parse_upload_response, receive_full_response, parse_download_response,
}
use p2p_server_file_storage.Client.MetadataClient.Listing.{parse_list_files, parse_list_nodes}

-- The address of the server.
pub record Address : Type 0 where
  pub server_ip : Text
  pub server_port : ℤ

unfoldable pub connect_to_server : Connection → Address → Bool × List Event
connect_to_server k a = connect_to k a.server_ip (port_number a.server_port)

-- The loop that reads lines up to `last`, behind what has come so far, on fuel: `none` where the fuel
-- is used up.
unfoldable pub receive_lines : ℕ → Text → List Recv → Text → Option Text
receive_lines zero last input response = none
receive_lines (suc fuel) last input response =
    let r = receive_message max_message input in
    let more = receive_lines fuel last r.rest (response ++ (r.message ++ crlf)) in
    if not r.success
    then some response
    else if str_eq r.message last
    then some (response ++ (r.message ++ crlf))
    else more

-- The multi-line response: `none` where the first line cannot be read. Each line that is read takes
-- a byte, so what will arrive bounds the rounds of the loop.
unfoldable pub receive_response : Text → List Recv → Option Text
receive_response last input =
    let r = receive_message max_message input in
    if r.success then receive_lines (suc (length r.rest)) last r.rest (r.message ++ crlf) else none

-- A request of one line whose response is read line by line.
unfoldable pub request_lines : Connection → Address → Text → Text → Option Text × List Event
request_lines k a request last =
    let (connected, events) = connect_to_server k a in
    if not connected
    then (none, events)
    else if not (send_message k.send request)
    then (none, opened ∷ hand_over k request ∷ closed ∷ [])
    else (receive_response last k.input, opened ∷ hand_over k request ∷ closed ∷ [])

-- Behind the response, where there is one.
unfoldable pub read_download : Text → Cache → Option Text → RemoteFile × Cache
read_download filename cache none = (no_file, cache)
read_download filename cache (some response) = parse_download_response filename response cache

unfoldable pub read_files : Option Text → List (Text × ℕ)
read_files none = []
read_files (some response) = parse_list_files response

unfoldable pub read_nodes : Cache → Option Text → List StorageNodeInfo × Cache
read_nodes cache none = ([], cache)
read_nodes cache (some response) = parse_list_nodes response cache

-- `RequestDownload`, `ListFiles` and `ListNodes`.
unfoldable pub request_download : Connection → Address → Text → Cache → RemoteFile × Cache
unfolding read_download
request_download k a filename cache =
    read_download filename cache
      (request_lines k a (request_download_message filename) (codes "END_CHUNKS")).0

unfoldable pub list_files : Connection → Address → List (Text × ℕ)
unfolding read_files
list_files k a = read_files (request_lines k a (codes "LIST_FILES") (codes "END_FILES")).0

unfoldable pub list_nodes : Connection → Address → Cache → List StorageNodeInfo × Cache
unfolding read_nodes
list_nodes k a cache =
    read_nodes cache (request_lines k a (codes "LIST_NODES") (codes "END_NODES")).0

-- `RequestUploadNodes`; `parts` is what its calls of `recv` give.
unfoldable pub request_upload_nodes :
    Connection → Address → List (Option Text) → Text → ℕ → List StorageNodeInfo × List Event
request_upload_nodes k a parts filename file_size =
    let (connected, events) = connect_to_server k a in
    let request = request_upload_message filename file_size in
    if not connected
    then ([], events)
    else if not (send_message k.send request)
    then ([], opened ∷ hand_over k request ∷ closed ∷ [])
    else (
      parse_upload_response (receive_full_response parts []),
      opened ∷ hand_over k request ∷ closed ∷ [],
    )

-- The call of `send` that is handed a text as it is: whether it takes all of it.
unfoldable pub sent_whole : Connection → Text → Bool
sent_whole k text = is_sent text (k.send text)

-- `NotifyUploadComplete`.
unfoldable pub notify_upload_complete :
    Connection → Address → Text → List Chunk → List (List Text) → Bool × List Event
notify_upload_complete k a filename chunks ids =
    let (connected, events) = connect_to_server k a in
    let request = notify_message filename chunks ids in
    let r = receive_message max_message k.input in
    let done = opened ∷ handed (taken request (k.send request)) ∷ closed ∷ [] in
    if not connected
    then (false, events)
    else if not (sent_whole k request)
    then (false, done)
    else (r.success && contains (codes "UPLOAD_COMPLETE_RESPONSE OK") r.message, done)

-- `TestConnection`.
unfoldable pub test_connection : Connection → Address → Bool × List Event
test_connection k a =
    let (connected, events) = connect_to_server k a in
    if connected then (true, opened ∷ closed ∷ []) else (false, events)
