-- ===== src/Session/Fetched.antt =====
-- REQUEST_DOWNLOAD over the connection, from the bytes of the server's response to the metadata.
use p2p_server_file_storage.Prelude.{
  ℕ, ◌+◌, ◌<◌, ◌≡◌, refl, sym, ap, ◌∙◌, subst, List, [], ◌∷◌, ◌++◌, append_assoc, map, some, arith,
  length, length-append, All,
}
use p2p_server_file_storage.Text.{Text, codes, crlf, is_space, to_string, u64_mod}
use p2p_server_file_storage.Text.Words.{unspaced, unspaced-IsWord, spaced}
use p2p_server_file_storage.Text.Lines.{unlines}
use p2p_server_file_storage.Text.Decimal.{length-to_string}
use p2p_server_file_storage.Text.Messages.{spaced-IsLine}
use p2p_server_file_storage.Network.{max_message}
use p2p_server_file_storage.Network.Sockets.{Connection}
use p2p_server_file_storage.Nodes.{NodeManager}
use p2p_server_file_storage.Files.{ChunkInfo, FileMetadata}
use p2p_server_file_storage.Protocol.{
  download_chunk_line, download_chunk_lines, download_response, line,
}
use p2p_server_file_storage.Client.MetadataClient.{Cache, request_download_message}
use p2p_server_file_storage.Client.MetadataClient.Exchanges.{
  Address, request_download, read_download,
}
use p2p_server_file_storage.Client.MetadataClient.Received.{
  IsAnsweredWith, IsInner, IsLast, request_lines-unlines,
}
use p2p_server_file_storage.Session.Download.{
  IsServable, remote, remember_all, line_texts, chunk-IsLine, chunk_line_not_end,
}
use p2p_server_file_storage.Session.Served.{
  header, header-IsLine, header_lem, parse_download_response_lem,
}

abbrev end_chunks : Text
end_chunks = codes "END_CHUNKS"

end_line : IsLast end_chunks
unfolding unspaced is_space
end_line = (spaced-IsLine end_chunks [] (unspaced-IsWord end_chunks refl refl) tt, omega arith)

download_chunk_lines_lem :
    (m : NodeManager) (cs : List ChunkInfo)
    → download_chunk_lines m cs ++ line end_chunks ≡ unlines (line_texts m cs ++ end_chunks ∷ [])
unfolding download_chunk_lines
download_chunk_lines_lem m [] = refl
download_chunk_lines_lem m (c ∷ cs) =
    append_assoc (download_chunk_line m c) (crlf ++ download_chunk_lines m cs) (line end_chunks)
    ∙ ap (λ t. download_chunk_line m c ++ (crlf ++ t)) (download_chunk_lines_lem m cs)

line_texts-All :
    (m : NodeManager) (cs : List ChunkInfo)
    → All (IsServable m) cs
    → All (λ c. length (download_chunk_line m c) + 1 < max_message) cs
    → All (IsInner end_chunks) (line_texts m cs)
line_texts-All m [] h short = tt
line_texts-All m (c ∷ cs) (h, hs) (one, short) = (
  record { is_line = chunk-IsLine m c h; short = one; other = chunk_line_not_end m c h },
  line_texts-All m cs hs short,
)

header_short :
    (size count : ℕ)
    → size < u64_mod
    → count < u64_mod
    → length (header size count) + 1 < max_message
header_short size count h k = omega (
  arith,
  length-append (to_string size) (spaced (to_string count ∷ [])),
  length-append (to_string count) [],
  length-to_string size h,
  length-to_string count k,
)

-- Where the server is reached, takes the request and answers with its response for a file, the numbers
-- of the file fit 64 bits, and each chunk can be served (`IsServable`) on a line that a message can hold,
-- `RequestDownload` returns the file that the server holds: its size, its number of chunks, and each
-- chunk with its id, index, size and nodes; its cache takes in the nodes one after the other.
pub request_download-download_response :
    (k : Connection) (a : Address) (name : Text) (m : NodeManager) (f : FileMetadata)
    (h : All (IsServable m) f.chunks) (cache : Cache)
    → IsAnsweredWith k a (request_download_message name) (download_response m f)
    → All (λ c. length (download_chunk_line m c) + 1 < max_message) f.chunks
    → f.total_size < u64_mod
    → length f.chunks < u64_mod
    → request_download k a name cache ≡ (
      record {
        filename = name;
        total_size = some f.total_size;
        chunk_count = some (length f.chunks);
        chunks = map remote f.chunks;
      },
      remember_all m f.chunks h cache,
    )
unfolding request_download read_download
request_download-download_response k a name m f h cache answered short size_fits count_fits =
    let first = header f.total_size (length f.chunks) in
    let text : download_response m f
        ≡ unlines (first ∷ (line_texts m f.chunks ++ end_chunks ∷ [])) =
      unfold download_response in
      header_lem f.total_size (length f.chunks) (download_chunk_lines m f.chunks ++ line end_chunks)
      ∙ ap (λ t. first ++ (crlf ++ t)) (download_chunk_lines_lem m f.chunks) in
    ap (read_download name cache) (
      request_lines-unlines k a (request_download_message name) end_chunks first
        (line_texts m f.chunks)
        (subst (IsAnsweredWith k a (request_download_message name)) text answered) end_line
        (header-IsLine f.total_size (length f.chunks))
        (header_short f.total_size (length f.chunks) size_fits count_fits)
        (line_texts-All m f.chunks h short))
    ∙ ap (λ t. read_download name cache (some t)) (sym text)
    ∙ parse_download_response_lem name m f h cache size_fits count_fits
