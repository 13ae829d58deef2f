-- ===== src/Session/UploadComplete.antt =====
-- An upload from the client's UPLOAD_COMPLETE to the server's register of files.
use p2p_server_file_storage.Prelude.{
  ℕ, zero, suc, ◌+◌, ◌≤◌, ◌<◌, ◌≡◌, refl, sym, ap, ◌∙◌, true, false, List, [], ◌∷◌, ◌++◌,
  append_assoc, map, some, arith, length, length-append, All,
}
use p2p_server_file_storage.Text.{Text, codes, crlf, to_string, str_eq, str_eq_refl, u64_mod}
use p2p_server_file_storage.Text.Words.{IsWord, spaced, parse_command, parse_command-spaced}
use p2p_server_file_storage.Text.Lines.{IsLine, split_lines, split_lines_cons}
use p2p_server_file_storage.Text.Decimal.{to_string-IsWord, stoull-to_string}
use p2p_server_file_storage.Text.Messages.{spaced-IsLine, str_eq-length}
use p2p_server_file_storage.Network.{Recv, max_message}
use p2p_server_file_storage.Network.Delivery.{bytes, bytes-append, receive_message-line}
use p2p_server_file_storage.Files.{ChunkInfo, is_valid_chunk}
use p2p_server_file_storage.Client.ChunkProcessor.{Chunk}
use p2p_server_file_storage.Client.MetadataClient.{notify_chunk_line, notify_chunk_lines}
use p2p_server_file_storage.Protocol.{read_lines, is_end_line, parse_chunk_words, parse_chunks}

-- A chunk with the ids of the nodes that it was stored on.
pub record Placed : Type 0 where
  pub chunk : Chunk
  pub first : Text
  pub second : Text
  pub others : List Text

abbrev pub node_ids : Placed → List Text
node_ids p = p.first ∷ p.second ∷ p.others

-- What the server is to register for it.
abbrev pub chunk_info : Placed → ChunkInfo
chunk_info p = record {
  chunk_id = p.chunk.chunk_id;
  index = p.chunk.index;
  size = p.chunk.size;
  node_ids = node_ids p;
}

-- Ids are single words, the chunk's of 64 characters; numbers fit 64 bits; the chunk is not empty;
-- and the line fits the buffer of the server.
pub record IsSendable (p : Placed) : Type 0 where
  pub id_word : IsWord p.chunk.chunk_id
  pub id_length : length p.chunk.chunk_id ≡ 64
  pub index_fits : p.chunk.index < u64_mod
  pub size_fits : p.chunk.size < u64_mod
  pub not_empty : 0 < p.chunk.size
  pub node_words : All IsWord (node_ids p)
  pub line_fits : length (notify_chunk_line p.chunk (node_ids p)) + 1 < max_message

abbrev pub placed_line : Placed → Text
placed_line p = notify_chunk_line p.chunk (node_ids p)

module _ (p : Placed) (h : IsSendable p) where
  placed_words :
      parse_command (placed_line p)
      ≡ p.chunk.chunk_id ∷ to_string p.chunk.index ∷ to_string p.chunk.size ∷ node_ids p
  unfolding notify_chunk_line
  placed_words =
      parse_command-spaced p.chunk.chunk_id _ h.id_word
        (to_string-IsWord p.chunk.index, (to_string-IsWord p.chunk.size, h.node_words))

  placed_chunk : parse_chunk_words (parse_command (placed_line p)) ≡ some (chunk_info p)
  unfolding parse_chunk_words
  placed_chunk =
      rw
        (
          placed_words,
          stoull-to_string p.chunk.index h.index_fits,
          stoull-to_string p.chunk.size h.size_fits,
          parse_chunk_words,
        )
        (rw (valid, parse_chunk_words))
    where
      valid : is_valid_chunk (chunk_info p) ≡ true
      valid = unfold is_valid_chunk in ground (arith, h.id_word.0, h.id_length, h.not_empty)

  placed-IsLine : IsLine (placed_line p)
  unfolding notify_chunk_line
  placed-IsLine =
      spaced-IsLine p.chunk.chunk_id (to_string p.chunk.index ∷ to_string p.chunk.size ∷ node_ids p)
        h.id_word (to_string-IsWord p.chunk.index, (to_string-IsWord p.chunk.size, h.node_words))

  placed_length : 64 ≤ length (placed_line p)
  unfolding notify_chunk_line
  placed_length = omega (
    arith,
    length-append p.chunk.chunk_id
        (spaced (to_string p.chunk.index ∷ to_string p.chunk.size ∷ node_ids p)),
    h.id_length,
  )

  placed_not_end :
      (str_eq (placed_line p) (codes "END_CHUNKS") ≡ false) × (is_end_line (placed_line p) ≡ false)
  unfolding is_end_line
  placed_not_end =
      let a =
        str_eq-length (placed_line p) (codes "END_CHUNKS") (λ e. omega (arith, placed_length)) in
      let b =
        str_eq-length (placed_line p) (codes "END_FILES") (λ e. omega (arith, placed_length)) in
      (a, rw (a, b))

abbrev pub infos : List Placed → List ChunkInfo
infos = map chunk_info

abbrev pub chunk_lines : List Placed → Text
chunk_lines [] = []
chunk_lines (p ∷ ps) = placed_line p ++ (crlf ++ chunk_lines ps)

abbrev pub end_line : Text
end_line = codes "END_CHUNKS" ++ crlf

pub notify_chunk_lines_lem :
    (ps : List Placed)
    → notify_chunk_lines (map (λ p. p.chunk) ps) (map node_ids ps) ≡ chunk_lines ps
unfolding notify_chunk_lines
notify_chunk_lines_lem [] = refl
notify_chunk_lines_lem (p ∷ ps) = rw (notify_chunk_lines_lem ps)

pub bytes-line :
    (l t : Text) (rest : List Recv)
    → bytes (l ++ (crlf ++ t)) ++ rest ≡ bytes l ++ (bytes crlf ++ (bytes t ++ rest))
bytes-line l t rest =
    rw (bytes-append l (crlf ++ t)) (append_assoc (bytes l) (bytes (crlf ++ t)) rest)

end-IsLine : IsLine (codes "END_CHUNKS")
end-IsLine = (refl, omega arith)

module _ (l : Text) (h : IsLine l) (fits : length l + 1 < max_message) where
  read_lines-end :
      (rounds : ℕ) (request : Text) (rest : List Recv)
      → is_end_line l ≡ true
      → read_lines (suc rounds) (bytes l ++ (bytes crlf ++ rest)) request
        ≡ (some (request ++ (l ++ crlf)), rest)
  unfolding read_lines
  read_lines-end rounds request rest e =
      rw (receive_message-line max_message l rest h fits, read_lines) (rw (e, read_lines))

  read_lines-more :
      (rounds : ℕ) (request : Text) (rest : List Recv)
      → is_end_line l ≡ false
      → read_lines (suc rounds) (bytes l ++ (bytes crlf ++ rest)) request
        ≡ read_lines rounds rest (request ++ (l ++ crlf))
  unfolding read_lines
  read_lines-more rounds request rest e =
      rw (receive_message-line max_message l rest h fits, read_lines) (rw (e, read_lines))

chunk_lines_cons :
    (p : Placed) (ps : List Placed)
    → chunk_lines (p ∷ ps) ++ end_line ≡ placed_line p ++ (crlf ++ (chunk_lines ps ++ end_line))
chunk_lines_cons p ps = append_assoc (placed_line p) (crlf ++ chunk_lines ps) end_line

-- The server reads the lines of the chunks and END_CHUNKS, and leaves the rest on the socket.
pub read_lines-chunk_lines :
    (rounds : ℕ) (ps : List Placed) (request : Text) (rest : List Recv)
    → All IsSendable ps
    → length ps < rounds
    → read_lines rounds (bytes (chunk_lines ps ++ end_line) ++ rest) request
      ≡ (some (request ++ (chunk_lines ps ++ end_line)), rest)
read_lines-chunk_lines zero ps request rest h lt = elim lt [ ]
read_lines-chunk_lines (suc rounds) [] request rest h lt =
    read_lines-end (codes "END_CHUNKS") end-IsLine (omega arith) rounds request rest
      (unfold is_end_line str_eq in refl)
read_lines-chunk_lines (suc rounds) (p ∷ ps) request rest h lt =
    ap (λ t. read_lines (suc rounds) (bytes t ++ rest) request) (chunk_lines_cons p ps)
    ∙ ap (λ input. read_lines (suc rounds) input request)
        (bytes-line (placed_line p) (chunk_lines ps ++ end_line) rest)
    ∙ read_lines-more (placed_line p) (placed-IsLine p h.0) h.0.line_fits rounds request
        (bytes (chunk_lines ps ++ end_line) ++ rest) (placed_not_end p h.0).1
    ∙ read_lines-chunk_lines rounds ps (request ++ (placed_line p ++ crlf)) rest h.1 (omega arith)
    ∙ ap (λ t. (some t, rest))
        (append_assoc request (placed_line p ++ crlf) (chunk_lines ps ++ end_line)
          ∙ ap (◌++◌ request) (
              append_assoc (placed_line p) crlf (chunk_lines ps ++ end_line)
              ∙ sym (chunk_lines_cons p ps)))

pub split_lines-chunk_lines :
    (ps : List Placed)
    → All IsSendable ps
    → split_lines (chunk_lines ps ++ end_line) ≡ map placed_line ps ++ codes "END_CHUNKS" ∷ []
split_lines-chunk_lines [] h = unfold split_lines in refl
split_lines-chunk_lines (p ∷ ps) h =
    ap split_lines (append_assoc (placed_line p) (crlf ++ chunk_lines ps) end_line)
    ∙ split_lines_cons (placed_line p) (chunk_lines ps ++ end_line) (placed-IsLine p h.0)
    ∙ ap (◌∷◌ (placed_line p)) (split_lines-chunk_lines ps h.1)

pub parse_chunks-lines :
    (ps : List Placed)
    → All IsSendable ps
    → parse_chunks (map placed_line ps ++ codes "END_CHUNKS" ∷ []) ≡ infos ps
unfolding parse_chunks
parse_chunks-lines [] h = rw (str_eq_refl (codes "END_CHUNKS"))
parse_chunks-lines (p ∷ ps) h =
    rw ((placed_not_end p h.0).0, placed_chunk p h.0, parse_chunks) (rw (parse_chunks-lines ps h.1))
