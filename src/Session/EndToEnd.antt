-- ===== src/Session/EndToEnd.antt =====
-- From the bytes of the client's UPLOAD_COMPLETE to the file in the register of the server.
use mathlib.Core.List.Perm
use p2p_server_file_storage.Prelude.{
  ℕ, ◌+◌, ◌%◌, ◌≤◌, ◌<◌, ◌≡◌, refl, ap, ◌∙◌, true, false, List, [], ◌∷◌, ◌++◌, append_assoc, map,
  some, arith, length, All,
}
use p2p_server_file_storage.Text.{
  Text, codes, crlf, is_empty, str_eq_refl, u64_mod, starts_with, is_space,
}
use p2p_server_file_storage.Text.Words.{IsWord, spaced, parse_command-spaced}
use p2p_server_file_storage.Text.Lines.{IsLine, split_lines, split_lines_cons}
use p2p_server_file_storage.Text.Messages.{spaced-IsLine}
use p2p_server_file_storage.Sequence.{range}
use p2p_server_file_storage.Network.{Recv, max_message}
use p2p_server_file_storage.Network.Delivery.{bytes, receive_message-line}
use p2p_server_file_storage.Files.{
  ChunkInfo, MetadataManager, register_file, returns, get_file_chunks, sanitize_filename,
}
use p2p_server_file_storage.Files.Accepting.{
  IsAcceptable, IsValidChunk, indices, total_chunk_size, register_file_decides,
}
use p2p_server_file_storage.Files.Invariant.{get_file_chunks-register_file}
use p2p_server_file_storage.Client.MetadataClient.{notify_message}
use p2p_server_file_storage.Protocol.{
  Server, Environment, line, join_words, read_multiline_request, max_rounds, add_chunk_sizes,
  upload_lines, handle_upload_complete, process_multiline_request, handle_client,
}
use p2p_server_file_storage.Session.UploadComplete.{
  Placed, IsSendable, infos, node_ids, chunk_lines, end_line, placed_line, bytes-line,
  notify_chunk_lines_lem, read_lines-chunk_lines, split_lines-chunk_lines, parse_chunks-lines,
}

abbrev command : Text
command = codes "UPLOAD_COMPLETE"

command-IsWord : IsWord command
unfolding is_space
command-IsWord = (
  refl,
  (
    refl,
    (
      refl,
      (
        refl,
        (
          refl,
          (
            refl,
            (refl, (refl, (refl, (refl, (refl, (refl, (refl, (refl, (refl, (refl, tt)))))))))),
          ),
        ),
      ),
    ),
  ),
)

infos-IsValidChunk : (ps : List Placed) → All IsSendable ps → All IsValidChunk (infos ps)
infos-IsValidChunk [] h = tt
infos-IsValidChunk (p ∷ ps) h = (
  record { hashed = h.0.id_length; stored = refl; sized = h.0.not_empty },
  infos-IsValidChunk ps h.1,
)

add_chunk_sizes-total :
    (cs : List ChunkInfo) (total : ℕ)
    → total + total_chunk_size cs < u64_mod
    → add_chunk_sizes cs total ≡ total + total_chunk_size cs
unfolding add_chunk_sizes
add_chunk_sizes-total [] total h = omega arith
add_chunk_sizes-total (c ∷ cs) total h =
    let e : (total + c.size) % u64_mod ≡ total + c.size = omega arith in
    rw e (omega (arith, add_chunk_sizes-total cs (total + c.size) (omega arith)))

module _ (w : Text) (ws : List Text) (words : All IsWord (w ∷ ws)) where
  abbrev first_line : Text
  first_line = command ++ spaced (w ∷ ws)

  first_line-IsLine : IsLine first_line
  first_line-IsLine = spaced-IsLine command (w ∷ ws) command-IsWord words

  module _ (ps : List Placed) (sendable : All IsSendable ps) (rest : List Recv) where
    notify_message_lem :
        bytes (notify_message (join_words w ws) (map (λ p. p.chunk) ps) (map node_ids ps)) ++ rest
        ≡ bytes first_line ++ (bytes crlf ++ (bytes (chunk_lines ps ++ end_line) ++ rest))
    unfolding notify_message
    notify_message_lem =
        rw (notify_chunk_lines_lem ps) (bytes-line first_line (chunk_lines ps ++ end_line) rest)

    request_lem :
        length ps ≤ 10000
        → (read_multiline_request first_line (bytes (chunk_lines ps ++ end_line) ++ rest)).0
          ≡ some (first_line ++ (crlf ++ (chunk_lines ps ++ end_line)))
    unfolding read_multiline_request
    request_lem few =
        ap (λ r. r.0)
          (read_lines-chunk_lines max_rounds ps (first_line ++ crlf) rest sendable (omega arith))
        ∙ ap some (append_assoc first_line crlf (chunk_lines ps ++ end_line))

    lines_lem :
        split_lines (first_line ++ (crlf ++ (chunk_lines ps ++ end_line)))
        ≡ first_line ∷ (map placed_line ps ++ codes "END_CHUNKS" ∷ [])
    lines_lem =
        split_lines_cons first_line (chunk_lines ps ++ end_line) first_line-IsLine
        ∙ ap (◌∷◌ first_line) (split_lines-chunk_lines ps sendable)

    module _ (env : Environment) (s : Server) where
      upload_lines_lem :
          {m' : MetadataManager}
          → register_file
              (join_words w ws)
              (add_chunk_sizes (infos ps) 0)
              (infos ps)
              (env.clock 0)
              (env.clock 1)
              s.files
            ≡ returns (m', true)
          → upload_lines env (first_line ∷ (map placed_line ps ++ codes "END_CHUNKS" ∷ [])) s
            ≡ some (record s { files = m' }, line (codes "UPLOAD_COMPLETE_RESPONSE OK"))
      unfolding upload_lines
      upload_lines_lem e =
          rw (parse_command-spaced command (w ∷ ws) command-IsWord words, upload_lines)
            (rw (parse_chunks-lines ps sendable, str_eq_refl command, e))

      handle_upload_complete_lem :
          {m' : MetadataManager}
          → length ps ≤ 10000
          → register_file
              (join_words w ws)
              (add_chunk_sizes (infos ps) 0)
              (infos ps)
              (env.clock 0)
              (env.clock 1)
              s.files
            ≡ returns (m', true)
          → handle_upload_complete env first_line (bytes (chunk_lines ps ++ end_line) ++ rest) s
            ≡ some (record s { files = m' }, line (codes "UPLOAD_COMPLETE_RESPONSE OK"))
      unfolding handle_upload_complete
      handle_upload_complete_lem few e =
          rw (request_lem few, handle_upload_complete) (rw (lines_lem, upload_lines_lem e))

      process_multiline_request_lem :
          {m' : MetadataManager}
          → length ps ≤ 10000
          → register_file
              (join_words w ws)
              (add_chunk_sizes (infos ps) 0)
              (infos ps)
              (env.clock 0)
              (env.clock 1)
              s.files
            ≡ returns (m', true)
          → process_multiline_request env first_line (bytes (chunk_lines ps ++ end_line) ++ rest) s
            ≡ some (record s { files = m' }, line (codes "UPLOAD_COMPLETE_RESPONSE OK"))
      unfolding process_multiline_request
      process_multiline_request_lem few e =
          rw (parse_command-spaced command (w ∷ ws) command-IsWord words, process_multiline_request)
            (rw (str_eq_refl command, handle_upload_complete_lem few e))

      handle_client_lem :
          {m' : MetadataManager}
          → length first_line + 1 < max_message
          → length ps ≤ 10000
          → register_file
              (join_words w ws)
              (add_chunk_sizes (infos ps) 0)
              (infos ps)
              (env.clock 0)
              (env.clock 1)
              s.files
            ≡ returns (m', true)
          → handle_client env
              (bytes (notify_message (join_words w ws) (map (λ p. p.chunk) ps) (map node_ids ps))
                ++ rest)
              s
            ≡ some (record s { files = m' }, some (line (codes "UPLOAD_COMPLETE_RESPONSE OK")))
      unfolding handle_client starts_with
      handle_client_lem fits few e = rw notify_message_lem (
          rw
            (
              receive_message-line max_message first_line
                  (bytes (chunk_lines ps ++ end_line) ++ rest) first_line-IsLine fits,
              handle_client,
            )
            (rw (process_multiline_request_lem few e)))

-- An upload that the client announces is registered. Take a file name of single words that is shorter
-- than 4000 bytes and not empty once sanitized, and 1 to 10000 chunks of which each fits a line of the
-- protocol (`IsSendable`), numbered 0, 1, … in order, of a total size below 2^64. From the bytes of the
-- client's UPLOAD_COMPLETE the server answers OK, leaves its nodes alone, and `GetFileChunks` gives back
-- the announced chunks, each with its id, index, size and nodes.
pub notify_registers :
    (w : Text) (ws : List Text) (ps : List Placed) (rest : List Recv) (env : Environment)
    (s : Server)
    → All IsWord (w ∷ ws)
    → length (join_words w ws) < 4000
    → All IsSendable ps
    → is_empty ps ≡ false
    → length ps ≤ 10000
    → indices (infos ps) ≡ range 0 (length (infos ps))
    → total_chunk_size (infos ps) < u64_mod
    → is_empty (sanitize_filename (join_words w ws)) ≡ false
    → (s' : Server) × (handle_client env
          (bytes (notify_message (join_words w ws) (map (λ p. p.chunk) ps) (map node_ids ps))
            ++ rest)
          s
        ≡ some (s', some (line (codes "UPLOAD_COMPLETE_RESPONSE OK"))))
      × (s'.nodes ≡ s.nodes)
      × (get_file_chunks (join_words w ws) s'.files ≡ infos ps)
notify_registers w ws [] rest env s words short sendable nonempty few ordered total named = cc
notify_registers w ws (p ∷ ps) rest env s words short sendable nonempty few ordered total named =
    let cs = infos (p ∷ ps) in
    let name = join_words w ws in
    let size = add_chunk_sizes cs 0 in
    let sum : size ≡ total_chunk_size cs =
      omega (arith, add_chunk_sizes-total cs 0 (omega arith)) in
    let acceptable : IsAcceptable name size cs = record {
      named = named;
      sized = omega (arith, sum, sendable.0.not_empty);
      nonempty = refl;
      valid = infos-IsValidChunk (p ∷ ps) sendable;
      numbered = rw ordered (Perm.refl (range 0 (length cs)));
      summed = omega (arith, sum, total);
    } in
    let (m', e, _, _, _) =
      (register_file_decides name size cs (env.clock 0) (env.clock 1) s.files).0 acceptable in
    (
      record s { files = m' },
      handle_client_lem w ws words (p ∷ ps) sendable rest env s (omega (arith, short)) few e,
      refl,
      (get_file_chunks-register_file name name size cs (env.clock 0) (env.clock 1) 0 s.files e
          ordered refl).1,
    )
