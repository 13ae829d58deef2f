-- ===== src/Session/Served.antt =====
-- The whole response to REQUEST_DOWNLOAD, and the addresses that the client has learnt from it.
use mathlib.Core.Option
use p2p_server_file_storage.Prelude.{
  ℕ, ◌<◌, ◌≡◌, refl, sym, ap, ◌∙◌, Bool, false, List, [], ◌∷◌, ◌++◌, append-nil, append_assoc, map,
  Option, some, arith, length, All, pos, if◌then◌else◌, ◌||◌, Bool-cases, inl, inr, subst,
}
use p2p_server_file_storage.Text.{
  Text, codes, crlf, str_eq, str_eq_iff, is_space, to_string, u64_mod, space,
}
use p2p_server_file_storage.Text.Words.{
  unspaced, unspaced-IsWord, IsWord, spaced, parse_command, parse_command-spaced,
}
use p2p_server_file_storage.Text.Lines.{IsLine, split_lines, split_lines_cons}
use p2p_server_file_storage.Text.Decimal.{to_string-IsWord, stoull-to_string}
use p2p_server_file_storage.Text.Messages.{spaced-IsLine}
use p2p_server_file_storage.UnorderedMap.{find, assign, find-assign}
use p2p_server_file_storage.Nodes.{StorageNode, NodeManager, get_node}
use p2p_server_file_storage.Files.{ChunkInfo, FileMetadata}
use p2p_server_file_storage.Protocol.{download_chunk_lines, download_response, line}
use p2p_server_file_storage.Client.MetadataClient.{
  Cache, NodeInfoCache, cached, parse_download_response, is_ok,
}
use p2p_server_file_storage.Session.Download.{
  IsKnown, IsServable, remote, remember, remember_all, line_texts, split_lines-download_chunk_lines,
  parse_remote_chunks-lines,
}

module _ (size count : ℕ) where
  abbrev pub header : Text
  header = codes "DOWNLOAD_RESPONSE" ++ spaced (codes "OK" ∷ to_string size ∷ to_string count ∷ [])

  header_words : All IsWord (codes "OK" ∷ to_string size ∷ to_string count ∷ [])
  unfolding is_space
  header_words = ((refl, (refl, (refl, tt))), (to_string-IsWord size, (to_string-IsWord count, tt)))

  name-IsWord : IsWord (codes "DOWNLOAD_RESPONSE")
  unfolding unspaced is_space
  name-IsWord = unspaced-IsWord (codes "DOWNLOAD_RESPONSE") refl refl

  pub header-IsLine : IsLine header
  header-IsLine =
      spaced-IsLine (codes "DOWNLOAD_RESPONSE") (codes "OK" ∷ to_string size ∷ to_string count ∷ [])
        name-IsWord header_words

  header_read :
      parse_command header
      ≡ codes "DOWNLOAD_RESPONSE" ∷ codes "OK" ∷ to_string size ∷ to_string count ∷ []
  header_read =
      parse_command-spaced (codes "DOWNLOAD_RESPONSE")
        (codes "OK" ∷ to_string size ∷ to_string count ∷ []) name-IsWord header_words

  pub header_lem :
      (t : Text)
      → codes "DOWNLOAD_RESPONSE OK "
          ++ (to_string size ++ (codes " " ++ (to_string count ++ (crlf ++ t))))
        ≡ header ++ (crlf ++ t)
  header_lem t =
      ap (λ u. codes "DOWNLOAD_RESPONSE OK " ++ u)
        (ap (λ u. to_string size ++ (space ∷ (u ++ (crlf ++ t))))
            (sym (append-nil (to_string count)))
          ∙ sym (append_assoc (to_string size) (space ∷ (to_string count ++ [])) (crlf ++ t)))

-- Where the numbers of the file fit 64 bits and each chunk can be served (`IsServable`: an id of 64
-- characters that is one word, and nodes that are registered with one-word ids and addresses and a
-- port that is not negative), the client reads the server's response as the file that the server
-- holds: its size, its number of chunks, and each chunk with its id, index, size and nodes; its
-- cache takes in the nodes one after the other.
pub parse_download_response_lem :
    (name : Text) (m : NodeManager) (f : FileMetadata) (h : All (IsServable m) f.chunks)
    (cache : Cache)
    → f.total_size < u64_mod
    → length f.chunks < u64_mod
    → parse_download_response name (download_response m f) cache ≡ (
      record {
        filename = name;
        total_size = some f.total_size;
        chunk_count = some (length f.chunks);
        chunks = map remote f.chunks;
      },
      remember_all m f.chunks h cache,
    )
unfolding parse_download_response download_response is_ok str_eq
parse_download_response_lem name m f h cache size_fits count_fits =
    let body = download_chunk_lines m f.chunks ++ line (codes "END_CHUNKS") in
    let lines : split_lines (download_response m f)
        ≡ header f.total_size (length f.chunks)
          ∷ (line_texts m f.chunks ++ codes "END_CHUNKS" ∷ []) =
      ap split_lines (header_lem f.total_size (length f.chunks) body)
      ∙ split_lines_cons (header f.total_size (length f.chunks)) body
          (header-IsLine f.total_size (length f.chunks))
      ∙ ap (◌∷◌ (header f.total_size (length f.chunks)))
          (split_lines-download_chunk_lines m f.chunks h) in
    rw (lines, parse_download_response)
      (rw (header_read f.total_size (length f.chunks), parse_download_response)
        (rw (stoull-to_string f.total_size size_fits, stoull-to_string (length f.chunks) count_fits)
          (rw (parse_remote_chunks-lines m f.chunks h cache))))

abbrev pub elem : Text → List Text → Bool
elem j [] = false
elem j (i ∷ is) = str_eq i j || elem j is

abbrev pub elem_chunks : Text → List ChunkInfo → Bool
elem_chunks j [] = false
elem_chunks j (c ∷ cs) = elem j c.node_ids || elem_chunks j cs

-- What the register knows of a node, as a cache entry under the id.
abbrev pub registered : NodeManager → Text → Option NodeInfoCache
registered m j = Option.map (λ (n : StorageNode). cached j n.ip_address n.port) (get_node j m)

known_registered :
    (m : NodeManager) (id : Text) (k : IsKnown m id)
    → registered m id ≡ some (cached id k.ip (pos k.port))
known_registered m id k = rw (k.found) (rw (k.has_ip, k.has_port))

find-remember :
    (m : NodeManager) (ids : List Text) (h : All (IsKnown m) ids) (j : Text) (cache : Cache)
    → find j (remember m ids h cache) ≡ (if elem j ids then registered m j else find j cache)
find-remember m [] h j cache = refl
find-remember m (i ∷ is) h j cache =
    let entry = cached i h.0.ip (pos h.0.port) in
    elim (Bool-cases (str_eq i j)) [
      | inl e ↦
          let same : registered m j ≡ some entry =
            subst (λ x. registered m x ≡ some entry) ((str_eq_iff i j).0 e)
              (known_registered m i h.0) in
          ground (
            arith,
            same,
            find-remember m is h.1 j (assign i entry cache),
            find-assign i j entry cache,
          )
      | inr e ↦
          ground
            (arith, find-remember m is h.1 j (assign i entry cache), find-assign i j entry cache)
    ]

-- Where each chunk can be served, the cache of the client holds after the response, for each node
-- that stores a chunk of the file, the address and port of the register, and for every other node
-- what it held before.
pub find-remember_all :
    (m : NodeManager) (cs : List ChunkInfo) (h : All (IsServable m) cs) (j : Text) (cache : Cache)
    → find j (remember_all m cs h cache)
      ≡ (if elem_chunks j cs then registered m j else find j cache)
find-remember_all m [] h j cache = refl
find-remember_all m (c ∷ cs) h j cache = ground (
  arith,
  find-remember_all m cs h.1 j (remember m c.node_ids h.0.known cache),
  find-remember m c.node_ids h.0.known j cache,
)
