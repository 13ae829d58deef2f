-- ===== src/Session/Download.antt =====
-- The response to REQUEST_DOWNLOAD, as the client reads it.
use p2p_server_file_storage.Prelude.{
  ℕ, ◌<◌, ◌^◌, ◌≡◌, refl, ap, ◌∙◌, false, List, [], ◌∷◌, ◌++◌, append_assoc, map, some, arith,
  length, length-append, All, pos,
}
use p2p_server_file_storage.Text.{
  Text, codes, crlf, is_empty, str_eq, str_eq_refl, to_string, int_to_string, u64_mod,
}
use p2p_server_file_storage.Text.Words.{IsWord, spaced, parse_command, parse_command-spaced}
use p2p_server_file_storage.Text.Lines.{IsLine, split_lines, split_lines_cons}
use p2p_server_file_storage.Text.Decimal.{to_string-IsWord, stoull-to_string, stoi-int_to_string}
use p2p_server_file_storage.Text.Messages.{spaced-IsLine, str_eq-length}
use p2p_server_file_storage.UnorderedMap.{assign}
use p2p_server_file_storage.Nodes.{StorageNode, NodeManager, get_node}
use p2p_server_file_storage.Files.{ChunkInfo}
use p2p_server_file_storage.Protocol.{node_words, download_chunk_line, download_chunk_lines, line}
use p2p_server_file_storage.Client.MetadataClient.{
  Cache, cached, RemoteChunk, parse_chunk_nodes, parse_remote_chunk, parse_remote_chunks,
}

-- A registered node whose record can travel in a response.
pub record IsKnown (m : NodeManager) (id : Text) : Type 0 where
  pub id_word : IsWord id
  pub ip : Text
  pub ip_word : IsWord ip
  pub port : ℕ
  pub port_fits : port < 2 ^ 31
  pub node : StorageNode
  pub found : get_node id m ≡ some node
  pub has_ip : node.ip_address ≡ ip
  pub has_port : node.port ≡ pos port

-- Put in the cache, one after the other, as the nodes of the register.
abbrev pub remember : (m : NodeManager) (ids : List Text) → All (IsKnown m) ids → Cache → Cache
remember m [] h cache = cache
remember m (id ∷ ids) h cache =
    remember m ids h.1 (assign id (cached id h.0.ip (pos h.0.port)) cache)

parse_chunk_nodes-node_words :
    (m : NodeManager) (ids : List Text) (h : All (IsKnown m) ids) (cache : Cache)
    → parse_chunk_nodes (node_words m ids) cache ≡ (ids, remember m ids h cache)
unfolding parse_chunk_nodes node_words
parse_chunk_nodes-node_words m [] h cache = refl
parse_chunk_nodes-node_words m (id ∷ ids) (k, h) cache =
    rw (k.found, node_words)
      (rw (k.has_ip, k.has_port)
        (rw (stoi-int_to_string k.port k.port_fits, parse_chunk_nodes)
          (rw (
            parse_chunk_nodes-node_words m ids h (assign id (cached id k.ip (pos k.port)) cache)))))

node_words-IsWord :
    (m : NodeManager) (ids : List Text) → All (IsKnown m) ids → All IsWord (node_words m ids)
unfolding node_words int_to_string
node_words-IsWord m [] h = tt
node_words-IsWord m (id ∷ ids) (k, h) =
    rw (k.found, node_words)
      (rw (k.has_ip, k.has_port)
        (k.id_word, (k.ip_word, (to_string-IsWord k.port, node_words-IsWord m ids h))))

-- A chunk of a registered file whose line can be read back.
pub record IsServable (m : NodeManager) (c : ChunkInfo) : Type 0 where
  pub id_word : IsWord c.chunk_id
  pub id_length : length c.chunk_id ≡ 64
  pub index_fits : c.index < u64_mod
  pub size_fits : c.size < u64_mod
  pub stored : is_empty c.node_ids ≡ false
  pub known : All (IsKnown m) c.node_ids

abbrev pub remote : ChunkInfo → RemoteChunk
remote c = record { chunk_id = c.chunk_id; index = c.index; size = c.size; node_ids = c.node_ids }

abbrev pub remember_all :
    (m : NodeManager) (cs : List ChunkInfo) → All (IsServable m) cs → Cache → Cache
remember_all m [] h cache = cache
remember_all m (c ∷ cs) h cache = remember_all m cs h.1 (remember m c.node_ids h.0.known cache)

-- With a node to a chunk, the fourth word of its line is there.
parse_remote_chunk-some :
    (id : Text) (index size : ℕ) (ids words : List Text) (cache cache' : Cache)
    → is_empty words ≡ false
    → index < u64_mod
    → size < u64_mod
    → parse_chunk_nodes words cache ≡ (ids, cache')
    → parse_remote_chunk (id ∷ to_string index ∷ to_string size ∷ words) cache
      ≡ (some (record { chunk_id = id; index = index; size = size; node_ids = ids }), cache')
unfolding parse_remote_chunk
parse_remote_chunk-some id index size ids [] cache cache' ne hi hs e = cc
parse_remote_chunk-some id index size ids (w ∷ words) cache cache' ne hi hs e =
    rw (stoull-to_string index hi, stoull-to_string size hs, e)

node_words-nonempty :
    (m : NodeManager) (ids : List Text) → is_empty ids ≡ false → is_empty (node_words m ids) ≡ false
unfolding node_words
node_words-nonempty m [] h = cc
node_words-nonempty m (id ∷ ids) h = ground arith

module _ (m : NodeManager) (c : ChunkInfo) (h : IsServable m c) where
  chunk_words :
      parse_command (download_chunk_line m c)
      ≡ c.chunk_id ∷ to_string c.index ∷ to_string c.size ∷ node_words m c.node_ids
  unfolding download_chunk_line
  chunk_words =
      parse_command-spaced c.chunk_id
        (to_string c.index ∷ to_string c.size ∷ node_words m c.node_ids) h.id_word
        (
          to_string-IsWord c.index,
          (to_string-IsWord c.size, node_words-IsWord m c.node_ids h.known),
        )

  pub chunk-IsLine : IsLine (download_chunk_line m c)
  unfolding download_chunk_line
  chunk-IsLine =
      spaced-IsLine c.chunk_id (to_string c.index ∷ to_string c.size ∷ node_words m c.node_ids)
        h.id_word
        (
          to_string-IsWord c.index,
          (to_string-IsWord c.size, node_words-IsWord m c.node_ids h.known),
        )

  pub chunk_line_not_end : str_eq (download_chunk_line m c) (codes "END_CHUNKS") ≡ false
  unfolding download_chunk_line
  chunk_line_not_end = str_eq-length (download_chunk_line m c) (codes "END_CHUNKS") λ e. omega (
    arith,
    length-append c.chunk_id
        (spaced (to_string c.index ∷ to_string c.size ∷ node_words m c.node_ids)),
    h.id_length,
  )

  chunk_read :
      (cache : Cache)
      → parse_remote_chunk (parse_command (download_chunk_line m c)) cache
        ≡ (some (remote c), remember m c.node_ids h.known cache)
  chunk_read cache = rw chunk_words (
      parse_remote_chunk-some c.chunk_id c.index c.size c.node_ids (node_words m c.node_ids) cache
        (remember m c.node_ids h.known cache) (node_words-nonempty m c.node_ids h.stored)
        h.index_fits h.size_fits (parse_chunk_nodes-node_words m c.node_ids h.known cache))

abbrev pub line_texts : NodeManager → List ChunkInfo → List Text
line_texts m = map (download_chunk_line m)

pub split_lines-download_chunk_lines :
    (m : NodeManager) (cs : List ChunkInfo)
    → All (IsServable m) cs
    → split_lines (download_chunk_lines m cs ++ line (codes "END_CHUNKS"))
      ≡ line_texts m cs ++ codes "END_CHUNKS" ∷ []
unfolding download_chunk_lines
split_lines-download_chunk_lines m [] h = unfold split_lines in refl
split_lines-download_chunk_lines m (c ∷ cs) h =
    ap split_lines (
      append_assoc (download_chunk_line m c) (crlf ++ download_chunk_lines m cs)
        (line (codes "END_CHUNKS")))
    ∙ split_lines_cons (download_chunk_line m c)
        (download_chunk_lines m cs ++ line (codes "END_CHUNKS")) (chunk-IsLine m c h.0)
    ∙ ap (◌∷◌ (download_chunk_line m c)) (split_lines-download_chunk_lines m cs h.1)

pub parse_remote_chunks-lines :
    (m : NodeManager) (cs : List ChunkInfo) (h : All (IsServable m) cs) (cache : Cache)
    → parse_remote_chunks (line_texts m cs ++ codes "END_CHUNKS" ∷ []) cache
      ≡ (map remote cs, remember_all m cs h cache)
unfolding parse_remote_chunks
parse_remote_chunks-lines m [] h cache = rw (str_eq_refl (codes "END_CHUNKS"))
parse_remote_chunks-lines m (c ∷ cs) h cache =
    rw (chunk_line_not_end m c h.0, chunk_read m c h.0 cache, parse_remote_chunks)
      (rw (parse_remote_chunks-lines m cs h.1 (remember m c.node_ids h.0.known cache)))
