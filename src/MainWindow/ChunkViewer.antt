-- ===== src/MainWindow/ChunkViewer.antt =====
-- `ShowChunkLocations` of client-gui/src/main_window.cpp, and the lists of ChunkViewer, of
-- client-gui/src/chunk_viewer.cpp: the lines that they show. The window itself is left out, and so is
-- the message box that takes its place where it cannot be created.
use p2p_server_file_storage.Prelude.{
  ℕ, zero, suc, ◌+◌, ◌/◌, ◌≡◌, refl, ap, ◌∙◌, Bool, true, false, List, [], ◌∷◌, ◌++◌, append_assoc,
  map, Option, none, some, if◌then◌else◌, length, length-append, sym, get_elem?, ℤ, pos, arith,
}
use p2p_server_file_storage.Text.{Text, codes, is_empty, to_string}
use p2p_server_file_storage.Client.MetadataClient.{
  Cache, RemoteChunk, StorageNodeInfo, get_node_info,
}
use p2p_server_file_storage.MainWindow.{port_text}

-- `ChunkInfo` of the viewer; the address and the port of a node stand where its id does.
pub record ChunkInfo : Type 0 where
  pub chunk_id : Text
  pub index : ℕ
  pub size : ℕ
  pub node_ids : List Text
  pub node_ips : List Text
  pub node_ports : List (Option ℤ)

ip_of : Option StorageNodeInfo → Text
ip_of none = []
ip_of (some n) = n.ip_address

port_of : Option StorageNodeInfo → Option ℤ
port_of none = some (pos 0)
port_of (some n) = n.port

-- The loop of `ShowChunkLocations`, for one chunk.
unfoldable pub chunk_location : Cache → RemoteChunk → ChunkInfo
unfolding ip_of port_of
chunk_location cache c = record {
  chunk_id = c.chunk_id;
  index = c.index;
  size = c.size;
  node_ids = c.node_ids;
  node_ips = map (λ id. ip_of (get_node_info id cache)) c.node_ids;
  node_ports = map (λ id. port_of (get_node_info id cache)) c.node_ids;
}

unfoldable pub chunk_item : ChunkInfo → Text
chunk_item c =
    codes "Chunk "
    ++ (to_string c.index
        ++ (codes " - "
            ++ (to_string (c.size / 1024)
                ++ (codes " KB - " ++ (to_string (length c.node_ids) ++ codes " nodes")))))

unfoldable pub update_chunk_list : List ChunkInfo → List Text
update_chunk_list chunks =
    if is_empty chunks then codes "No chunks available" ∷ [] else map chunk_item chunks

-- `> 0`, for a port that was found.
is_positive : Option ℤ → Bool
is_positive (some (pos (suc n))) = true
is_positive port = false

-- The address of a node, if its list reaches so far and it is not empty, with the port, if its does and
-- it is positive.
address : Option Text → Option (Option ℤ) → Text
unfolding is_positive
address none port = []
address (some ip) none = if is_empty ip then [] else codes " (" ++ (ip ++ codes ")")
address (some ip) (some port) =
    if is_empty ip
    then []
    else codes " ("
      ++ (ip ++ ((if is_positive port then codes ":" ++ port_text port else []) ++ codes ")"))

-- The loop of `UpdateNodeList` over the ids from `i` on.
node_lines : ChunkInfo → List Text → ℕ → List Text
unfolding address
node_lines c [] i = []
node_lines c (id ∷ ids) i =
    (codes "Node: " ++ (id ++ address (get_elem? c.node_ips i) (get_elem? c.node_ports i)))
    ∷ node_lines c ids (i + 1)

unfoldable pub update_node_list : ChunkInfo → List Text
unfolding node_lines
update_node_list c =
    if is_empty c.node_ids then codes "No nodes available" ∷ [] else node_lines c c.node_ids 0

-- `OnChunkSelected`: the lines of the list of nodes, `none` where it stays as it is.
unfoldable pub on_chunk_selected : List ChunkInfo → ℕ → Option (List Text)
on_chunk_selected chunks index = elim (get_elem? chunks index) [
  | none ↦ none
  | some c ↦ some (update_node_list c)
]

-- What stands behind the id of a node that the client knows or does not know.
unfoldable pub known_address : Option StorageNodeInfo → Text
unfolding is_positive
known_address none = []
known_address (some n) =
    if is_empty n.ip_address
    then []
    else codes " ("
      ++ (n.ip_address
          ++ ((if is_positive n.port then codes ":" ++ port_text n.port else []) ++ codes ")"))

abbrev pub known_line : Cache → Text → Text
known_line cache id = codes "Node: " ++ (id ++ known_address (get_node_info id cache))

address-known_address :
    (r : Option StorageNodeInfo) → address (some (ip_of r)) (some (port_of r)) ≡ known_address r
unfolding address ip_of port_of known_address
address-known_address none = refl
address-known_address (some n) = refl

get_elem?-append :
    {A : Type 0} (f : Text → A) (before : List Text) (id : Text) (ids : List Text)
    → get_elem? (map f (before ++ id ∷ ids)) (length before) ≡ some (f id)
get_elem?-append f [] id ids = refl
get_elem?-append f (b ∷ before) id ids = get_elem?-append f before id ids

node_lines-known :
    (cache : Cache) (c : RemoteChunk) (before ids : List Text) (i : ℕ)
    → c.node_ids ≡ before ++ ids
    → i ≡ length before
    → node_lines (chunk_location cache c) ids i ≡ map (known_line cache) ids
unfolding node_lines chunk_location
node_lines-known cache c before [] i e at = refl
node_lines-known cache c before (id ∷ ids) i e at =
    let ip : get_elem? (map (λ id. ip_of (get_node_info id cache)) c.node_ids) i
        ≡ some (ip_of (get_node_info id cache)) =
      rw (e, at) (get_elem?-append (λ id. ip_of (get_node_info id cache)) before id ids) in
    let port : get_elem? (map (λ id. port_of (get_node_info id cache)) c.node_ids) i
        ≡ some (port_of (get_node_info id cache)) =
      rw (e, at) (get_elem?-append (λ id. port_of (get_node_info id cache)) before id ids) in
    let rest =
      node_lines-known cache c (before ++ id ∷ []) ids (i + 1)
        (e ∙ sym (append_assoc before (id ∷ []) ids))
        (omega (arith, at, length-append before (id ∷ []))) in
    rw (ip, port, address-known_address (get_node_info id cache), rest) refl

update_node_list-known :
    (cache : Cache) (c : RemoteChunk)
    → update_node_list (chunk_location cache c) ≡ (
        if is_empty c.node_ids
        then codes "No nodes available" ∷ []
        else map (known_line cache) c.node_ids)
unfolding update_node_list chunk_location
update_node_list-known cache c =
    ap (λ l. if is_empty c.node_ids then codes "No nodes available" ∷ [] else l)
      (node_lines-known cache c [] c.node_ids 0 refl refl)

get_elem?-map :
    {A B : Type 0} (f : A → B) (xs : List A) (i : ℕ) (x : A)
    → get_elem? xs i ≡ some x
    → get_elem? (map f xs) i ≡ some (f x)
get_elem?-map f [] i x e = ground arith
get_elem?-map f (y ∷ xs) zero x e = ap some (ap f (ground (arith, e)))
get_elem?-map f (y ∷ xs) (suc i) x e = get_elem?-map f xs i x e

-- Behind `ShowChunkLocations` the viewer shows, for the chunk that is selected, one line for each of its
-- nodes, in order, with the address that the client knows of that very node, and its port if it is
-- positive; and for a chunk without nodes one line that says so.
pub on_chunk_selected-chunk_location :
    (cache : Cache) (chunks : List RemoteChunk) (index : ℕ) (c : RemoteChunk)
    → get_elem? chunks index ≡ some c
    → on_chunk_selected (map (chunk_location cache) chunks) index
      ≡ some (
          if is_empty c.node_ids
          then codes "No nodes available" ∷ []
          else map (known_line cache) c.node_ids)
unfolding on_chunk_selected
on_chunk_selected-chunk_location cache chunks index c e =
    rw (get_elem?-map (chunk_location cache) chunks index c e, on_chunk_selected)
      (ap some (update_node_list-known cache c))
