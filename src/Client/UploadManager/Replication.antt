-- ===== src/Client/UploadManager/Replication.antt =====
-- Each chunk of an uploaded file is on two of the nodes.
use native.Mathlib.Nat.{mod-lt, mod-eq_of_lt, mod_self, mod-add-mod}
use p2p_server_file_storage.Prelude.{
  ℕ, zero, suc, ◌+◌, ◌*◌, ◌%◌, ◌≤◌, ◌<◌, ◌≡◌, ◌≢◌, inl, inr, refl, sym, ap, ◌∙◌, Bool, true, false,
  List, [], ◌∷◌, Option, some, arith, length, get_elem?, Bool-cases, Option-cases, ltb,
}
use p2p_server_file_storage.Text.{Text, is_empty, u64_mod}
use p2p_server_file_storage.Client.ChunkProcessor.{Chunk, split_file}
use p2p_server_file_storage.Client.MetadataClient.{StorageNodeInfo}
use p2p_server_file_storage.Client.UploadManager.{
  replication_factor, node_at, select_loop, select_nodes_for_chunk, store_loop, upload_chunk,
  upload_chunks, total_size, upload_file,
}

-- Two nodes at different places of the list.
pub record IsPair (nodes : List StorageNodeInfo) (a b : StorageNodeInfo) : Type 0 where
  pub first : ℕ
  pub second : ℕ
  pub at_first : get_elem? nodes first ≡ some a
  pub at_second : get_elem? nodes second ≡ some b
  pub apart : first ≢ second

get_elem?-in_range :
    (nodes : List StorageNodeInfo) (i : ℕ)
    → i < length nodes
    → (n : StorageNodeInfo) × (get_elem? nodes i ≡ some n)
get_elem?-in_range [] i h = elim h [ ]
get_elem?-in_range (n ∷ nodes) zero h = (n, refl)
get_elem?-in_range (n ∷ nodes) (suc i) h = get_elem?-in_range nodes i (omega arith)

next_place : (b n : ℕ) → 2 ≤ n → b % n ≢ (b + 1) % n
next_place b n h e =
    let below = mod-lt b {m = n} (omega arith) in
    let next = mod-add-mod b n 1 in
    elim (Bool-cases (ltb (b % n + 1) n)) [
      | inl inside ↦
          let step : (b % n + 1) % n ≡ b % n + 1 = mod-eq_of_lt (ground arith) in
          omega (arith, step, next, e)
      | inr last ↦
          let whole : b % n + 1 ≡ n = ground (arith, below) in
          let round : (b % n + 1) % n ≡ 0 = ap (λ k. k % n) whole ∙ mod_self n in
          omega (arith, round, next, e, whole)
    ]

-- Where there are two nodes, `SelectNodesForChunk` selects two, at different places of the list.
pub select_nodes_for_chunk_lem :
    (nodes : List StorageNodeInfo) (index : ℕ)
    → 2 ≤ length nodes
    → (a b : StorageNodeInfo) × IsPair nodes a b × (select_nodes_for_chunk nodes index ≡ a ∷ b ∷ [])
unfolding select_nodes_for_chunk select_loop node_at
select_nodes_for_chunk_lem nodes index h =
    let base : ℕ = (index * replication_factor) % u64_mod in
    let even : base + 1 < u64_mod = omega arith in
    let n : ℕ = length nodes in
    let enough : ltb n replication_factor ≡ false = ground arith in
    let at_base : (base + 0) % u64_mod ≡ base = omega (arith, even) in
    let at_next : (base + 1) % u64_mod ≡ base + 1 = omega (arith, even) in
    let (a, ea) = get_elem?-in_range nodes (base % n) (mod-lt base (omega arith)) in
    let (b, eb) = get_elem?-in_range nodes ((base + 1) % n) (mod-lt (base + 1) (omega arith)) in
    (
      a,
      b,
      record {
        first = base % n;
        second = (base + 1) % n;
        at_first = ea;
        at_second = eb;
        apart = next_place base n h;
      },
      rw (enough) (rw (at_base, at_next, ea, eb, node_at) refl),
    )

module _ (store : StorageNodeInfo → Text → List ℕ → Bool) (nodes : List StorageNodeInfo) where
  -- Two nodes at different places of the list took the chunk, and the ids are theirs.
  pub record IsReplicated (c : Chunk) (ids : List Text) : Type 0 where
    pub one : StorageNodeInfo
    pub other : StorageNodeInfo
    pub pair : IsPair nodes one other
    pub one_took : store one c.chunk_id c.bytes ≡ true
    pub other_took : store other c.chunk_id c.bytes ≡ true
    pub reported : ids ≡ one.node_id ∷ other.node_id ∷ []

  abbrev pub AllReplicated : List Chunk → List (List Text) → Type 0
  AllReplicated [] [] = Unit
  AllReplicated (c ∷ cs) (ids ∷ more) = IsReplicated c ids × AllReplicated cs more
  AllReplicated cs more = ⊥

  upload_chunk_few :
      (c : Chunk)
      → ltb (length nodes) replication_factor ≡ true
      → (upload_chunk store c nodes).0 ≡ false
  unfolding upload_chunk select_nodes_for_chunk
  upload_chunk_few c h = rw (h) refl

  upload_chunk_pair :
      (c : Chunk) (a b : StorageNodeInfo)
      → select_nodes_for_chunk nodes c.index ≡ a ∷ b ∷ []
      → IsPair nodes a b
      → (upload_chunk store c nodes).0 ≡ true
      → IsReplicated c (upload_chunk store c nodes).1
  unfolding upload_chunk store_loop
  upload_chunk_pair c a b e pair h = elim (Bool-cases (store a c.chunk_id c.bytes)) [
    | inr no_a ↦ elim (Bool-cases (store b c.chunk_id c.bytes)) [
      | inr no_b ↦ ground (arith, e, no_a, no_b)
      | inl yes_b ↦ ground (arith, e, no_a, yes_b)
    ]
    | inl yes_a ↦ elim (Bool-cases (store b c.chunk_id c.bytes)) [
      | inr no_b ↦ ground (arith, e, yes_a, no_b)
      | inl yes_b ↦ record {
        one = a;
        other = b;
        pair = pair;
        one_took = yes_a;
        other_took = yes_b;
        reported = ground (arith, e, yes_a, yes_b);
      }
    ]
  ]

  -- Where `UploadChunk` returns true, two nodes at different places of the list took the chunk, and
  -- the reported ids are exactly theirs.
  pub upload_chunk_lem :
      (c : Chunk)
      → (upload_chunk store c nodes).0 ≡ true
      → IsReplicated c (upload_chunk store c nodes).1
  upload_chunk_lem c h = elim (Bool-cases (ltb (length nodes) replication_factor)) [
    | inl few ↦ absurd (cc (h, upload_chunk_few c few))
    | inr enough ↦
        let (a, b, pair, e) = select_nodes_for_chunk_lem nodes c.index (ground arith) in
        upload_chunk_pair c a b e pair h
  ]

  upload_chunks-some :
      (cs : List Chunk) (ids : List (List Text))
      → upload_chunks store cs nodes ≡ some ids
      → AllReplicated cs ids
  unfolding upload_chunks
  upload_chunks-some [] [] e = tt
  upload_chunks-some [] (i ∷ ids) e = ground arith
  upload_chunks-some (c ∷ cs) ids e = elim (Bool-cases (upload_chunk store c nodes).0) [
    | inr failed ↦ ground (arith, failed)
    | inl done ↦ elim (Option-cases (upload_chunks store cs nodes)) [
      | inl rest ↦ ground (arith, done, rest)
      | inr (more, rest) ↦
          let whole : (upload_chunk store c nodes).1 ∷ more ≡ ids = ground (arith, done, rest) in
          rw (sym whole) (upload_chunk_lem c done, upload_chunks-some cs more rest)
    ]
  ]

  upload_chunks_taken :
      (cs : List Chunk)
      → 2 ≤ length nodes
      → ((n : StorageNodeInfo) (id : Text) (bytes : List ℕ) → store n id bytes ≡ true)
      → (ids : List (List Text)) × (upload_chunks store cs nodes ≡ some ids)
  unfolding upload_chunks
  upload_chunks_taken [] h takes = ([], refl)
  upload_chunks_taken (c ∷ cs) h takes =
      let (a, b, pair, e) = select_nodes_for_chunk_lem nodes c.index h in
      let done : (upload_chunk store c nodes).0 ≡ true =
        unfold upload_chunk store_loop in
        ground (arith, e, takes a c.chunk_id c.bytes, takes b c.chunk_id c.bytes) in
      let (more, rest) = upload_chunks_taken cs h takes in
      ((upload_chunk store c nodes).1 ∷ more, rw (done, rest) refl)

-- Where `UploadFile` returns true, the file could be opened, each of its chunks was taken by two
-- nodes at different places of the list that the server gave, and the server acknowledged the file
-- with exactly these chunks and the ids of those nodes.
pub upload_file_sound :
    (sha256 : List ℕ → Text) (store : StorageNodeInfo → Text → List ℕ → Bool)
    (request : Text → ℕ → List StorageNodeInfo)
    (notify : Text → List Chunk → List (List Text) → Bool) (content : Option (List ℕ)) (name : Text)
    → (upload_file sha256 store request notify content name).0 ≡ true
    → let cs = split_file sha256 content in
      let run = upload_file sha256 store request notify content name in
      (is_empty cs ≡ false)
      × ((ids : List (List Text)) × (run.1 ≡ some ids)
          × AllReplicated store (request name (total_size cs 0)) cs ids
          × (notify name cs ids ≡ true))
unfolding upload_file
upload_file_sound sha256 store request notify content name h =
    let cs = split_file sha256 content in
    let nodes = request name (total_size cs 0) in
    elim (Option-cases (upload_chunks store cs nodes)) [
      | inl e ↦ ground (arith, e)
      | inr (ids, e) ↦ (
        ground arith,
        (ids, ground (arith, e), upload_chunks-some store nodes cs ids e, ground (arith, e)),
      )
    ]

-- Where the file has a chunk, the server gives at least two nodes and every node takes what it is
-- sent, `UploadFile` comes to the notification of the server, and its result is that of the
-- notification.
pub upload_file_taken :
    (sha256 : List ℕ → Text) (store : StorageNodeInfo → Text → List ℕ → Bool)
    (request : Text → ℕ → List StorageNodeInfo)
    (notify : Text → List Chunk → List (List Text) → Bool) (content : Option (List ℕ)) (name : Text)
    → is_empty (split_file sha256 content) ≡ false
    → 2 ≤ length (request name (total_size (split_file sha256 content) 0))
    → ((n : StorageNodeInfo) (id : Text) (bytes : List ℕ) → store n id bytes ≡ true)
    → (ids : List (List Text)) × (upload_file sha256 store request notify content name
        ≡ (notify name (split_file sha256 content) ids, some ids))
unfolding upload_file
upload_file_taken sha256 store request notify content name some_chunk h takes =
    let cs = split_file sha256 content in
    let nodes = request name (total_size cs 0) in
    let (ids, e) = upload_chunks_taken store nodes cs h takes in
    let enough : ltb (length nodes) replication_factor ≡ false = ground arith in
    (ids, rw (some_chunk, enough, e) refl)
