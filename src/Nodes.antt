-- ===== src/Nodes.antt =====
-- NodeManager of metadata-server/src/node_manager.cpp: the register of storage nodes. A method is
-- a function of the manager, of the readings of the steady clock that it takes (in ticks), and of
-- the values that the random generator hands it. `lock_guard` is left out here: each function is
-- one critical section, and Nodes.Race takes `RegisterNode` apart into its sections.
pub mod Queries
pub mod Registration
pub mod Invariant
pub mod Selection
pub mod Liveness
pub mod Race
use p2p_server_file_storage.Prelude.{
  ℕ, zero, suc, ◌+◌, ◌-◌, ◌/◌, ◌%◌, ◌≡◌, refl, Bool, true, false, not, ◌&&◌, ◌||◌, List, [], ◌∷◌,
  ◌++◌, flat_map, Option, none, some, ltb, leb, ◌==◌, if◌then◌else◌, length, take, ℤ, pos,
  is_positive, below_ℕ,
}
use p2p_server_file_storage.Text.{Text, codes, is_empty, u64_mod}
use p2p_server_file_storage.UnorderedMap.{
  UnorderedMap, find, assign, erase, modify, map_values, values,
}
use p2p_server_file_storage.Sort.{sort}

pub record StorageNode : Type 0 where
  pub node_id : Text
  pub ip_address : Text
  pub port : ℤ
  pub free_space : ℕ
  pub total_space : ℕ
  pub last_seen : ℕ
  pub registered_at : ℕ
  pub is_active : Bool
  pub chunks_stored : ℕ
  pub bytes_stored : ℕ

unfoldable pub is_valid : StorageNode → Bool
is_valid n =
    not (is_empty n.node_id)
    && not (is_empty n.ip_address)
    && is_positive n.port
    && below_ℕ n.port 65536

pub record NodeManager : Type 0 where
  pub nodes : UnorderedMap StorageNode
  pub running : Bool

abbrev pub node_timeout_sec : ℕ
node_timeout_sec = 60

abbrev pub max_nodes : ℕ
max_nodes = 1000

-- The steady clock counts nanoseconds.
abbrev pub ticks_per_sec : ℕ
ticks_per_sec = 1000000000

-- The constructor.
abbrev pub initial : NodeManager
initial = record { nodes = []; running = false }

-- What one round of `GenerateNodeId` reads: the time in milliseconds, and its random digits.
pub record Draw : Type 0 where
  pub time : ℕ
  pub random_digits : List ℕ

hex_digit : ℕ → ℕ
hex_digit d = if ltb d 10 then b'0' + d else b'a' + (d - 10)

hex_digits : ℕ → ℕ → Text → Text
hex_digits zero n out = out
hex_digits (suc f) n out =
    let more = hex_digits f (n / 16) (hex_digit (n % 16) ∷ out) in
    if n / 16 == 0 then hex_digit (n % 16) ∷ out else more

-- `ss << std::hex << n`.
to_hex : ℕ → Text
unfolding hex_digits hex_digit
to_hex n = hex_digits (suc n) n []

append_hex : List ℕ → Text
unfolding to_hex
append_hex [] = []
append_hex (d ∷ ds) = to_hex d ++ append_hex ds

unfoldable pub generate_node_id : Draw → Text
unfolding append_hex
generate_node_id d = to_hex d.time ++ append_hex (take 8 d.random_digits)

unfoldable pub validate_node_info : Text → ℤ → ℕ → Bool
validate_node_info ip port free_space =
    if is_empty ip || ltb 15 (length ip)
    then false
    else if not (is_positive port) || not (below_ℕ port 65536)
    then false
    else true

-- The loop that draws until the id is not in use; `none`: every id of the list was.
unfoldable pub unused_id : List Draw → UnorderedMap StorageNode → Option Text
unused_id [] nodes = none
unused_id (d ∷ draws) nodes = elim (find (generate_node_id d) nodes) [
  | none ↦ some (generate_node_id d)
  | some _ ↦ unused_id draws nodes
]

abbrev pub new_node : Text → Text → ℤ → ℕ → ℕ → ℕ → StorageNode
new_node id ip port free_space seen registered = record {
  node_id = id;
  ip_address = ip;
  port = port;
  free_space = free_space;
  total_space = free_space;
  last_seen = seen;
  registered_at = registered;
  is_active = true;
  chunks_stored = 0;
  bytes_stored = 0;
}

-- The manager behind `RegisterNode`, with the id that it hands out if it returns true. `none`: it
-- still draws ids when `draws` ends.
unfoldable pub register_node :
    Text → ℤ → ℕ → List Draw → ℕ → ℕ → NodeManager → Option (NodeManager × Option Text)
register_node ip port free_space draws seen registered m =
    if not (validate_node_info ip port free_space)
    then some (m, none)
    else if leb max_nodes (length m.nodes)
    then some (m, none)
    else elim (unused_id draws m.nodes) [
      | none ↦ none
      | some id ↦ some (
        record m { nodes = assign id (new_node id ip port free_space seen registered) m.nodes },
        some id,
      )
    ]

unfoldable pub unregister_node : Text → NodeManager → NodeManager × Bool
unregister_node id m = elim (find id m.nodes) [
  | none ↦ (m, false)
  | some _ ↦ (record m { nodes = erase id m.nodes }, true)
]

unfoldable pub update_node_space : Text → ℕ → NodeManager → NodeManager × Bool
update_node_space id free_space m = elim (find id m.nodes) [
  | none ↦ (m, false)
  | some _ ↦
      (record m { nodes = modify id (λ n. record n { free_space = free_space }) m.nodes }, true)
]

-- A write behind a failed lookup does not happen, which is what `modify` does on a missing key.
unfoldable pub update_node_last_seen : Text → ℕ → NodeManager → NodeManager
update_node_last_seen id now m = record m {
  nodes = modify id (λ n. record n { last_seen = now; is_active = true }) m.nodes;
}

unfoldable pub get_node : Text → NodeManager → Option StorageNode
get_node id m = find id m.nodes
