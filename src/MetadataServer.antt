-- ===== src/MetadataServer.antt =====
-- MetadataServer of metadata-server/src/server.cpp: its life from the constructor to `Shutdown`, the
-- loop that accepts connections, and how `HandleClient` sends a response. What the operating system
-- answers is a parameter; the requests themselves are those of Protocol. The threads of the
-- connections run one after the other here, and the console output is left out.
pub mod Responses
pub mod Uploaded
pub mod Sent
pub mod Lifecycle
use p2p_server_file_storage.Prelude.{
  ℕ, ◌+◌, ◌-◌, ◌%◌, ◌^◌, Bool, true, false, not, ◌&&◌, take, List, [], ◌∷◌, Option, none, some, ltb,
  leb, ◌==◌, if◌then◌else◌, length, ℤ, pos,
}
use p2p_server_file_storage.Text.{Text, crlf, starts_with, stoi}
use p2p_server_file_storage.Nodes
use p2p_server_file_storage.Nodes.Queries.{start_keep_alive_checker, stop_keep_alive_checker}
use p2p_server_file_storage.Files
use p2p_server_file_storage.Network.{send_message, message_text, Recv}
use p2p_server_file_storage.Network.Sockets.{port_number}
use p2p_server_file_storage.Protocol.{Server, Environment, handle_client}

-- `s.find(part)`, `none` for npos.
unfoldable pub find_first : Text → Text → Option ℕ
find_first part [] = if starts_with part [] then some 0 else none
find_first part (c ∷ s) =
    let rest = find_first part s in
    if starts_with part (c ∷ s) then some 0 else elim rest [ none ↦ none | some n ↦ some (n + 1) ]

-- Whether a response is sent by `send` as it is: its first CRLF is not its end. A response with a
-- CRLF has two bytes at least.
unfoldable pub is_multiline : Text → Bool
is_multiline response = elim (find_first crlf response) [
  | none ↦ false
  | some n ↦ ltb n (length response - 2)
]

-- The text that `send` is handed where its length is converted to `int`: the text modulo 2^32 bytes,
-- and what `large` says where the length is negative as an `int`.
unfoldable pub int_sized : (Text → Text) → Text → Text
int_sized large t = let n = length t % 2 ^ 32 in if ltb n (2 ^ 31) then take n t else large t

-- The text that is handed to `send` for a response; the socket is closed behind it, whether it counts
-- as sent or not.
unfoldable pub handed_response : (Text → Text) → Text → Text
unfolding int_sized
handed_response large response =
    if is_multiline response
    then int_sized large response
    else int_sized large (message_text response)

-- The listening socket: INVALID_SOCKET, open on a port, or closed while its number is kept.
pub data ListenSocket : Type 0 where
  invalid : ListenSocket
  open_on : ℕ → ListenSocket
  stale : ListenSocket

-- `client_threads` is the size of `clientThreads`.
pub record MetadataServer : Type 0 where
  pub listen_socket : ListenSocket
  pub port : ℤ
  pub running : Bool
  pub server : Server
  pub client_threads : ℕ

abbrev pub max_clients : ℕ
max_clients = 100

-- The constructor.
abbrev pub constructed : ℤ → MetadataServer
constructed port = record {
  listen_socket = invalid;
  port = port;
  running = false;
  server = record { nodes = Nodes.initial; files = Files.initial };
  client_threads = 0;
}

-- What the operating system answers to `Initialize`: for `bind`, by the port.
pub record System : Type 0 where
  pub winsock : Bool
  pub creates : Bool
  pub reuses : Bool
  pub binds : ℕ → Bool
  pub listens : Bool

unfoldable pub create_listen_socket : System → MetadataServer → Bool × MetadataServer
create_listen_socket os m =
    let port = port_number m.port in
    if not os.creates
    then (false, record m { listen_socket = invalid })
    else if not os.reuses
    then (false, record m { listen_socket = stale })
    else if not (os.binds port)
    then (false, record m { listen_socket = stale })
    else if not os.listens
    then (false, record m { listen_socket = stale })
    else (true, record m { listen_socket = open_on port })

unfoldable pub with_checker :
    (Nodes.NodeManager → Nodes.NodeManager) → MetadataServer → MetadataServer
with_checker change m = record m { server = record m.server { nodes = change m.server.nodes } }

-- `Initialize`.
unfoldable pub initialize : System → MetadataServer → Bool × MetadataServer
unfolding with_checker
initialize os m =
    if not os.winsock
    then (false, m)
    else create_listen_socket os (with_checker start_keep_alive_checker m)

-- What ends a wait in `accept`: an error, a connection, or the closing of the listening socket by
-- `Shutdown`, which has set `running` to false.
pub data Arrival : Type 0 where
  accept_error : Arrival
  connection : ℕ → Arrival
  shut_down : Arrival

-- What becomes of a connection.
pub data Fate : Type 0 where
  handled : ℕ → Fate
  rejected : ℕ → Fate

-- `AcceptLoop`. No thread is ever put into `clientThreads`.
unfoldable pub accept_loop : List Arrival → MetadataServer → List Fate
accept_loop [] m = []
accept_loop (accept_error ∷ arrivals) m =
    let rest = accept_loop arrivals m in if m.running then rest else []
accept_loop (connection c ∷ arrivals) m =
    let rest = accept_loop arrivals m in
    if m.running
    then (if leb max_clients m.client_threads then rejected c ∷ rest else handled c ∷ rest)
    else []
accept_loop (shut_down ∷ arrivals) m = []

-- `Shutdown`, behind the end of the accepting thread.
unfoldable pub shutdown : MetadataServer → MetadataServer
unfolding with_checker
shutdown m =
    if not m.running
    then m
    else with_checker stop_keep_alive_checker
        (record m { running = false; listen_socket = invalid })

-- Whether `Shutdown` comes while the loop runs, which ends it.
unfoldable pub ends : List Arrival → Bool
ends [] = false
ends (shut_down ∷ arrivals) = true
ends (accept_error ∷ arrivals) = ends arrivals
ends (connection c ∷ arrivals) = ends arrivals

-- `Run`: the server behind it, which the `Shutdown` of another thread has been called on, `none` where
-- the accepting thread still waits; and the fates of the connections that arrive while it runs.
unfoldable pub run : List Arrival → MetadataServer → Option MetadataServer × List Fate
run arrivals m =
    let started = record m { running = true } in
    (if ends arrivals then some (shutdown started) else none, accept_loop arrivals started)

unfoldable pub respond :
    (Text → Text)
    → MetadataServer
    → Option (Server × Option Text)
    → Option (MetadataServer × Option Text)
respond large m none = none
respond large m (some (s, none)) = some (record m { server = s }, none)
respond large m (some (s, some response)) =
    some (record m { server = s }, some (handed_response large response))

-- `HandleClient`, in a thread of its own: the new state, the text handed to the socket, if any; `none`
-- is a request that `handle_client` does not answer.
unfoldable pub handle :
    (Text → Text) → Environment → List Recv → MetadataServer → Option (MetadataServer × Option Text)
unfolding respond
handle large env input m = respond large m (handle_client env input m.server)

-- The port of `main`: `none` where it returns 1 for an argument that is no number.
unfoldable pub port_argument : List Text → Option ℤ
port_argument (program ∷ w ∷ args) = stoi w
port_argument args = some (pos 8080)
