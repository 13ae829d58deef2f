-- ===== src/MetadataServer/Lifecycle.antt =====
-- The life of the server: what `Initialize` sets up, and which connections are served.
use p2p_server_file_storage.Prelude.{
  ℕ, ◌≡◌, refl, subst, Bool, true, false, not, ◌&&◌, List, [], ◌∷◌, map, Option, none, some, arith,
  ℤ, if_cases,
}
use p2p_server_file_storage.Text.{Text}
use p2p_server_file_storage.Network.{Recv}
use p2p_server_file_storage.Network.Sockets.{port_number}
use p2p_server_file_storage.Nodes
use p2p_server_file_storage.Nodes.Queries.{
  keep_alive_round, start_keep_alive_checker, stop_keep_alive_checker,
}
use p2p_server_file_storage.Protocol.{Server, Environment, handle_client}
use p2p_server_file_storage.Protocol.Serving.{
  started, here, Run, Run-IsSound, IsSound, Serving-IsSound,
}
use p2p_server_file_storage.Protocol.Serving as Serving
use p2p_server_file_storage.MetadataServer.{
  ListenSocket, invalid, open_on, MetadataServer, constructed, System, create_listen_socket,
  with_checker, initialize, Arrival, accept_error, connection, shut_down, handled, accept_loop, run,
  respond, handle, shutdown,
}

-- What the server is after `Initialize`.
pub record IsListening (m : MetadataServer) (port : ℤ) : Type 0 where
  pub bound : m.listen_socket ≡ open_on (port_number port)
  pub checking : m.server.nodes.running ≡ true
  pub idle : m.running ≡ false

-- `Initialize` of a new server returns true exactly if no call of the operating system fails, `bind`
-- for the port modulo 2^16; the server then listens on that port and checks its nodes.
pub initialize_iff :
    (os : System) (port : ℤ)
    → ((initialize os (constructed port)).0
        ≡ (os.winsock && os.creates && os.reuses && os.binds (port_number port) && os.listens))
      × ((initialize os (constructed port)).0 ≡ true
          → IsListening (initialize os (constructed port)).1 port)
unfolding initialize create_listen_socket with_checker start_keep_alive_checker
initialize_iff os port = (
  ground arith,
  λ e. record { bound = ground (arith, e); checking = ground (arith, e); idle = ground (arith, e) },
)

-- The calls that change the server; `starts` is the point at which `Run` has begun to accept.
pub data Step (m : MetadataServer) : MetadataServer → Type 0 where
  initialized : (os : System) → Step m (initialize os m).1
  starts : Step m (record m { running = true })
  ran : (arrivals : List Arrival) {m' : MetadataServer} → (run arrivals m).0 ≡ some m' → Step m m'
  connected :
      (large : Text → Text) (env : Environment) (input : List Recv) {m' : MetadataServer}
      {reply : Option Text}
      → handle large env input m ≡ some (m', reply)
      → Step m m'
  checked : (now : ℕ) → Step m (with_checker (keep_alive_round now) m)
  shut : Step m (shutdown m)

pub data Life : MetadataServer → Type 0 where
  born : (port : ℤ) → Life (constructed port)
  lives : {m m' : MetadataServer} → Life m → Step m m' → Life m'

-- No thread is in the list, and the registers are sound.
pub record IsAlive (m : MetadataServer) : Type 0 where
  pub no_threads : m.client_threads ≡ 0
  pub sound : IsSound m.server

with_checker-IsAlive :
    (change : Nodes.NodeManager → Nodes.NodeManager) (m : MetadataServer)
    → Serving.Serving m.server (record m.server { nodes = change m.server.nodes })
    → IsAlive m
    → IsAlive (with_checker change m)
unfolding with_checker
with_checker-IsAlive change m step h = record {
  no_threads = h.no_threads;
  sound = Serving-IsSound step h.sound;
}

create_listen_socket-IsAlive :
    (os : System) (m : MetadataServer) → IsAlive m → IsAlive (create_listen_socket os m).1
unfolding create_listen_socket
create_listen_socket-IsAlive os m h = if_cases P (not os.creates) same (
    if_cases P (not os.reuses) same (
      if_cases P (not (os.binds (port_number m.port))) same
        (if_cases P (not os.listens) same same)))
  where
    P : Bool × MetadataServer → Type 0
    P r = IsAlive r.1

    same : {listen_socket : ListenSocket} → IsAlive (record m { listen_socket = listen_socket })
    same = record { no_threads = h.no_threads; sound = h.sound }

initialize-IsAlive : (os : System) (m : MetadataServer) → IsAlive m → IsAlive (initialize os m).1
unfolding initialize
initialize-IsAlive os m h =
    if_cases (λ (r : Bool × MetadataServer). IsAlive r.1) (not os.winsock) h
      (create_listen_socket-IsAlive os _
        (with_checker-IsAlive start_keep_alive_checker m Serving.start h))

shutdown-IsAlive : (m : MetadataServer) → IsAlive m → IsAlive (shutdown m)
unfolding shutdown
shutdown-IsAlive m h = if_cases IsAlive (not m.running) h (
    with_checker-IsAlive stop_keep_alive_checker
      (record m { running = false; listen_socket = invalid }) Serving.stop
      (record { no_threads = h.no_threads; sound = h.sound }))

respond-IsAlive :
    (large : Text → Text) (env : Environment) (input : List Recv) (m m' : MetadataServer)
    (reply : Option Text) (r : Option (Server × Option Text))
    → handle_client env input m.server ≡ r
    → respond large m r ≡ some (m', reply)
    → IsAlive m
    → IsAlive m'
unfolding respond
respond-IsAlive large env input m m' reply none e q h = ground arith
respond-IsAlive large env input m m' reply (some (s, none)) e q h =
    subst IsAlive {x = record m { server = s }} (ground (arith, q)) (record {
      no_threads = h.no_threads;
      sound = Serving-IsSound (Serving.connection env input e) h.sound;
    })
respond-IsAlive large env input m m' reply (some (s, some response)) e q h =
    subst IsAlive {x = record m { server = s }} (ground (arith, q)) (record {
      no_threads = h.no_threads;
      sound = Serving-IsSound (Serving.connection env input e) h.sound;
    })

step-IsAlive : {m m' : MetadataServer} → Step m m' → IsAlive m → IsAlive m'
unfolding run handle
step-IsAlive {m} (initialized os) h = initialize-IsAlive os m h
step-IsAlive starts h = record { no_threads = h.no_threads; sound = h.sound }
step-IsAlive {m} {m'} (ran arrivals e) h =
    subst IsAlive {x = shutdown (record m { running = true })} (ground (arith, e)) (
      shutdown-IsAlive (record m { running = true })
        (record { no_threads = h.no_threads; sound = h.sound }))
step-IsAlive {m} {m'} (connected large env input {reply = reply} e) h =
    respond-IsAlive large env input m m' reply (handle_client env input m.server) refl e h
step-IsAlive {m} (checked now) h =
    with_checker-IsAlive (keep_alive_round now) m (Serving.round now) h
step-IsAlive {m} shut h = shutdown-IsAlive m h

Life-IsAlive : {m : MetadataServer} → Life m → IsAlive m
Life-IsAlive (born port) = record { no_threads = refl; sound = Run-IsSound here }
Life-IsAlive (lives l s) = step-IsAlive s (Life-IsAlive l)

-- The connections that arrive before the server is shut down.
abbrev pub before_shutdown : List Arrival → List ℕ
before_shutdown [] = []
before_shutdown (accept_error ∷ arrivals) = before_shutdown arrivals
before_shutdown (connection c ∷ arrivals) = c ∷ before_shutdown arrivals
before_shutdown (shut_down ∷ arrivals) = []

accept_loop_handles :
    (arrivals : List Arrival) (m : MetadataServer)
    → m.running ≡ true
    → m.client_threads ≡ 0
    → accept_loop arrivals m ≡ map handled (before_shutdown arrivals)
unfolding accept_loop
accept_loop_handles [] m e z = refl
accept_loop_handles (accept_error ∷ arrivals) m e z =
    ground (arith, e, accept_loop_handles arrivals m e z)
accept_loop_handles (connection c ∷ arrivals) m e z =
    ground (arith, e, z, accept_loop_handles arrivals m e z)
accept_loop_handles (shut_down ∷ arrivals) m e z = refl

-- At any point of the life of a server, whatever it was asked before, `Run` starts the handling of every
-- connection that arrives before `Shutdown`, in order, and rejects none, however many are open: the
-- limit of 100 clients is never reached; and both registers are sound.
pub run-Life :
    {m : MetadataServer} (arrivals : List Arrival)
    → Life m
    → ((run arrivals m).1 ≡ map handled (before_shutdown arrivals)) × IsSound m.server
unfolding run
run-Life {m} arrivals l =
    let h = Life-IsAlive l in
    (accept_loop_handles arrivals (record m { running = true }) refl h.no_threads, h.sound)
