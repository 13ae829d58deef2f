-- ===== src/Protocol/Serving.antt =====
-- The server over many connections, one behind the other, with the rounds of the checking thread
-- between them. Connections are served by threads, which is left out here; Nodes.Race has the threads
-- that register nodes at the same time.
use p2p_server_file_storage.Prelude.{ℕ, ◌≡◌, List, Option, some, subst}
use p2p_server_file_storage.Text.{Text}
use p2p_server_file_storage.Network.{Recv}
use p2p_server_file_storage.Nodes
use p2p_server_file_storage.Nodes.Queries.{
  keep_alive_round, start_keep_alive_checker, stop_keep_alive_checker,
}
use p2p_server_file_storage.Nodes.Invariant as NodeCalls
use p2p_server_file_storage.Nodes.Invariant.{IsConsistent, Step-IsConsistent, Reach-IsConsistent}
use p2p_server_file_storage.Files
use p2p_server_file_storage.Files.Invariant as FileCalls
use p2p_server_file_storage.Files.Invariant.{IsAccurate, Step-IsAccurate, Reach-IsAccurate}
use p2p_server_file_storage.Protocol.Requests.{Server, Environment}
use p2p_server_file_storage.Protocol.Upload.{handle_client}
use p2p_server_file_storage.Protocol.Consistent.{IsCalls, Calls, handle_client-Calls}

-- The server as its constructor leaves it.
abbrev pub started : Server
started = record { nodes = Nodes.initial; files = Files.initial }

pub data Serving (s : Server) : Server → Type 0 where
  -- A connection that delivers these bytes, and whose handling returns.
  connection :
      (env : Environment) (input : List Recv) {s' : Server} {reply : Option Text}
      → handle_client env input s ≡ some (s', reply)
      → Serving s s'
  -- The checking thread is started, makes a round, and is stopped.
  start : Serving s (record s { nodes = start_keep_alive_checker s.nodes })
  round : (now : ℕ) → Serving s (record s { nodes = keep_alive_round now s.nodes })
  stop : Serving s (record s { nodes = stop_keep_alive_checker s.nodes })

pub data Run : Server → Type 0 where
  here : Run started
  next : {s s' : Server} → Run s → Serving s s' → Run s'

pub record IsSound (s : Server) : Type 0 where
  pub nodes : IsConsistent s.nodes
  pub files : IsAccurate s.files

NodeCalls-IsConsistent :
    {m m' : Nodes.NodeManager} → NodeCalls.Reach m m' → IsConsistent m → IsConsistent m'
NodeCalls-IsConsistent NodeCalls.here c = c
NodeCalls-IsConsistent (NodeCalls.next r s) c = Step-IsConsistent s (NodeCalls-IsConsistent r c)

FileCalls-IsAccurate :
    {m m' : Files.MetadataManager} → FileCalls.Reach m m' → IsAccurate m → IsAccurate m'
FileCalls-IsAccurate FileCalls.here c = c
FileCalls-IsAccurate (FileCalls.next r s) c = Step-IsAccurate s (FileCalls-IsAccurate r c)

calls-IsSound : {s s' : Server} → IsCalls s s' → IsSound s → IsSound s'
calls-IsSound c h = record {
  nodes = NodeCalls-IsConsistent c.nodes h.nodes;
  files = FileCalls-IsAccurate c.files h.files;
}

pub Serving-IsSound : {s s' : Server} → Serving s s' → IsSound s → IsSound s'
Serving-IsSound {s} {s'} (connection env input {reply = reply} e) h =
    calls-IsSound (subst (Calls s) e (handle_client-Calls env s input)) h
Serving-IsSound start h = record {
  nodes = Step-IsConsistent NodeCalls.start h.nodes;
  files = h.files;
}
Serving-IsSound (round now) h = record {
  nodes = Step-IsConsistent (NodeCalls.round now) h.nodes;
  files = h.files;
}
Serving-IsSound stop h = record {
  nodes = Step-IsConsistent NodeCalls.stop h.nodes;
  files = h.files;
}

-- Whatever bytes the connections deliver, served one after the other, and however the rounds of the
-- checking thread fall between them, the registers of a server that was started empty stay consistent: at most 1000 nodes, each
-- valid under its own id; and each file under a clean name, with valid chunks numbered 0, 1, … that
-- make up its size modulo 2^64.
pub Run-IsSound : {s : Server} → Run s → IsSound s
Run-IsSound here = record {
  nodes = Reach-IsConsistent NodeCalls.here;
  files = Reach-IsAccurate FileCalls.here;
}
Run-IsSound (next r s) = Serving-IsSound s (Run-IsSound r)
