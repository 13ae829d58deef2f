-- ===== src/Network/Sockets.antt =====
-- A connection of its own for one exchange: the calls of the operating system that
-- client/src/core/node_client.cpp and client/src/core/metadata_client.cpp make in the same order,
-- `socket`, `inet_pton`, `connect`, `send` and `closesocket`. What it answers is a `Connection`; what
-- the code does to the socket is a list of events.
use p2p_server_file_storage.Prelude.{
  ◌≡◌, arith, ℕ, ◌-◌, ◌%◌, ◌^◌, Bool, true, false, not, List, [], ◌∷◌, Option, none, some,
  if◌then◌else◌, take, ℤ, pos, negsuc,
}
use p2p_server_file_storage.Text.{Text}
use p2p_server_file_storage.Network.{Recv, message_text}

-- What the operating system does in one exchange: whether `socket` gives a socket, `inet_pton` reads
-- an address and `connect` reaches an address and a port; what `send` takes of the command, and of
-- the data, call by call; what will arrive, and how much of it, less one byte, each `recv` of binary
-- data finds; what `recv` makes of a length that is negative as an `int` (it reads up to a number of
-- bytes, or fails); whether `data.resize` gets its memory; and what an indeterminate port holds.
pub record Connection : Type 0 where
  pub creates : Bool
  pub is_address : Text → Bool
  pub connects : Text → ℕ → Bool
  pub send : Text → Option ℕ
  pub sends : List (Option ℕ)
  pub input : List Recv
  pub grains : List ℕ
  pub large : ℕ → Option ℕ
  pub allocates : ℕ → Bool
  pub unset_port : ℤ

-- What is done to the socket: it is created, it takes bytes, it is closed.
pub data Event : Type 0 where
  opened : Event
  handed : List ℕ → Event
  closed : Event

-- The conversion of an `int` to the `uint16_t` of `htons`.
unfoldable pub port_number : ℤ → ℕ
port_number (pos n) = n % 2 ^ 16
port_number (negsuc n) = 2 ^ 16 - 1 - n % 2 ^ 16

-- `ConnectToNode` and `ConnectToServer`, for an address and a port: the result, and what was done to
-- the socket.
unfoldable pub connect_to : Connection → Text → ℕ → Bool × List Event
connect_to k ip port =
    if not k.creates
    then (false, [])
    else if not (k.is_address ip)
    then (false, opened ∷ closed ∷ [])
    else if k.connects ip port
    then (true, opened ∷ [])
    else (false, opened ∷ closed ∷ [])

-- The bytes of a message that `send` takes.
unfoldable pub taken : Text → Option ℕ → List ℕ
taken text none = []
taken text (some n) = take n text

unfoldable pub hand_over : Connection → Text → Event
unfolding taken
hand_over k command = handed (taken (message_text command) (k.send (message_text command)))

unfoldable pub ends_closed : List Event → Bool
ends_closed (handed sent ∷ events) = ends_closed events
ends_closed (closed ∷ []) = true
ends_closed events = false

-- A socket that is created is closed, once, behind everything that it is handed.
unfoldable pub settled : List Event → Bool
unfolding ends_closed
settled [] = true
settled (opened ∷ events) = ends_closed events
settled events = false

pub connect_to-settled :
    (k : Connection) (ip : Text) (port : ℕ)
    → (connect_to k ip port).0 ≡ false
    → settled (connect_to k ip port).1 ≡ true
unfolding connect_to settled
connect_to-settled k ip port e = ground (arith, e)
