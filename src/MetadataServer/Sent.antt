-- ===== src/MetadataServer/Sent.antt =====
-- `HandleClient` sends a response as it is, whichever way it takes.
use mathlib.Core.Option
use p2p_server_file_storage.Prelude.{◌^◌, ◌<◌, Option, none, some, length}
use p2p_server_file_storage.Text.{Text}
use p2p_server_file_storage.Protocol.{Server}
use p2p_server_file_storage.MetadataServer.{MetadataServer}
use p2p_server_file_storage.MetadataServer.Responses.{EndsCrlf}

-- The response, if there is one, is shorter than 2^31 bytes.
abbrev pub IsShort : Option (Server × Option Text) → Type 0
IsShort none = Unit
IsShort (some (s, none)) = Unit
IsShort (some (s, some response)) = length response < 2 ^ 31

-- What holds of the response, if there is one, of a connection that returns.
abbrev pub AllCrlf : Option (Server × Option Text) → Type 0
AllCrlf none = Unit
AllCrlf (some (s, none)) = Unit
AllCrlf (some (s, some response)) = EndsCrlf response

-- The response of a connection, beside the server with its new registers.
abbrev pub in_server :
    MetadataServer → Option (Server × Option Text) → Option (MetadataServer × Option Text)
in_server m none = none
in_server m (some (s, response)) = some (record m { server = s }, response)
