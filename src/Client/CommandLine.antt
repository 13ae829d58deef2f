-- ===== src/Client/CommandLine.antt =====
-- The command line client: `main` of client/src/main.cpp and Client of client/src/core/client.cpp.
-- `UploadFile`, `DownloadFile` and `TestConnection` are parameters here, whose models are in
-- UploadManager, DownloadManager and MetadataClient. The console output is left out.
pub mod Outcomes
use p2p_server_file_storage.Prelude.{
  ℕ, zero, Bool, true, false, not, ◌&&◌, ◌||◌, List, [], ◌∷◌, ◌++◌, Option, none, some, ltb,
  if◌then◌else◌, length, ℤ, pos,
}
use p2p_server_file_storage.Text.{Text, codes, is_empty, str_eq, stoi}

-- Which of its managers the client has made.
pub record Client : Type 0 where
  pub server_ip : Text
  pub server_port : ℤ
  pub metadata_client : Bool
  pub upload_manager : Bool
  pub download_manager : Bool

abbrev pub constructed : Client
constructed = record {
  server_ip = [];
  server_port = pos 0;
  metadata_client = false;
  upload_manager = false;
  download_manager = false;
}

-- What the client calls: whether the server can be reached, an upload (a path and a name) and a
-- download (a name and a path) succeed.
pub record Calls : Type 0 where
  pub test_connection : Text → ℤ → Bool
  pub upload_file : Text → Text → Bool
  pub download_file : Text → Text → Bool

unfoldable pub initialize : Calls → Text → ℤ → Client → Bool × Client
initialize calls ip port c =
    let connecting = record c { server_ip = ip; server_port = port; metadata_client = true } in
    if not (calls.test_connection ip port)
    then (false, connecting)
    else (true, record connecting { upload_manager = true; download_manager = true })

unfoldable pub shutdown : Client → Client
shutdown c = record c { metadata_client = false; upload_manager = false; download_manager = false }

-- A handler's result; `none` is a call through a pointer that holds nothing.
unfoldable pub handle_upload : Calls → Client → List Text → Option Bool
handle_upload calls c (command ∷ local_path ∷ remote_filename ∷ args) =
    if c.upload_manager then some (calls.upload_file local_path remote_filename) else none
handle_upload calls c args = some false

unfoldable pub handle_download : Calls → Client → List Text → Option Bool
handle_download calls c (command ∷ remote_filename ∷ local_path ∷ args) =
    if c.download_manager then some (calls.download_file remote_filename local_path) else none
handle_download calls c args = some false

-- An empty list of files is a success too.
unfoldable pub handle_list : Client → Option Bool
handle_list c = if c.metadata_client then some true else none

unfoldable pub is_help : Text → Bool
is_help command =
    str_eq command (codes "help") || str_eq command (codes "--help") || str_eq command (codes "-h")

unfoldable pub execute_command : Calls → Client → List Text → Option Bool
unfolding is_help
execute_command calls c [] = some false
execute_command calls c (command ∷ args) =
    if str_eq command (codes "upload")
    then handle_upload calls c (command ∷ args)
    else if str_eq command (codes "download")
    then handle_download calls c (command ∷ args)
    else if str_eq command (codes "list")
    then handle_list c
    else if is_help command
    then some true
    else some false

unfoldable pub validate_command : List Text → Bool
validate_command [] = false
validate_command (command ∷ args) =
    if str_eq command (codes "upload") && ltb (length (command ∷ args)) 3
    then false
    else not (str_eq command (codes "download") && ltb (length (command ∷ args)) 3)

-- The variables of `main`.
pub record Arguments : Type 0 where
  pub server_ip : Text
  pub server_port : ℤ
  pub verbose : Bool
  pub quiet : Bool
  pub command_args : List Text

abbrev pub no_arguments : Arguments
no_arguments = record {
  server_ip = [];
  server_port = pos 0;
  verbose = false;
  quiet = false;
  command_args = [];
}

-- How the loop over the arguments ends: it returns 1 for a port that is no number, returns 0 behind
-- the usage, or is through.
pub data Parsed : Type 0 where
  invalid_port : Parsed
  usage : Parsed
  parsed : Arguments → Parsed

-- An argument that takes no other behind it: the loop goes on (`some`) or shows the usage (`none`).
unfoldable pub single : Text → Arguments → Option Arguments
single arg a =
    if str_eq arg (codes "--verbose")
    then some (record a { verbose = true })
    else if str_eq arg (codes "--quiet")
    then some (record a { quiet = true })
    else if str_eq arg (codes "--help") || str_eq arg (codes "-h")
    then none
    else some (record a { command_args = a.command_args ++ arg ∷ [] })

-- The loop of `main`; `--server` and `--port` count as options where an argument is behind them.
unfoldable pub parse_arguments : List Text → Arguments → Parsed
parse_arguments [] a = parsed a
parse_arguments (arg ∷ []) a = elim (single arg a) [ none ↦ usage | some a' ↦ parsed a' ]
parse_arguments (arg ∷ next ∷ args) a =
    let server = parse_arguments args (record a { server_ip = next }) in
    let port = λ (p : ℤ). parse_arguments args (record a { server_port = p }) in
    let further = λ (a' : Arguments). parse_arguments (next ∷ args) a' in
    if str_eq arg (codes "--server")
    then server
    else if str_eq arg (codes "--port")
    then elim (stoi next) [ none ↦ invalid_port | some p ↦ port p ]
    else elim (single arg a) [ none ↦ usage | some a' ↦ further a' ]

unfoldable pub is_zero : ℤ → Bool
is_zero (pos zero) = true
is_zero p = false

unfoldable pub exit_code : Bool → ℕ
exit_code true = 0
exit_code false = 1

unfoldable pub finished : Option Bool → Option ℕ
unfolding exit_code
finished none = none
finished (some success) = some (exit_code success)

-- `main` from `Initialize` on.
unfoldable pub run_command : Calls → Bool × Client → List Text → Option ℕ
unfolding finished
run_command calls (connected, c) args =
    if not connected then some 1 else finished (execute_command calls c args)

-- `main` behind its loop: the exit code.
unfoldable pub run_client : Calls → Parsed → Option ℕ
unfolding is_zero run_command
run_client calls invalid_port = some 1
run_client calls usage = some 0
run_client calls (parsed a) =
    if is_empty a.server_ip || is_zero a.server_port
    then some 1
    else if is_empty a.command_args
    then some 1
    else run_command calls (initialize calls a.server_ip a.server_port constructed) a.command_args

-- `main`, for the arguments behind the name of the program.
unfoldable pub main : Calls → List Text → Option ℕ
unfolding run_client
main calls args =
    if is_empty args then some 1 else run_client calls (parse_arguments args no_arguments)
