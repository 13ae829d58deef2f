-- ===== src/Client/CommandLine/Outcomes.antt =====
-- What `main` returns.
use p2p_server_file_storage.Prelude.{
  ℕ, zero, suc, ◌<◌, ◌≤◌, ◌^◌, ◌≡◌, refl, sym, ap, ◌∙◌, Bool, true, false, not, ◌&&◌, ◌||◌, List,
  [], ◌∷◌, ◌++◌, append-nil, append_assoc, Option, none, some, arith, All, Bool-cases, if_cases,
  inl, inr, pos, ℤ,
}
use p2p_server_file_storage.Text.{Text, codes, is_empty, str_eq, stoi, int_to_string}
use p2p_server_file_storage.Text.Decimal.{stoi-int_to_string}
use p2p_server_file_storage.Client.CommandLine.{
  Client, constructed, Calls, initialize, handle_upload, handle_download, handle_list,
  execute_command, validate_command, Arguments, no_arguments, Parsed, invalid_port, usage, parsed,
  single, parse_arguments, is_zero, exit_code, is_help, finished, run_command, run_client, main,
}

-- A command call that returns, and a client whose managers are there.
abbrev Returns : Option Bool → Type 0
Returns r = (success : Bool) × (r ≡ some success)

record IsReady (c : Client) : Type 0 where
  metadata : c.metadata_client ≡ true
  upload : c.upload_manager ≡ true
  download : c.download_manager ≡ true

handle_upload-Returns :
    (calls : Calls) (c : Client) (args : List Text)
    → IsReady c
    → Returns (handle_upload calls c args)
unfolding handle_upload
handle_upload-Returns calls c [] h = (false, refl)
handle_upload-Returns calls c (a ∷ []) h = (false, refl)
handle_upload-Returns calls c (a ∷ b ∷ []) h = (false, refl)
handle_upload-Returns calls c (a ∷ b ∷ d ∷ args) h =
    (calls.upload_file b d, rw (h.upload, handle_upload) refl)

handle_download-Returns :
    (calls : Calls) (c : Client) (args : List Text)
    → IsReady c
    → Returns (handle_download calls c args)
unfolding handle_download
handle_download-Returns calls c [] h = (false, refl)
handle_download-Returns calls c (a ∷ []) h = (false, refl)
handle_download-Returns calls c (a ∷ b ∷ []) h = (false, refl)
handle_download-Returns calls c (a ∷ b ∷ d ∷ args) h =
    (calls.download_file b d, rw (h.download, handle_download) refl)

handle_list-Returns : (c : Client) → IsReady c → Returns (handle_list c)
unfolding handle_list
handle_list-Returns c h = (true, rw h.metadata refl)

execute_command-Returns :
    (calls : Calls) (c : Client) (args : List Text)
    → IsReady c
    → Returns (execute_command calls c args)
unfolding execute_command
execute_command-Returns calls c [] h = (false, refl)
execute_command-Returns calls c (command ∷ args) h =
    if_cases Returns (str_eq command (codes "upload"))
      (handle_upload-Returns calls c (command ∷ args) h)
      (if_cases Returns (str_eq command (codes "download"))
        (handle_download-Returns calls c (command ∷ args) h)
        (if_cases Returns (str_eq command (codes "list")) (handle_list-Returns c h)
          (if_cases Returns (is_help command) (true, refl) (false, refl))))

-- An exit code.
abbrev Exits : Option ℕ → Type 0
Exits r = (code : ℕ) × (r ≡ some code) × (code ≤ 1)

finished-Exits : (r : Option Bool) → Returns r → Exits (finished r)
unfolding finished exit_code
finished-Exits none (success, e) = cc
finished-Exits (some true) h = (0, refl, omega arith)
finished-Exits (some false) h = (1, refl, omega arith)

run_command-Exits :
    (calls : Calls) (ip : Text) (port : ℤ) (args : List Text)
    → Exits (run_command calls (initialize calls ip port constructed) args)
unfolding run_command initialize
run_command-Exits calls ip port args = elim (Bool-cases (calls.test_connection ip port)) [
  | inr e ↦ rw e (1, refl, omega arith)
  | inl e ↦ rw e (
      finished-Exits _ (
        execute_command-Returns calls _ args
          (record { metadata = refl; upload = refl; download = refl })))
]

run_client-Exits : (calls : Calls) (p : Parsed) → Exits (run_client calls p)
unfolding run_client
run_client-Exits calls invalid_port = (1, refl, omega arith)
run_client-Exits calls usage = (0, refl, omega arith)
run_client-Exits calls (parsed a) =
    if_cases Exits (is_empty a.server_ip || is_zero a.server_port) (1, refl, omega arith)
      (if_cases Exits (is_empty a.command_args) (1, refl, omega arith)
        (run_command-Exits calls a.server_ip a.server_port a.command_args))

main-Exits : (calls : Calls) (args : List Text) → Exits (main calls args)
unfolding main
main-Exits calls args =
    if_cases Exits (is_empty args) (1, refl, omega arith)
      (run_client-Exits calls (parse_arguments args no_arguments))

refused :
    (calls : Calls) (c : Client) (words : List Text)
    → validate_command words ≡ false
    → execute_command calls c words ≡ some false
unfolding validate_command execute_command handle_upload handle_download
refused calls c [] e = refl
refused calls c (command ∷ []) e = ground (arith, e)
refused calls c (command ∷ b ∷ []) e = ground (arith, e)
refused calls c (command ∷ b ∷ d ∷ words) e = ground (arith, e)

-- Whatever the arguments, `main` calls nothing through an empty pointer and returns 0 or 1; and a
-- command that `ValidateCommand` refuses fails with nothing called, whatever the client holds.
pub main_returns :
    (calls : Calls) (args : List Text)
    → ((code : ℕ) × (main calls args ≡ some code) × (code ≤ 1))
      × ((c : Client) (words : List Text)
          → validate_command words ≡ false
          → execute_command calls c words ≡ some false)
main_returns calls args = (main-Exits calls args, refused calls)

-- An argument that `main` takes for a part of the command wherever it stands.
unfoldable pub is_plain : Text → Bool
is_plain w = not (
    str_eq w (codes "--server")
    || str_eq w (codes "--port")
    || str_eq w (codes "--verbose")
    || str_eq w (codes "--quiet")
    || str_eq w (codes "--help")
    || str_eq w (codes "-h"))

single-is_plain :
    (w : Text) (a : Arguments)
    → is_plain w ≡ true
    → single w a ≡ some (record a { command_args = a.command_args ++ w ∷ [] })
unfolding single is_plain
single-is_plain w a h = ground (arith, h)

parse_arguments-is_plain :
    (words : List Text) (a : Arguments)
    → All (λ w. is_plain w ≡ true) words
    → parse_arguments words a ≡ parsed (record a { command_args = a.command_args ++ words })
unfolding parse_arguments
parse_arguments-is_plain [] a h =
    ap (λ l. parsed (record a { command_args = l })) (sym (append-nil a.command_args))
parse_arguments-is_plain (w ∷ []) a h = rw (single-is_plain w a h.0, parse_arguments) refl
parse_arguments-is_plain (w ∷ v ∷ words) a h =
    let rest =
      parse_arguments-is_plain (v ∷ words) (record a { command_args = a.command_args ++ w ∷ [] })
        h.1 in
    let no_server : str_eq w (codes "--server") ≡ false = unfold is_plain in ground (arith, h.0) in
    let no_port : str_eq w (codes "--port") ≡ false = unfold is_plain in ground (arith, h.0) in
    rw (no_server, no_port, single-is_plain w a h.0, parse_arguments)
      (rest
        ∙ ap (λ l. parsed (record a { command_args = l }))
            (append_assoc a.command_args (w ∷ []) (v ∷ words)))

abbrev pub options : Text → ℕ → List Text → List Text
options ip port words = codes "--server" ∷ ip ∷ codes "--port" ∷ int_to_string (pos port) ∷ words

parse_arguments_server :
    (ip : Text) (words : List Text) (a : Arguments)
    → parse_arguments (codes "--server" ∷ ip ∷ words) a
      ≡ parse_arguments words (record a { server_ip = ip })
unfolding parse_arguments str_eq
parse_arguments_server ip words a = refl

parse_arguments_port :
    (next : Text) (p : ℤ) (words : List Text) (a : Arguments)
    → stoi next ≡ some p
    → parse_arguments (codes "--port" ∷ next ∷ words) a
      ≡ parse_arguments words (record a { server_port = p })
unfolding parse_arguments str_eq
parse_arguments_port next p words a e = rw (e, parse_arguments) refl

parse_arguments-options :
    (ip : Text) (port : ℕ) (words : List Text)
    → port < 2 ^ 31
    → All (λ w. is_plain w ≡ true) words
    → parse_arguments (options ip port words) no_arguments
      ≡ parsed
          (record no_arguments { server_ip = ip; server_port = pos port; command_args = words })
parse_arguments-options ip port words fits h =
    parse_arguments_server ip (codes "--port" ∷ int_to_string (pos port) ∷ words) no_arguments
    ∙ parse_arguments_port (int_to_string (pos port)) (pos port) words
        (record no_arguments { server_ip = ip }) (stoi-int_to_string port fits)
    ∙ parse_arguments-is_plain words
        (record no_arguments { server_ip = ip; server_port = pos port }) h

is_zero-false : (port : ℕ) → 0 < port → is_zero (pos port) ≡ false
unfolding is_zero
is_zero-false zero h = absurd (omega (arith, h))
is_zero-false (suc port) h = refl

module _ (calls : Calls) (ip : Text) (port : ℕ) where
  main-options :
      (words : List Text)
      → is_empty ip ≡ false
      → 0 < port
      → port < 2 ^ 31
      → is_empty words ≡ false
      → All (λ w. is_plain w ≡ true) words
      → main calls (options ip port words)
        ≡ run_command calls (initialize calls ip (pos port) constructed) words
  unfolding main run_client
  main-options words named some_port fits some_words h =
      ap (run_client calls) (parse_arguments-options ip port words fits h)
      ∙ rw (named, is_zero-false port some_port, some_words) refl

-- With `--server` and `--port` in front, a port between 1 and 2^31 - 1 and arguments that are not
-- options themselves, `main` returns 0 for `upload` exactly if the server is reached and `UploadFile`
-- succeeds for the path and the name in this order, and for `download` exactly if the server is reached
-- and `DownloadFile` succeeds for the name and the path.
pub main_commands :
    (calls : Calls) (ip local remote : Text) (port : ℕ)
    → is_empty ip ≡ false
    → 0 < port
    → port < 2 ^ 31
    → is_plain local ≡ true
    → is_plain remote ≡ true
    → let reached = calls.test_connection ip (pos port) in
      (main calls (options ip port (codes "upload" ∷ local ∷ remote ∷ []))
        ≡ some (exit_code (reached && calls.upload_file local remote)))
      × (main calls (options ip port (codes "download" ∷ remote ∷ local ∷ []))
          ≡ some (exit_code (reached && calls.download_file remote local)))
unfolding run_command initialize execute_command handle_upload handle_download finished is_plain
    str_eq exit_code
main_commands calls ip local remote port named some_port fits hl hr =
    elim (Bool-cases (calls.test_connection ip (pos port))) [
      | inl e ↦ (
        main-options calls ip port (codes "upload" ∷ local ∷ remote ∷ []) named some_port fits refl
              (refl, (hl, (hr, tt)))
            ∙ rw e refl,
        main-options calls ip port (codes "download" ∷ remote ∷ local ∷ []) named some_port fits
              refl (refl, (hr, (hl, tt)))
            ∙ rw e refl,
      )
      | inr e ↦ (
        main-options calls ip port (codes "upload" ∷ local ∷ remote ∷ []) named some_port fits refl
              (refl, (hl, (hr, tt)))
            ∙ rw e refl,
        main-options calls ip port (codes "download" ∷ remote ∷ local ∷ []) named some_port fits
              refl (refl, (hr, (hl, tt)))
            ∙ rw e refl,
      )
    ]
