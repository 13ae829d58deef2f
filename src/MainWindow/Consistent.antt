-- ===== src/MainWindow/Consistent.antt =====
-- The window shows what it holds, and its buttons and pointers follow the connection.
use p2p_server_file_storage.Prelude.{
  ℕ, zero, suc, ◌≡◌, refl, sym, false, not, ◌||◌, List, [], ◌∷◌, map, Option, none, some, arith,
  if_cases, if_split, subst, get_elem?, take,
}
use p2p_server_file_storage.Text.{Text, is_empty, stoi}
use p2p_server_file_storage.MainWindow.{
  FileInfo, MainWindow, created, Answers, file_item, node_item, refresh_files, refresh_nodes, atoi,
  valid_port, connect_port, connect_to_server, disconnect_from_server, get_selected_file,
  filename_at, Message, connect_button, refresh_button, selection, upload_complete, destroy,
  on_message,
}

pub record IsConsistent (w : MainWindow) : Type 0 where
  pub client : w.metadata_client ≡ w.is_connected
  pub uploads : w.upload_manager ≡ w.is_connected
  pub downloads : w.download_manager ≡ w.is_connected
  pub buttons : w.actions ≡ w.is_connected
  pub fields : w.edits ≡ not w.is_connected
  pub files_shown : w.file_items ≡ map file_item w.files
  pub nodes_shown : w.node_items ≡ map node_item w.nodes
  pub cleared : w.is_connected ≡ false → (w.files ≡ []) × (w.nodes ≡ [])

refresh_files-IsConsistent :
    (s : Answers) (w : MainWindow) → IsConsistent w → IsConsistent (refresh_files s w)
unfolding refresh_files
refresh_files-IsConsistent s w h =
    if_split IsConsistent (not w.is_connected) (λ e. h)
      (λ e. record {
        client = h.client;
        uploads = h.uploads;
        downloads = h.downloads;
        buttons = h.buttons;
        fields = h.fields;
        files_shown = refl;
        nodes_shown = h.nodes_shown;
        cleared = λ d. absurd (ground (arith, e, d));
      })

refresh_nodes-IsConsistent :
    (s : Answers) (w : MainWindow) → IsConsistent w → IsConsistent (refresh_nodes s w)
unfolding refresh_nodes
refresh_nodes-IsConsistent s w h =
    if_split IsConsistent (not w.is_connected) (λ e. h)
      (λ e. record {
        client = h.client;
        uploads = h.uploads;
        downloads = h.downloads;
        buttons = h.buttons;
        fields = h.fields;
        files_shown = h.files_shown;
        nodes_shown = refl;
        cleared = λ d. absurd (ground (arith, e, d));
      })

connect_port-IsConsistent :
    (s : Answers) (server : Text) (port : Option ℕ) (w : MainWindow)
    → w.is_connected ≡ false
    → IsConsistent w
    → IsConsistent (connect_port s server port w)
unfolding connect_port
connect_port-IsConsistent s server none w off h = h
connect_port-IsConsistent s server (some port) w off h =
    if_cases IsConsistent (not (s.reaches server port))
      (record {
        client = sym off;
        uploads = h.uploads;
        downloads = h.downloads;
        buttons = h.buttons;
        fields = h.fields;
        files_shown = h.files_shown;
        nodes_shown = h.nodes_shown;
        cleared = h.cleared;
      })
      (refresh_nodes-IsConsistent s _ (
        refresh_files-IsConsistent s _ (record {
          client = refl;
          uploads = refl;
          downloads = refl;
          buttons = refl;
          fields = refl;
          files_shown = h.files_shown;
          nodes_shown = h.nodes_shown;
          cleared = λ d. ground (arith, d);
        })))

disconnect_from_server-IsConsistent :
    (w : MainWindow) → IsConsistent w → IsConsistent (disconnect_from_server w)
unfolding disconnect_from_server
disconnect_from_server-IsConsistent w h = if_cases IsConsistent (not w.is_connected) h (record {
  client = refl;
  uploads = refl;
  downloads = refl;
  buttons = refl;
  fields = refl;
  files_shown = refl;
  nodes_shown = refl;
  cleared = λ d. (refl, refl);
})

on_message-IsConsistent :
    (s : Answers) (m : Message) (w : MainWindow) → IsConsistent w → IsConsistent (on_message s m w)
unfolding on_message connect_to_server
on_message-IsConsistent s (connect_button server port) w h =
    if_split IsConsistent w.is_connected (λ e. disconnect_from_server-IsConsistent w h)
      (λ e. if_cases IsConsistent (is_empty (take 255 server) || is_empty (take 15 port)) h (
        connect_port-IsConsistent s (take 255 server) (valid_port (atoi (stoi (take 15 port)))) w e
          h))
on_message-IsConsistent s refresh_button w h =
    refresh_nodes-IsConsistent s _ (refresh_files-IsConsistent s w h)
on_message-IsConsistent s (selection index) w h = record {
  client = h.client;
  uploads = h.uploads;
  downloads = h.downloads;
  buttons = h.buttons;
  fields = h.fields;
  files_shown = h.files_shown;
  nodes_shown = h.nodes_shown;
  cleared = h.cleared;
}
on_message-IsConsistent s (upload_complete success) w h =
    if_cases IsConsistent success
      (refresh_nodes-IsConsistent s _ (refresh_files-IsConsistent s w h)) h
on_message-IsConsistent s destroy w h = disconnect_from_server-IsConsistent w h

-- A window that has been used, whatever the server answered each time.
pub data Uses : MainWindow → Type 0 where
  fresh : Uses created
  used : {w : MainWindow} → Uses w → (s : Answers) (m : Message) → Uses (on_message s m w)

-- After any messages, and whatever the server answered to each, the three managers are there and the
-- buttons enabled exactly while the window is connected, the text fields exactly while it is not; each
-- list box shows one line for each file and each node held; and a window that is not connected holds none.
pub Uses-IsConsistent : {w : MainWindow} → Uses w → IsConsistent w
Uses-IsConsistent fresh = record {
  client = refl;
  uploads = refl;
  downloads = refl;
  buttons = refl;
  fields = refl;
  files_shown = refl;
  nodes_shown = refl;
  cleared = λ d. (refl, refl);
}
Uses-IsConsistent (used u s m) = on_message-IsConsistent s m _ (Uses-IsConsistent u)

line_of :
    (files : List FileInfo) (i : ℕ) (t : Text)
    → get_elem? (map file_item files) i ≡ some t
    → (f : FileInfo) × (get_elem? files i ≡ some f) × (t ≡ file_item f)
line_of [] i t e = ground arith
line_of (f ∷ files) zero t e = (f, refl, ground (arith, e))
line_of (f ∷ files) (suc i) t e = line_of files i t e

filename_at_found :
    (files : List FileInfo) (i : ℕ) (f : FileInfo)
    → get_elem? files i ≡ some f
    → filename_at files i ≡ f.filename
unfolding filename_at
filename_at_found files i f e = rw (e, filename_at) refl

-- In a window that has been used in any way, the line that is selected in the list box is that of the
-- file that `GetSelectedFile` gives.
pub get_selected_file_lem :
    {w : MainWindow} (u : Uses w) (i : ℕ) (t : Text)
    → get_elem? w.file_items i ≡ some t
    → (f : FileInfo) × (get_elem? w.files i ≡ some f)
      × (get_selected_file (some i) w ≡ f.filename)
      × (t ≡ file_item f)
unfolding get_selected_file filename_at
get_selected_file_lem {w} u i t e =
    let h = Uses-IsConsistent u in
    let (f, found, same) =
      line_of w.files i t (subst (λ l. get_elem? l i ≡ some t) h.files_shown e) in
    (f, found, filename_at_found w.files i f found, same)
