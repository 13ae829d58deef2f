-- ===== src/MainWindow.antt =====
-- MainWindow of client-gui/src/main_window.cpp: its connection, its lists and its layout, as a state
-- and the messages that change it. What the metadata server answers and what the dialogs give are
-- parameters; the calls of Windows that only draw, and the status bar, are left out.
pub mod Consistent
pub mod Layout
pub mod UploadName
pub mod ChunkViewer
use p2p_server_file_storage.Prelude.{
  ℕ, zero, suc, ◌/◌, Bool, true, false, not, ◌&&◌, ◌||◌, List, [], ◌∷◌, ◌++◌, map, Option, none,
  some, ltb, leb, ◌==◌, if◌then◌else◌, length, take, get_elem?, ℤ, pos, negsuc,
}
use p2p_server_file_storage.Text.{Text, codes, is_empty, to_string, int_to_string, stoi}
use p2p_server_file_storage.Client.MetadataClient.{StorageNodeInfo}

pub record FileInfo : Type 0 where
  pub filename : Text
  pub size : ℕ
  pub chunk_count : ℕ

-- `metadata_client`, `upload_manager` and `download_manager` say whether the pointers hold something;
-- `edits` and `actions` whether the text fields and the four buttons are enabled; the items are the
-- lines of the two list boxes.
pub record MainWindow : Type 0 where
  pub is_connected : Bool
  pub metadata_client : Bool
  pub upload_manager : Bool
  pub download_manager : Bool
  pub edits : Bool
  pub actions : Bool
  pub files : List FileInfo
  pub nodes : List StorageNodeInfo
  pub file_items : List Text
  pub node_items : List Text
  pub selected_file : Text

-- Behind the constructor and `OnCreate`.
abbrev pub created : MainWindow
created = record {
  is_connected = false;
  metadata_client = false;
  upload_manager = false;
  download_manager = false;
  edits = true;
  actions = false;
  files = [];
  nodes = [];
  file_items = [];
  node_items = [];
  selected_file = [];
}

-- What the metadata client answers at one moment: whether the server is reached, the files with their
-- sizes, the number of chunks of a file, and the nodes.
pub record Answers : Type 0 where
  pub reaches : Text → ℕ → Bool
  pub list_files : List (Text × ℕ)
  pub chunk_count : Text → ℕ
  pub list_nodes : List StorageNodeInfo

unfoldable pub file_item : FileInfo → Text
file_item f =
    f.filename
    ++ (codes " ("
        ++ (to_string f.size
            ++ (codes " bytes, " ++ (to_string f.chunk_count ++ codes " chunks)"))))

unfoldable pub port_text : Option ℤ → Text
port_text none = []
port_text (some p) = int_to_string p

megabytes : Option ℕ → Text
megabytes none = []
megabytes (some free_space) = to_string (free_space / 1024 / 1024)

-- Every node of the list counts as active, and its numbers are there.
unfoldable pub node_item : StorageNodeInfo → Text
unfolding megabytes
node_item n =
    let address = codes " (" ++ (n.ip_address ++ (codes ":" ++ (port_text n.port ++ codes ")"))) in
    n.node_id
    ++ ((if is_empty n.ip_address then [] else address)
        ++ (codes " - Free: " ++ (megabytes n.free_space ++ codes " MB - Active")))

unfoldable pub file_info : Answers → Text × ℕ → FileInfo
file_info s (filename, size) = record {
  filename = filename;
  size = size;
  chunk_count = s.chunk_count filename;
}

unfoldable pub refresh_files : Answers → MainWindow → MainWindow
refresh_files s w =
    let files = map (file_info s) s.list_files in
    if not w.is_connected then w else record w { files = files; file_items = map file_item files }

unfoldable pub refresh_nodes : Answers → MainWindow → MainWindow
refresh_nodes s w =
    if not w.is_connected
    then w
    else record w { nodes = s.list_nodes; node_items = map node_item s.list_nodes }

-- `atoi`, which is the number, 0 where there is none, and on Windows the nearest `int` where it is too
-- large; either way the port is refused.
atoi : Option ℤ → ℤ
atoi none = pos 0
atoi (some n) = n

-- The port, if it is in range.
valid_port : ℤ → Option ℕ
valid_port (pos n) = if ltb 0 n && leb n 65535 then some n else none
valid_port (negsuc n) = none

connect_port : Answers → Text → Option ℕ → MainWindow → MainWindow
connect_port s server none w = w
connect_port s server (some port) w =
    let connected = record w {
      metadata_client = true;
      upload_manager = true;
      download_manager = true;
      is_connected = true;
      edits = false;
      actions = true;
    } in
    if not (s.reaches server port)
    then record w { metadata_client = false }
    else refresh_nodes s (refresh_files s connected)

-- `ConnectToServer`, with the texts of the two fields: `GetWindowText` takes as much of each as its
-- buffer holds beside the end of the text.
unfoldable pub connect_to_server : Answers → Text → Text → MainWindow → MainWindow
unfolding atoi valid_port connect_port
connect_to_server s server_field port_field w =
    let server = take 255 server_field in
    let port = take 15 port_field in
    if is_empty server || is_empty port
    then w
    else connect_port s server (valid_port (atoi (stoi port))) w

unfoldable pub disconnect_from_server : MainWindow → MainWindow
disconnect_from_server w = if not w.is_connected then w else record w {
  download_manager = false;
  upload_manager = false;
  metadata_client = false;
  is_connected = false;
  edits = true;
  actions = false;
  file_items = [];
  node_items = [];
  files = [];
  nodes = [];
}

filename_at : List FileInfo → ℕ → Text
filename_at files i = elim (get_elem? files i) [ none ↦ [] | some f ↦ f.filename ]

-- `GetSelectedFile`, for the index of the selected line, `none` for LB_ERR.
unfoldable pub get_selected_file : Option ℕ → MainWindow → Text
unfolding filename_at
get_selected_file none w = []
get_selected_file (some i) w = filename_at w.files i

unfoldable pub is_separator : ℕ → Bool
is_separator c = c == b'/' || c == b'\\'

-- The part of a path behind the last separator, with the part read so far.
last_part : Text → Text → Text
unfolding is_separator
last_part [] part = part
last_part (c ∷ path) part =
    let fresh = last_part path [] in
    let longer = last_part path (part ++ c ∷ []) in if is_separator c then fresh else longer

-- The name under which `UploadFile` uploads a path.
unfoldable pub upload_name : Text → Text
unfolding last_part
upload_name path = last_part path []

-- What a thread is started for, if one is: an upload of a path under a name, a download of a name to a
-- path.
pub data Transfer : Type 0 where
  upload : Text → Text → Transfer
  download : Text → Text → Transfer

-- `UploadFile`, with what the dialog gives.
unfoldable pub upload_file : Text → MainWindow → Option Transfer
upload_file path w =
    if not w.is_connected
    then none
    else if is_empty path
    then none
    else some (upload path (upload_name path))

-- `DownloadFile`, with the selected line and what the dialog gives for a name.
unfoldable pub download_file : Option ℕ → (Text → Text) → MainWindow → Option Transfer
download_file selected dialog w =
    let filename = get_selected_file selected w in
    if not w.is_connected
    then none
    else if is_empty filename
    then none
    else if is_empty (dialog filename)
    then none
    else some (download filename (dialog filename))

-- `ViewChunks`, with the selected line: the file whose chunks `ShowChunkLocations` asks for.
unfoldable pub view_chunks : Option ℕ → MainWindow → Option Text
view_chunks selected w =
    let filename = get_selected_file selected w in
    if is_empty filename then none else if not w.is_connected then none else some filename

-- `OnClose`: whether the window is destroyed, with the answer to the question that it asks.
unfoldable pub on_close : Bool → MainWindow → Bool
on_close confirmed w = if w.is_connected then confirmed else true

-- The messages that change the window: the button that connects or disconnects, with the texts of the
-- fields; the refresh button; a line that is selected; the end of an upload; the end of the window.
pub data Message : Type 0 where
  connect_button : Text → Text → Message
  refresh_button : Message
  selection : Option ℕ → Message
  upload_complete : Bool → Message
  destroy : Message

-- `OnCommand`, the part of `WindowProc` for the end of an upload, and `OnDestroy`.
unfoldable pub on_message : Answers → Message → MainWindow → MainWindow
on_message s (connect_button server port) w =
    if w.is_connected then disconnect_from_server w else connect_to_server s server port w
on_message s refresh_button w = refresh_nodes s (refresh_files s w)
on_message s (selection index) w = record w { selected_file = get_selected_file index w }
on_message s (upload_complete success) w =
    if success then refresh_nodes s (refresh_files s w) else w
on_message s destroy w = disconnect_from_server w
