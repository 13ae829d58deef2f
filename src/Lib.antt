-- ===== src/Lib.antt =====
-- A verification library for the peer-to-peer file storage: a metadata server that keeps a register
-- of storage nodes and a register of files, and a client that cuts a file into chunks, stores each
-- chunk on two nodes, tells the server about it, and fetches the file again. The server and the
-- client exchange lines of text over sockets.
--
-- What stands where (paths from the repository's root):
--   * Nodes: NodeManager of metadata-server/src/node_manager.cpp. `NodeManager` is its state, with
--     one function per method (`register_node` for RegisterNode, and so on; the methods that list,
--     count and check nodes are in Nodes/Queries). Nodes/Race takes RegisterNode apart into its
--     three critical sections, as threads interleave them.
--   * Files: MetadataManager of metadata-server/src/metadata_manager.cpp (`register_file`,
--     `sanitize_filename`, `delete_file`, …). Sequence is the check of chunk numbers that it shares
--     with the client.
--   * Protocol: ProtocolHandler of metadata-server/src/protocol_handler.cpp and HandleClient of
--     metadata-server/src/server.cpp. Protocol/Requests has the requests of one line
--     (`process_request`), Protocol/Upload UPLOAD_COMPLETE (`handle_upload_complete`) and
--     `handle_client`; Protocol/Consistent and Protocol/Serving follow the server over its
--     connections, Protocol/Replicas compares what it asks for with what the client cuts.
--   * MetadataServer: the server of metadata-server/src/server.cpp around the handlers: `initialize`,
--     `run` with the accept loop, `handle` for HandleClient with the sending of its response, and
--     `shutdown`; `port_argument` is from metadata-server/src/main.cpp. MetadataServer/Responses
--     and MetadataServer/Uploaded have the form of every response, MetadataServer/Lifecycle the life
--     of a server.
--   * Network: SendMessage and ReceiveMessage of common/src/network_utils.cpp; Network/Binary has
--     SendBinaryData and ReceiveBinaryData, Network/Sockets the calls around a connection.
--   * HashUtils: common/src/hash_utils.cpp, the versions for both platforms.
--   * Client: client/src/core, each component in the file of its name. MetadataClient holds the
--     requests and how the responses to upload and download are read; MetadataClient/Listing how
--     those of ListFiles and ListNodes are, MetadataClient/Exchanges each method as a whole, from the
--     connection to the result. NodeClient is the exchange with a storage node. UploadManager and
--     DownloadManager take that exchange as a parameter; their Transferred modules fill it in.
--     CommandLine is client/src/core/client.cpp with client/src/main.cpp.
--   * Session: both ends together, from the text that one sends to what the other understands
--     (`Requested` for RequestUploadNodes, `Fetched` for RequestDownload, `FileList` with `FileLines`
--     and `NodeList` for the lists, `EndToEnd` for uploads).
--   * MainWindow: the window of client-gui/src/main_window.cpp as a state and its messages;
--     MainWindow/Layout is LayoutControls, MainWindow/ChunkViewer what chunk_viewer.cpp shows.
--   * FileHandler: storage-node/src/platform/windows/windows_file_handler.cpp.
--   * Text: std::string as a list of bytes, the words and lines of the protocol, numbers in text.
--     UnorderedMap is std::unordered_map as a list of entries in the order in which it is iterated,
--     Sort is std::sort, by insertion.
--   * Prelude: names and lemmas that the files share. Tests: the theorems at concrete inputs.
--
-- Conventions. A method is a function from the state to the new state and the result. What it reads
-- from outside is an argument: readings of the steady clock (in nanoseconds), random digits, what a
-- socket delivers (a list of bytes and failures), whether a stream can be opened and written. SHA-256
-- is a parameter of ChunkProcessor; HashUtils has how the program computes it from what the platform's
-- library answers. uint64_t and size_t are natural numbers with `% 2^64` where the code adds or multiplies; counters that stay below the size of a container
-- are left without it. A length that is converted to `int` for `send` or `recv` is taken modulo 2^32;
-- what the operating system makes of one that is then negative is a parameter. A number that the code leaves uninitialised is `none`. The order of nodes or
-- chunks that std::sort finds equal is that of the stable insertion sort. Console output, progress
-- reports and socket options are left out.
--
-- Bounds and fuel. `split_file` runs on as much fuel as the file has bytes and one more, which is
-- enough since each round but the last takes a byte. `read_lines` has the 10001 rounds that the code
-- itself allows. `register_node` takes the draws of the random generator as a list, and is `none`
-- while all of them are in use. `handle_client` is `none` where a handler does not return, or
-- what it does is undefined.
-- `receive_lines`, the loop of a response of several lines, has one round more than bytes and failures
-- to come, which is enough since each line that is received takes one at least.
--
-- Not modelled: threads that run at the same time, but for RegisterNode in Nodes/Race (each handler is
-- one step, each method one critical section, and the window's transfers are only the calls that they
-- make); signal handlers; the creation, painting and dialogs of the windows, and their status bar;
-- socket options and time limits; the disks and paths of the storage node, which are interfaces
-- without an implementation, and the storage node's side of the exchanges, which is not in the
-- repository.
pub mod Prelude
pub mod Text
pub mod UnorderedMap
pub mod Sort
pub mod Nodes
pub mod Sequence
pub mod Files
pub mod Network
pub mod Protocol
pub mod Client
pub mod HashUtils
pub mod MetadataServer
pub mod FileHandler
pub mod MainWindow
pub mod Session
pub mod Tests
