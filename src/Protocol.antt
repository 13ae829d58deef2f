-- ===== src/Protocol.antt =====
-- ProtocolHandler of metadata-server/src/protocol_handler.cpp, and `HandleClient` of server.cpp up to
-- its response: one request and its response. A handler takes the state of both managers and gives the
-- new state and the text of the response; `none` is a call that draws ids without end, or whose
-- behaviour is undefined since it locks a mutex that it holds. What the code prints on the console is
-- left out.
mod Requests
mod Upload
pub mod Consistent
pub mod Replicas
pub mod Serving
unfoldable pub use Requests.*
unfoldable pub use Upload.*
