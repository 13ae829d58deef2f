-- ===== src/Session.antt =====
-- The client and the server together: what one writes is what the other reads.
pub mod UploadComplete
pub mod EndToEnd
pub mod Download
pub mod Served
pub mod Offered
pub mod Requested
pub mod Header
pub mod NodeList
pub mod FileLines
pub mod FileList
pub mod Fetched
