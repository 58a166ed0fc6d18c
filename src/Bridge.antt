-- ===== src/Bridge.antt =====
-- crates/cxs-bridge: the local bridge between the desktop, its App Server and the remote host.
pub mod Errors
pub mod Backoff
pub mod Registration
pub mod Rewrite
pub mod Arguments
pub mod Lines
pub mod Handshake
pub mod Threads
pub mod Jsonl
pub mod Metadata
pub mod Host
pub mod Websocket
mod Tests
