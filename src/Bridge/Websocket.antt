-- ===== src/Bridge/Websocket.antt =====
-- crates/cxs-bridge/src/lib.rs: `relay_websocket`, between the desktop's WebSocket, the local App
-- Server and the remote Host App Server.
pub mod Session
pub mod Client
pub mod Server
pub mod Host
pub mod Turn
pub mod Kept
pub mod Queue
pub mod Turns
