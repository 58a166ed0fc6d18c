-- ===== src/Mux.antt =====
-- crates/cxs-mux: typed streams over one Yamux connection.
pub mod Channel
pub mod Wake
pub mod Driver
pub mod Delivery
mod Tests
