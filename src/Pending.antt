-- ===== src/Pending.antt =====
-- Requests in flight in proxy_server_with_cache.c: one thread fetches, others with the same key
-- wait for it.
pub mod Table
pub mod System
pub mod Inv
pub mod Walk
pub mod Refs
pub mod Ops
pub mod Safety
pub mod Keys
pub mod SingleFlight
pub mod Long
pub mod Fetched
