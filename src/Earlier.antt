-- ===== src/Earlier.antt =====
-- The earlier server, proxy_server_without_cache.c.
pub mod Cache
pub mod Bounds
pub mod Remove
pub mod Find
pub mod History
pub mod Relay
pub mod Whole
pub mod Handle
pub mod Leak
pub mod Errors
pub mod Thread
pub mod Ends
pub mod Key
pub mod Sent
pub mod Served
