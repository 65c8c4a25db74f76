-- ===== src/Handle.antt =====
-- handle_request of proxy_server_with_cache.c as a whole.
pub mod Upstream
pub mod Sent
pub mod Run
pub mod Untouched
pub mod Sockets
pub mod Finishes
