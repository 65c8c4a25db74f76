-- ===== src/Pool.antt =====
-- The pool of keep-alive connections of proxy_server_with_cache.c. Each section under a bucket's
-- lock is one step; get_from_pool is stated for a run that no other thread interrupts.
pub mod Store
pub mod Get
pub mod Bounds
pub mod Reuse
pub mod Cleanup
pub mod Connect
pub mod Shared
pub mod Buckets
pub mod Held
