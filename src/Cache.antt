-- ===== src/Cache.antt =====
-- The response cache of proxy_server_with_cache.c: elements on an explicit heap, a doubly linked
-- list in order of use, and a hash table of bucket chains.
pub mod Store
pub mod Lru
pub mod Ops
pub mod Order
pub mod Linked
pub mod Refine
pub mod Evict
pub mod Add
pub mod Lookup
pub mod History
