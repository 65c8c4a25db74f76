-- ===== src/Server.antt =====
-- proxy_server_with_cache.c as a whole: the accept loop, the semaphore, and any number of threads
-- over the pending table and the cache.
pub mod System
pub mod Bounds
pub mod Slots
pub mod Progress
pub mod Answers
pub mod Main
pub mod Started
