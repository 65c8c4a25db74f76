-- ===== src/Worker.antt =====
-- thread_fn and main: what a thread receives and answers, and the loop that starts threads.
pub mod Errors
pub mod ErrorLaws
pub mod Cached
pub mod Accept
pub mod Receive
pub mod Thread
pub mod Served
pub mod Sent
