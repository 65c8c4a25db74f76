-- ===== src/Relay.antt =====
-- The loop of handle_request that passes an answer on to the client.
pub mod Loop
pub mod Sending
pub mod Answer
pub mod Whole
