-- ===== src/Tests.antt =====
-- Runs at concrete inputs.
mod Cache
mod Pool
mod Pending
mod Headers
mod Relay
mod Request
mod Earlier
mod EarlierThread
mod Worker
mod Server
mod Handle
mod Memory
