-- ===== src/Tests.antt =====
-- The theorems at concrete inputs, and runs of the definitions on them.
mod Data
mod Domain
mod Services
mod Seeds
mod Auth
mod Sessions
mod Events
mod Ws
mod Config
mod Idempotency
mod Api
mod Http
mod Heartbeat
mod Concurrent
