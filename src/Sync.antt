-- ===== src/Sync.antt =====
-- apps/sync-service: the authoritative playback clock of a room.
pub mod Float
pub mod State
pub mod Heartbeat
pub mod Median
pub mod Drift
pub mod Room
pub mod Service
pub mod Persistence
