-- ===== src/Playback.antt =====
-- apps/playback-service: the mirror of each room's authoritative state.
pub mod Room
pub mod Service
pub mod Deliveries
pub mod Authority
pub mod Mirror
pub mod Store
pub mod Convergence
pub mod Restarts
