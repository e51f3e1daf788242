-- ===== src/Media.antt =====
-- apps/media-service: the catalogue, and the queue of each room.
pub mod Queue
pub mod Service
pub mod Dense
pub mod Renumbering
pub mod Queues
pub mod Refinement
pub mod Requests
