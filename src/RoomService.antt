-- ===== src/RoomService.antt =====
-- apps/room-service: rooms, their members, and what members may do.
pub mod Model
pub mod Tables
pub mod Transaction
pub mod Lifecycle
pub mod Membership
pub mod Rows
pub mod Consistent
pub mod RoomRows
pub mod Operations
pub mod MemberRequests
pub mod RoomRequests
pub mod Authority
pub mod Grants
