-- ===== src/Examples.antt =====
-- Concrete rooms and tokens, on which the conditions of the theorems hold. Floats are the
-- fixed-point numbers of Sync/Float.
mod Data
mod Rooms
mod Playback
mod Tokens
mod Members
mod Mirrors
mod Events
mod Queues
mod Users
mod Logins
mod Accounts
mod SignIns
mod Signing
mod Restarts
mod Resolutions
