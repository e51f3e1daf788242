-- ===== src/Users.antt =====
-- apps/user-service: the profiles, a copy of the users that events keep up to date.
pub mod Profiles
pub mod Paging
pub mod Edits
