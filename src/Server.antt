-- ===== src/Server.antt =====
-- The tables of the server, src/server/: ban_manager.c, session_store.c and state_validator.c. Each
-- is an array of 1024 slots with a count of those in use; `Table` models the array and the count, with
-- the loops that they share.
pub mod Table
pub mod Bans
pub mod Store
pub mod Validator
pub mod Accounts
