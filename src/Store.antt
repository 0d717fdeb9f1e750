-- ===== src/Store.antt =====
-- store/: the files of a team, and the operations on them.
pub mod Segment
pub mod World
pub mod NativePending
pub mod Save
pub mod Names
pub mod Inbox
pub mod Ledger
pub mod Clear
pub mod Hooks
pub mod Credentials
