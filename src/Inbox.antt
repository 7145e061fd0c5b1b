-- ===== src/Inbox.antt =====
-- The package at the repository's root.
pub mod Status
pub mod Errors
pub mod Item
pub mod Evolution
pub mod History
pub mod Panics
pub mod Tokens
pub mod Get
pub mod Events
pub mod Create
pub mod Lifecycle
pub mod Tagging
