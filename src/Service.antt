-- ===== src/Service.antt =====
-- The package service/: the Connect-RPC handler in front of the inbox.
pub mod Convert
pub mod Handler
pub mod Panics
pub mod Calls
pub mod Made
pub mod Paging
pub mod Statuses
