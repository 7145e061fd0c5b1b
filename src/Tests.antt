-- ===== src/Tests.antt =====
-- The theorems at concrete inputs.
pub mod Rpc
pub mod Templates
pub mod Lifecycle
pub mod Reading
pub mod Service
pub mod Links
pub mod Pages
pub mod Site
