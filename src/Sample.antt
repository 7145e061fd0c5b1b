-- ===== src/Sample.antt =====
-- A store in memory, a tags package over plain lists and concrete requests, at which the theorems
-- are applied.
pub mod Forms
pub mod Wire
pub mod Memory
pub mod Laws
pub mod TagSets
pub mod Requests
pub mod Links
pub mod Site
