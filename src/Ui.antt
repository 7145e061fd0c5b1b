-- ===== src/Ui.antt =====
-- The package ui/: the pages and actions of the web interface, and the components that show them.
pub mod Durations
pub mod Labels
pub mod Convert
pub mod Filters
pub mod Queue
pub mod Render
pub mod Detail
pub mod Actions
pub mod Layout
pub mod Config
pub mod Server
