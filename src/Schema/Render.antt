-- ===== src/Schema/Render.antt =====
-- The templates of cmd/inboxui/schema/render_templ.go.
pub mod Display
pub mod Inputs
pub mod Forms
pub mod Buttons
