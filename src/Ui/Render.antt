-- ===== src/Ui/Render.antt =====
-- The templates of the web interface: the *_templ.go files of ui. The data of a page is that of
-- `Ui.Queue` and `Ui.Detail`, and `now` is the time at which it is rendered.
pub mod Queue
pub mod Actions
pub mod Detail
pub mod Search
pub mod MyWork
pub mod Buttons
pub mod Rows
pub mod Escaping
