-- ===== src/Token.antt =====
-- Presigned links: the package cmd/inboxui/token, with its page, and cmd/inboxui/tokens.go.
pub mod Signing
pub mod Respond
pub mod Page
