-- ===== src/Rpc.antt =====
-- gen/inbox/v1/inboxv1connect/service.connect.go and service/local.go: the procedures of the
-- service, its client and its HTTP handler, and the client that calls the handler in-process.
pub mod Procedure
pub mod Connect
pub mod Client
pub mod Server
pub mod Local
pub mod Routing
