-- ===== src/Server.antt =====
-- api/server and api/server.go: the HTTP interface.
pub mod Http
pub mod Number
pub mod Mux
pub mod Routes
pub mod Handler
pub mod Middleware
pub mod Api
