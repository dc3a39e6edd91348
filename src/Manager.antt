-- ===== src/Manager.antt =====
-- api/manager: what the server and the worker do with urls. A call on the store works on the
-- database's part of the state, a call on the broker on the part of Redis.
pub mod Server
pub mod Worker
