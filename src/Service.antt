-- ===== src/Service.antt =====
-- api/service: operations that join the manager, the store and the broker.
pub mod Retrier
pub mod Playlist
