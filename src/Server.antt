-- ===== src/Server.antt =====
-- The server of common/http: its sessions, one per connection, and the listener that makes them.
pub mod Session
pub mod Listener
pub mod System
