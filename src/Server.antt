-- ===== src/Server.antt =====
-- src/recallpack/demo_server.py: how an HTTP request for an observation becomes a request of the library.
pub mod Request
pub mod Checked
pub mod Reply
mod Tests
