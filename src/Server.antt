-- ===== src/Server.antt =====
-- automation_file/server: what a server lets a client do.
pub mod ActionAcl
