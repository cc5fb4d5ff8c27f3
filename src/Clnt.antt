-- ===== src/Clnt.antt =====
-- The client's end of libsrc: calls over a connection, and what authenticates them.
pub mod Auth
pub mod Vc
