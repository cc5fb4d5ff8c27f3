-- ===== src/Rpcbind.antt =====
-- The daemon of rpcbind/: the registry of services.
pub mod Registry
