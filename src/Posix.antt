-- ===== src/Posix.antt =====
-- The POSIX layer, api/arceos_posix_api.
pub mod Pipe
pub mod FdOps
