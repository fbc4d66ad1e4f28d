-- ===== src/Runtime.antt =====
-- pkg/runtime: the local protocol between a worker and the application process that it drives.
pub mod Server
