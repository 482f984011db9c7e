-- ===== src/Tcp.antt =====
-- The lock service over TCP, litl2/src/tcp_client.c and tcp_server.c.
pub mod Service
pub mod Exclusion
pub mod Ownership
pub mod Safety
