-- ===== src/Svc.antt =====
-- svc.c: the services.
pub mod Runnable
pub mod Spawn
pub mod Register
pub mod Exec
pub mod Cascade
pub mod Events
pub mod Evolve
pub mod React
pub mod Serviced
