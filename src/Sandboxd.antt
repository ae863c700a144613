-- ===== src/Sandboxd.antt =====
-- checkpoint-restore/sandboxd: the worker's own rules, without its engines.
pub mod Memory
pub mod Credentials
pub mod Supervisor
