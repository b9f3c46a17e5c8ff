-- ===== src/Daemon.antt =====
-- The signer's daemon, signer/src/daemon.
pub mod Worker
pub mod Crew
pub mod Work
