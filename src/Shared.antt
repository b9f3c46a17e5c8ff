-- ===== src/Shared.antt =====
-- Services of the signer, signer/src/shared.
pub mod Duration
pub mod File
