-- ===== src/Signer.antt =====
-- The zone data of the signer, signer/src/signer.
pub mod Ixfr
pub mod Domain
pub mod Rrset
pub mod Serial
