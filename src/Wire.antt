-- ===== src/Wire.antt =====
-- DNS messages on the wire, signer/src/wire.
pub mod Acl
pub mod Buffer
pub mod Edns
pub mod Tcpset
