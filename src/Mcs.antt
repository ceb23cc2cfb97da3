-- ===== src/Mcs.antt =====
-- mcs/: the ASN.1 primitives and the PDUs of the Multipoint Communication Service.
pub mod Ber
pub mod Per
pub mod Domain
pub mod Connect
