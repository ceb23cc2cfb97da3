-- ===== src/Nla.antt =====
-- nla/: what is modelled of the authentication.
pub mod Crypto
pub mod Der
pub mod Credssp
