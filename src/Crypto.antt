-- ===== src/Crypto.antt =====
-- The cryptography of the program, over the curve and the hash functions of the @noble libraries.
pub mod Shamir
pub mod Power
pub mod Congruence
pub mod Lagrange
pub mod Interpolated
pub mod Difference
pub mod Coefficient
pub mod Reconstructed
pub mod Euclid
pub mod Bezout
pub mod Inverse
pub mod Encoded
pub mod Frost
pub mod Hex
pub mod Aead
pub mod Toprf
