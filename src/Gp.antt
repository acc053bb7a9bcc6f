-- ===== src/Gp.antt =====
-- The generator for genetic programming (modules/gp.go).
pub mod Config
pub mod Decoding
pub mod Encoding
pub mod Templates
pub mod Parts
pub mod Program
pub mod Accept
pub mod Arguments
pub mod Operators
pub mod Contents
