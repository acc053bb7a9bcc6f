-- ===== src/Ea.antt =====
-- The generator for evolutionary algorithms and differential evolution (modules/ea.go).
pub mod Templates
pub mod Config
pub mod Decoding
pub mod Encoding
pub mod Parts
pub mod Program
pub mod Result
pub mod Accept
pub mod Names
pub mod Contents
