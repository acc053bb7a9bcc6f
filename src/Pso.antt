-- ===== src/Pso.antt =====
-- The generator for particle swarm optimisation (modules/pso.go).
pub mod Templates
pub mod Config
pub mod Decoding
pub mod Encoding
pub mod Program
pub mod Accept
