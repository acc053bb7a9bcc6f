-- ===== src/Ml.antt =====
-- The generator for machine learning with evolutionary algorithms (modules/ml.go).
pub mod Config
pub mod Decoding
pub mod Encoding
pub mod Program
pub mod Contents
