-- ===== src/Tests.antt =====
-- Runs of the models, and the theorems at concrete data. The floats of the tests are three values.
pub mod Sample
mod Ea
mod Pso
mod Gp
mod Ml
mod Service
mod Plan
mod Runs
mod Sse
mod Growing
mod Payload
mod Json
mod Requests
mod Server
mod Backed
mod Logger
