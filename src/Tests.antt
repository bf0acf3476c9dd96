-- ===== src/Tests.antt =====
-- Runs of the model at concrete inputs.
mod Engine
pub mod Harness
mod Protocol
mod Runner
mod Timing
mod Trad
pub mod Libraries
mod Backends
mod Campaign
mod Compose
mod Pqc
mod SeqAead
mod Hpke
mod KdfChain
mod Classic
