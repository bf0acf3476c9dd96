-- ===== src/Engine.antt =====
-- engine/cmfuzz_common.h: the generator, the reader and the oracle exits that all harnesses share.
pub mod Prng
pub mod Reader
pub mod Timing
pub mod Oracle
