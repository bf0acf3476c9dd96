-- ===== src/Harness.antt =====
-- The fuzz harnesses of harness/: each takes the fuzzer's bytes and tests relations of a library.
pub mod World
pub mod Kem
pub mod Pqc
pub mod PqcDiff
pub mod PqcKat
pub mod Sig
pub mod Trad
pub mod Compose
pub mod SeqAead
pub mod HpkeParts
pub mod Hpke
pub mod KdfChain
pub mod Classic
pub mod SeqKem
