-- ===== src/Backend.antt =====
-- The compute programs harness/subproc/compute_*.c: one reply line for each request line.
pub mod Serve
pub mod Contract
pub mod Nettle
pub mod AwsLc
pub mod BoringSsl
pub mod Libgcrypt
pub mod Wolfssl
