-- ===== src/Protocol.antt =====
-- harness/subproc/compute_common.h: the line protocol between the differential runner and the
-- compute programs that it drives.
pub mod Hex
pub mod Decimal
pub mod Vec
pub mod Payload
pub mod Names
pub mod Ops
pub mod Stream
