-- ===== src/Runner.antt =====
-- harness/subproc/diff_subproc_runner.c: requests, the reference, the replies and the vote.
pub mod OpenSsl
pub mod Reference
pub mod Normalize
pub mod Random
pub mod Request
pub mod Payload
pub mod Vote
pub mod Tally
pub mod Collect
pub mod Campaign
