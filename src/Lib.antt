-- ===== src/Lib.antt =====
-- Verification of the C part of cmfuzz: what its oracles report, and that what they compare is what
-- they mean to compare.
--
-- The program. A fuzz harness (cmfuzz/harness/*_harness.c) takes the fuzzer's bytes, seeds the
-- generator of cmfuzz/engine/cmfuzz_common.h with them, calls a cryptographic library and tests
-- relations between the results; a relation that fails is printed and the process aborts. The
-- differential runner (cmfuzz/harness/subproc/diff_subproc_runner.c) makes requests, computes each
-- with OpenSSL, sends them to backend processes in the line protocol of
-- cmfuzz/harness/subproc/compute_common.h, and lets the replies vote.
--
-- The files.
--   Base, Base/...            shared names; lists, Boolean tests, bit operations, integers, texts.
--   Engine/Prng               cmf_splitmix64, cmf_prng_seed, cmf_randombytes; the global state is
--                             passed in and out. Stream: lengths and states; Inject: injectivity.
--   Engine/Reader             cmf_reader_t, cmf_reader_init, cmf_u8, cmf_u32, cmf_rest.
--   Engine/Oracle             CMF_VIOLATION and CMF_ASSERT, as the ways a run can end.
--   Engine/Timing             the statistics and the verdict of cmfuzz/engine/ct_dudect.c, and the naive
--                             comparisons of cmfuzz/engine/ct_dudect_trad.c.
--   Protocol/Hex              cmf_hexval, cmf_hexdecode, cmf_hexprint, and tohex of the runner.
--   Protocol/Decimal          atoi and "%d", as ISO C describes them.
--   Protocol/Vec              cmf_vec_t and cmf_vec_parse.
--   Protocol/Payload          cmf_verify_parse.
--   Protocol/Ops              what each op promises, by the comment of compute_common.h.
--   Protocol/Stream           getline and the C string in its buffer, as POSIX describes them.
--   Backend/Serve             the request loop that the compute programs share.
--   Backend/Contract          what a backend owes the runner.
--   Backend/AwsLc             cmfuzz/harness/subproc/compute_aws_lc.c.
--   Backend/BoringSsl         cmfuzz/harness/subproc/compute_boringssl.c.
--   Backend/Libgcrypt         cmfuzz/harness/subproc/compute_libgcrypt.c.
--   Backend/Nettle            cmfuzz/harness/subproc/compute_nettle.c.
--   Backend/Wolfssl           cmfuzz/harness/subproc/compute_wolfssl.c.
--   Harness/World             the state a harness runs in, and its early ends, as a monad.
--   Harness/Kem               cmfuzz/harness/liboqs_kem_harness.c.
--   Harness/Sig               cmfuzz/harness/liboqs_sig_harness.c.
--   Harness/Pqc               what the two programs that compare liboqs with PQClean share.
--   Harness/PqcDiff           cmfuzz/harness/pqc_diff_harness.c.
--   Harness/PqcKat            cmfuzz/harness/pqc_kat_harness.c.
--   Harness/Trad              cmfuzz/harness/trad_metamorphic_harness.c.
--   Harness/Compose           cmfuzz/harness/comp_trad_harness.c.
--   Harness/SeqKem            cmfuzz/harness/seq_pqc_harness.c.
--   Harness/Classic           cmfuzz/harness/openssl_classic_harness.c.
--   Harness/SeqAead           cmfuzz/harness/seq_aead_harness.c.
--   Harness/HpkeParts         the KEMs, the key schedule and the cipher of
--                             cmfuzz/harness/comp_hpke_harness.c.
--   Harness/Hpke              their composition, in the same file.
--   Harness/KdfChain          cmfuzz/harness/comp_kdfchain_harness.c.
--   Runner/OpenSsl            the OpenSSL calls of the runner, as a record of functions.
--   Runner/Reference          ref_digest to ref_x25519, and ref_compute.
--   Runner/Normalize          x25519_normalize.
--   Runner/Random             rnd and rnd_bytes.
--   Runner/Request            the drawing of one vector, its request line and the reference's reply.
--   Runner/Payload            ecdsa_make_payload and rsa_make_payload.
--   Runner/Vote               the oracle on one vector: who votes, and what is reported.
--   Runner/Tally              failures, ref_outlier, bdiv, and the exit status of main.
--   Runner/Collect            the reading of a backend's replies.
--   Runner/Campaign           main from the seed to the exit status.
--   Tests/...                 runs at concrete inputs.
--
-- How code corresponds to definitions. A byte buffer is a list of numbers, and its length field is
-- the length of the list. A uint64_t is a number with its wrap-around written out. A function that
-- returns -1 or NULL returns none. A call that changes global state takes the state and returns
-- it. A C string is the list of its codes without the final NUL. Where malloc can fail and the code
-- goes on, the answer of malloc is an argument.
--
-- Bounds and fuel. cmf_randombytes runs on fuel n for n bytes, since each round writes at least
-- one; the printing of a decimal runs on the number itself; the request loop of a compute program
-- runs on one more than the bytes of its input, since getline reads at least one. The chunks of
-- the classic digest run on the length of the message, since a chunk has one byte at least. The other
-- loops are recursions on their list or counter.
--
-- Floats. There are none here: the doubles of the timing tests are a record of operations, and the
-- theorem about them names the order laws that it uses.
--
-- Libraries. OpenSSL, liboqs, PQClean, aws-lc, BoringSSL, libgcrypt, nettle and wolfSSL are not
-- part of the repository: they are records of functions, one for each call of the source, and
-- theorems name what they ask of them (output sizes; that decapsulation, verification and the EVP
-- calls depend on their arguments only; that the calls, in the order in which the code makes them,
-- compute the function that a standard defines). The switches and functions of the compute programs
-- are in these files, so an op, an argument or a length that is mixed up breaks their theorems. What
-- is asked of the libraries of the backends is asked for the sizes that their manuals permit only.
--
-- Fixed arrays. The compute programs write each result to an array `out` of main without a test of
-- its length, so serve takes the size of the array and has no result where one does not fit. A
-- computation that fails is taken to have written nothing behind it.
--
-- Not modelled: the bytes that X25519 reads behind a message of fewer than 32; process handling and files in the runner, the measuring loops of
-- cmfuzz/engine, the harnesses that have no file above, the self-test hooks that corrupt a comparison
-- on purpose, and everything in other languages. The unsequenced draws in the tampering of payloads
-- are taken in the order index, then bit.
pub mod Base
pub mod Engine
pub mod Protocol
pub mod Harness
pub mod Backend
pub mod Runner
pub mod Tests
