-- ===== src/Harness/Sig.antt =====
-- harness/liboqs_sig_harness.c, without its self-test hook CMF_FAULT_MR3.
pub mod Relations
use Prim.Native.String.{String}
use cmfuzz.Base.{
  ℕ, zero, suc, ◌+◌, ◌%◌, List, [], ◌∷◌, Option, none, some, Bool, true, false, not, ◌&&◌, ltb,
  ◌==◌, if◌then◌else◌, bytes_eq, bit_and, take, length, get_or,
}
use cmfuzz.Engine.Prng.{prng_seed}
use cmfuzz.Engine.Reader.{reader_init, u8, u32, rest}
use cmfuzz.Engine.Oracle.{finish}
use cmfuzz.Harness.World.{
  World, H, Call, ◌>>=◌, ◌>>◌, pass, call, or_done, violation_if, when, xor_at, flip_selected,
}

-- An `OQS_SIG`; `verify msg sig pk` is whether it returns OQS_SUCCESS.
pub record Sig (W : Type 0) : Type 0 where
  pub name : String
  pub length_signature : ℕ
  pub keypair : Call W (Option (List ℕ × List ℕ))
  pub sign : List ℕ → List ℕ → Call W (Option (List ℕ))
  pub verify : List ℕ → List ℕ → List ℕ → Call W Bool

-- `tail[i % tail_len]` for `left` indices from `i` on, or zeros.
pub message_from : ℕ → ℕ → List ℕ → List ℕ
message_from zero i tail = []
message_from (suc left) i tail =
    let later = message_from left (i + 1) tail in
    (if length tail == 0 then 0 else get_or tail (i % length tail) 0) ∷ later

pub message : List ℕ → List ℕ
unfolding message_from
message tail = message_from (if length tail == 0 then 1 else length tail % 256 + 1) 0 tail

module _ {W : Type 0} (s : Sig W) where
  pub correctness : List ℕ → List ℕ → List ℕ → H W (Unit {0})
  correctness msg sig pk = do
    ok ← call (s.verify msg sig pk)
    violation_if (not ok) s.name "MR1_correctness" "valid signature rejected"

  -- With the copy of the message, if it could be allocated.
  pub message_binding : Bool → ℕ → List ℕ → List ℕ → List ℕ → H W (Unit {0})
  message_binding false sel msg sig pk = pass
  message_binding true sel msg sig pk = do
    ok ← call (s.verify (xor_at msg (sel % length msg) 0x01) sig pk)
    violation_if ok s.name "MR2_message_binding" "signature verifies for altered message"

  -- `memcmp(sg, sig, siglen) != 0 && verify(...) == OQS_SUCCESS`.
  pub mutated_signature : List ℕ → List ℕ → List ℕ → List ℕ → H W (Unit {0})
  mutated_signature msg sig sg pk = when (not (bytes_eq sg sig)) (do
    ok ← call (s.verify msg sg pk)
    violation_if ok s.name "MR3_strong_unforgeability"
        "mutated signature still verifies (SUF violation)")

  pub unforgeability : Bool → ℕ → List ℕ → List ℕ → List ℕ → H W (Unit {0})
  unfolding mutated_signature
  unforgeability false sel msg sig pk = pass
  unforgeability true sel msg sig pk =
      mutated_signature msg sig (flip_selected sig (length sig) sel) pk

  pub foreign_verify : List ℕ → List ℕ → Option (List ℕ × List ℕ) → H W (Unit {0})
  foreign_verify msg sig none = pass
  foreign_verify msg sig (some pair) = do
    ok ← call (s.verify msg sig pair.0)
    violation_if ok s.name "MR4_wrong_key" "signature verifies under foreign public key"

  pub wrong_key : List ℕ → List ℕ → H W (Unit {0})
  unfolding foreign_verify
  wrong_key msg sig = do pair ← call s.keypair; foreign_verify msg sig pair

  pub attacker_signature : List ℕ → List ℕ → List ℕ → H W (Unit {0})
  attacker_signature msg tail pk = do call (s.verify msg (take s.length_signature tail) pk); pass

  -- What the four low bits of `mode` ask for.
  pub asked_tests : Bool → Bool → ℕ → ℕ → List ℕ → List ℕ → List ℕ → List ℕ → H W (Unit {0})
  unfolding message_binding unforgeability wrong_key attacker_signature
  asked_tests room_m room_s mode sel tail msg sig pk = do
    when (not (bit_and mode 0x01 == 0) && ltb 1 (length msg))
        (message_binding room_m sel msg sig pk)
    when (not (bit_and mode 0x02 == 0) && ltb 0 (length sig)) (unforgeability room_s sel msg sig pk)
    when (not (bit_and mode 0x04 == 0)) (wrong_key msg sig)
    when (not (bit_and mode 0x08 == 0)) (attacker_signature msg tail pk)

  -- From the key pair to `done`.
  pub sig_relations : Bool → Bool → ℕ → ℕ → List ℕ → List ℕ → H W (Unit {0})
  unfolding correctness asked_tests
  sig_relations room_m room_s mode sel tail msg = do
    pair ← or_done s.keypair
    sig ← or_done (s.sign msg pair.1)
    correctness msg sig pair.0
    asked_tests room_m room_s mode sel tail msg sig pair.0

  -- `LLVMFuzzerTestOneInput` after `ensure_init`; the three answers of the allocator are those for
  -- the buffers at the start, for the copy of the message and for that of the signature.
  pub sig_input : Bool → Bool → Bool → List ℕ → H W (Unit {0})
  unfolding sig_relations message
  sig_input buffers room_m room_s bytes w =
      let (mode, r1) = u8 (reader_init bytes (length bytes)) in
      let (sel, r2) = u32 r1 in
      let (tail, r3) = rest r2 in
      let seeded = record w { prng = prng_seed tail } in
      let tests = sig_relations room_m room_s mode sel tail (message tail) seeded in
      if ltb (length bytes) 8 then finish else if buffers then tests else finish
