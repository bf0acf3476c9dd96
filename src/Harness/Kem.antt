-- ===== src/Harness/Kem.antt =====
-- harness/liboqs_kem_harness.c, without its self-test hook CMF_FAULT_MR1.
pub mod Relations
use Prim.Native.String.{String}
use cmfuzz.Base.{
  ℕ, ◌+◌, List, Option, none, some, Bool, true, false, not, ◌&&◌, ltb, ◌==◌, if◌then◌else◌,
  bytes_eq, bit_and, take, drop, length, ◌++◌,
}
use cmfuzz.Engine.Prng.{prng_seed}
use cmfuzz.Engine.Reader.{reader_init, u8, u32, rest}
use cmfuzz.Engine.Oracle.{Run, next, finish}
use cmfuzz.Harness.World.{
  World, H, Call, ◌>>=◌, ◌>>◌, pass, call, or_done, violation_if, when, or_violation, flip_selected,
}

-- An `OQS_KEM`: its functions return `none` for anything but OQS_SUCCESS.
pub record Kem (W : Type 0) : Type 0 where
  pub name : String
  pub length_ciphertext : ℕ
  pub keypair : Call W (Option (List ℕ × List ℕ))
  pub encaps : List ℕ → Call W (Option (List ℕ × List ℕ))
  pub decaps : List ℕ → List ℕ → Call W (Option (List ℕ))

-- `call == OQS_SUCCESS && memcmp(out, ss) == 0`.
abbrev pub gives : Option (List ℕ) → List ℕ → Bool
gives none ss = false
gives (some out) ss = bytes_eq out ss

-- `call == OQS_SUCCESS && memcmp(ss, out) != 0`.
abbrev pub gives_other : Option (List ℕ) → List ℕ → Bool
gives_other none ss = false
gives_other (some out) ss = not (bytes_eq ss out)

-- `memcpy(ct, tail, n)` with the smaller of the two lengths.
abbrev overwrite : List ℕ → List ℕ → ℕ → List ℕ
overwrite ct tail n =
    let m : ℕ = if ltb (length tail) n then length tail else n in take m tail ++ drop m ct

module _ {W : Type 0} (k : Kem W) where
  pub malleability : Bool → ℕ → List ℕ → List ℕ → List ℕ → H W (Unit {0})
  malleability false sel ct ss sk = pass
  malleability true sel ct ss sk = do
    out ← call (k.decaps (flip_selected ct k.length_ciphertext sel) sk)
    violation_if (gives out ss) k.name "MR2_malleability" "mutated ct yields honest shared secret"

  pub foreign_decaps : List ℕ → List ℕ → Option (List ℕ × List ℕ) → H W (Unit {0})
  foreign_decaps ct ss none = pass
  foreign_decaps ct ss (some pair) = do
    out ← call (k.decaps ct pair.1)
    violation_if (gives out ss) k.name "MR3_wrong_key" "foreign sk recovers honest shared secret"

  pub wrong_key : List ℕ → List ℕ → H W (Unit {0})
  unfolding foreign_decaps
  wrong_key ct ss = do pair ← call k.keypair; foreign_decaps ct ss pair

  pub attacker_ciphertext : List ℕ → List ℕ → List ℕ → H W (Unit {0})
  attacker_ciphertext ct tail sk = do
    call (k.decaps (overwrite ct tail k.length_ciphertext) sk)
    pass

  pub determinism : List ℕ → List ℕ → List ℕ → H W (Unit {0})
  determinism ct ss_d sk = do
    again ← call (k.decaps ct sk)
    violation_if (gives_other again ss_d) k.name "MR4_determinism" "decaps not deterministic"

  -- What the three low bits of `mode` ask for.
  pub asked_relations : Bool → ℕ → ℕ → List ℕ → List ℕ → List ℕ → List ℕ → H W (Unit {0})
  unfolding malleability wrong_key attacker_ciphertext
  asked_relations room mode sel tail ct ss sk = do
    when (not (bit_and mode 0x01 == 0)) (malleability room sel ct ss sk)
    when (not (bit_and mode 0x02 == 0)) (wrong_key ct ss)
    when (not (bit_and mode 0x04 == 0)) (attacker_ciphertext ct tail sk)

  -- From the key pair to `done`; `room` says whether the copy of the ciphertext could be allocated.
  pub kem_relations : Bool → ℕ → ℕ → List ℕ → H W (Unit {0})
  unfolding determinism asked_relations
  kem_relations room mode sel tail = do
    pair ← or_done k.keypair
    honest ← or_done (k.encaps pair.0)
    ss_d ←
        or_violation (k.decaps honest.0 pair.1) k.name "MR1_decaps_status"
          "decaps failed on honest ct"
    violation_if (not (bytes_eq honest.1 ss_d)) k.name "MR1_correctness" "shared secrets differ"
    determinism honest.0 ss_d pair.1
    asked_relations room mode sel tail honest.0 honest.1 pair.1

  -- `LLVMFuzzerTestOneInput` after `ensure_init`; `buffers` says whether the eight buffers could be
  -- allocated.
  pub kem_input : Bool → Bool → List ℕ → H W (Unit {0})
  unfolding kem_relations
  kem_input buffers room bytes w =
      let (mode, r1) = u8 (reader_init bytes (length bytes)) in
      let (sel, r2) = u32 r1 in
      let (tail, r3) = rest r2 in
      let seeded = record w { prng = prng_seed tail } in
      let tests = kem_relations room mode sel tail seeded in
      if ltb (length bytes) 8 then finish else if buffers then tests else finish
