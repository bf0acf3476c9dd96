-- ===== src/Harness/SeqKem.antt =====
-- harness/seq_pqc_harness.c, without its fault hook CMF_FAULT_KEMSWAP: decapsulation with the key of
-- another party.
pub mod Confusion
use cmfuzz.Base.{ℕ, List, Option, none, some, not, ltb, if◌then◌else◌, bytes_eq, length}
use cmfuzz.Engine.Prng.{prng_seed}
use cmfuzz.Engine.Oracle.{Run, next, finish}
use cmfuzz.Harness.World.{World, H, ◌>>=◌, ◌>>◌, pass, call, or_done, violation_if}
use cmfuzz.Harness.Kem.{Kem}

module _ {W : Type 0} (kem : Kem W) where
  -- What the right key decapsulated, if it did, is the sender's secret.
  unfoldable pub honest_check : List ℕ → Option (List ℕ) → H W (Unit {0})
  honest_check ss_enc none = pass
  honest_check ss_enc (some ss) =
      violation_if (not (bytes_eq ss ss_enc)) "ML-KEM-768/seq" "O6-kem-roundtrip"
        "honest KEM decapsulation did not agree"

  -- What the other key decapsulated, if it did, is not.
  unfoldable pub confusion_check : List ℕ → Option (List ℕ) → H W (Unit {0})
  confusion_check ss_enc none = pass
  confusion_check ss_enc (some ss) =
      violation_if (bytes_eq ss ss_enc) "ML-KEM-768/seq" "O6-kem-key-confusion"
        "wrong-key decapsulation falsely agreed with sender"

  unfoldable pub key_sequence : H W (Unit {0})
  unfolding honest_check confusion_check
  key_sequence = do
    alice ← or_done kem.keypair
    bob ← or_done kem.keypair
    sent ← or_done (kem.encaps alice.0)
    ss_a ← call (kem.decaps sent.0 alice.1)
    honest_check sent.1 ss_a
    ss_b ← call (kem.decaps sent.0 bob.1)
    confusion_check sent.1 ss_b

-- `LLVMFuzzerTestOneInput`, with what OQS_KEM_new gives.
unfoldable pub seq_kem_input : {W : Type 0} → Option (Kem W) → List ℕ → H W (Unit {0})
unfolding key_sequence
seq_kem_input none bytes w = finish
seq_kem_input (some kem) bytes w =
    let run = key_sequence kem (record w { prng = prng_seed bytes }) in
    if ltb (length bytes) 8 then finish else run
