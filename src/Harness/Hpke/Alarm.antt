-- ===== src/Harness/Hpke/Alarm.antt =====
-- An input on which the check of the context reports a violation that is none.
use cmfuzz.Base.{
  ℕ, ◌≤◌, ◌≡◌, refl, ◌∙◌, arith, List, some, true, false, ltb, ◌==◌, ◌||◌, bytes_eq_refl, bit_and,
  take, length, take_all,
}
use cmfuzz.Engine.Oracle.{violated}
use cmfuzz.Harness.World.{World, or_done_step}
use cmfuzz.Harness.HpkeParts.{HpkeKem, HpkeCalls, key_schedule, gcm_seal_aad}
use cmfuzz.Harness.HpkeParts.Sealing.{GcmAadKeeps, gcm_open_aad-gcm_seal_aad}
use cmfuzz.Harness.Hpke.{altinfo, Arrays, roundtrip, context_binding, hpke_checks, hpke_run}

module _ {W : Type 0} (lib : HpkeCalls) (keeps : GcmAadKeeps lib.evp) (kem : HpkeKem W)
    (left : Arrays) where
  -- The checks, when the recipient has the sender's secret and the info is the other info.
  checks_alarm :
      (sk : kem.SecretKey) (enc ss msg : List ℕ) (tflag : ℕ) (kn : List ℕ × List ℕ) (w : World W)
      → bit_and tflag 1 ≡ 1
      → key_schedule lib ss altinfo ≡ some kn
      → hpke_checks lib kem left sk enc ss tflag altinfo msg (gcm_seal_aad lib kn altinfo msg) w
        ≡ violated (record {
          alg = kem.kem_name;
          oracle = "O5-context-binding";
          msg = "different info still opened ciphertext";
        })
  unfolding hpke_checks roundtrip context_binding
  checks_alarm sk enc ss msg tflag kn w odd scheduled =
      let asked : (bit_and tflag 1 == 1) ≡ true = ground (arith, odd) in
      let whole : take (length msg) msg ≡ msg = take_all (length msg) msg (omega arith) in
      rw
        (
          scheduled,
          gcm_open_aad-gcm_seal_aad lib keeps kn altinfo msg,
          whole,
          bytes_eq_refl msg,
          asked,
        )
        refl

  -- A false alarm: if the fuzzer's info is the eight bytes of `altinfo` and its flag is odd, the
  -- harness reports a violation of the context binding, although the KEM gives the recipient the
  -- sender's secret, the key schedule succeeds and AES-256-GCM is right.
  pub hpke_run_alarm :
      (tflag : ℕ) (msg : List ℕ) (pair : kem.PublicKey × kem.SecretKey) (sent : List ℕ × List ℕ)
      (kn : List ℕ × List ℕ) (w w1 w2 w3 : World W)
      → bit_and tflag 1 ≡ 1
      → kem.enc_len ≤ 64
      → kem.ss_len ≤ 64
      → kem.kem_setup w ≡ (some pair, w1)
      → kem.kem_encaps pair.0 w1 ≡ (some sent, w2)
      → key_schedule lib sent.1 altinfo ≡ some kn
      → kem.kem_decaps pair.1 sent.0 w2 ≡ (some sent.1, w3)
      → hpke_run lib kem left tflag altinfo msg w
        ≡ violated (record {
          alg = kem.kem_name;
          oracle = "O5-context-binding";
          msg = "different info still opened ciphertext";
        })
  unfolding hpke_run
  hpke_run_alarm tflag msg pair sent kn w w1 w2 w3 odd short short' setup encaps scheduled decaps =
      let small : (ltb 64 kem.enc_len || ltb 64 kem.ss_len) ≡ false =
        ground (arith, short, short') in
      or_done_step _ kem.kem_setup setup
      ∙ rw (small, encaps, scheduled, decaps)
          (checks_alarm pair.1 sent.0 sent.1 msg tflag kn w3 odd scheduled)
