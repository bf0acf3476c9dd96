-- ===== src/Tests/Hpke.antt =====
-- Runs of the HPKE composition with a small KEM and a small cipher.
use cmfuzz.Base.{
  ℕ, ◌≡◌, ◌↔◌, refl, arith, List, [], ◌∷◌, ◌++◌, none, some, take, bit_and, replicate,
  length-replicate,
}
use cmfuzz.Engine.Oracle.{violated}
use cmfuzz.Harness.World.{IsSilent}
use cmfuzz.Harness.Compose.{ComposeCalls}
use cmfuzz.Harness.HpkeParts.{HpkeCalls, mlkem_kem, key_schedule, gcm_open_aad}
use cmfuzz.Harness.HpkeParts.Sealing.{GcmAadKeeps}
use cmfuzz.Harness.Hpke.{altinfo, Arrays, hpke_checks, hpke_run}
use cmfuzz.Harness.Hpke.Binding.{OpensTo, RejectsSecret, hpke_checks_iff}
use cmfuzz.Harness.Hpke.Alarm.{hpke_run_alarm}
use cmfuzz.Tests.Harness.{start, small_kem}

-- A context is the text; the tag is zeros.
abbrev plain_calls : ComposeCalls
plain_calls = record {
  CipherCtx = List ℕ;
  cbc_encrypt_init = λ k iv. [];
  cbc_decrypt_init = λ k iv. [];
  gcm_encrypt_init = [];
  gcm_decrypt_init = [];
  set_ivlen = λ c n. c;
  set_key_nonce = λ c k n. c;
  update_aad = λ c aad. c;
  update = λ c x. ([], x);
  encrypt_final = λ c. (c, c);
  decrypt_final = λ c. some c;
  get_tag = λ c n. replicate n 0;
  set_tag = λ c t. c;
  hmac_sha256 = λ k m. m;
}

-- The keys are the secret and the info.
abbrev small_hpke : HpkeCalls
small_hpke = record { evp = plain_calls; hkdf_sha256 = λ ss info n. some (take n (ss ++ info)) }

plain_calls-GcmAadKeeps : GcmAadKeeps plain_calls
plain_calls-GcmAadKeeps = record {
  opens = λ k n aad m. refl;
  tag_size = λ c. length-replicate {A = ℕ} 16 0;
}

abbrev small_arrays : Arrays
small_arrays = record { received = ([], []); alternative = ([], []); tampered = ([], []) }

abbrev small_message : List ℕ
small_message = 4 ∷ 5 ∷ []

hpke_run_alarm_example :
    hpke_run small_hpke (mlkem_kem small_kem 2) small_arrays 1 altinfo small_message (start 7)
    ≡ violated (record {
      alg = "HPKE(ML-KEM-768+HKDF+AES-GCM)";
      oracle = "O5-context-binding";
      msg = "different info still opened ciphertext";
    })
unfolding key_schedule
hpke_run_alarm_example =
    hpke_run_alarm small_hpke plain_calls-GcmAadKeeps (mlkem_kem small_kem 2) small_arrays 1
      small_message (7 ∷ [], 7 ∷ []) (8 ∷ [], 8 ∷ 7 ∷ []) (take 32 (8 ∷ 7 ∷ altinfo), []) (start 7)
      (start 8) (start 9) (start 9) refl (omega arith) (omega arith) refl refl refl refl

abbrev small_tag : List ℕ
small_tag = replicate 16 0

hpke_checks_iff_example :
    IsSilent (
      hpke_checks small_hpke
        (mlkem_kem small_kem 2)
        small_arrays
        (7 ∷ [])
        (8 ∷ [])
        (8 ∷ 7 ∷ [])
        0
        []
        small_message
        (small_message ++ small_tag)
        (start 9))
    ↔ (OpensTo small_message
          (gcm_open_aad small_hpke (8 ∷ 7 ∷ [], []) [] (small_message ++ small_tag))
        × (bit_and 0 1 ≡ 1
            → gcm_open_aad small_hpke (8 ∷ 7 ∷ altinfo, []) [] (small_message ++ small_tag) ≡ none)
        × RejectsSecret small_hpke
            (mlkem_kem small_kem 2)
            small_arrays
            []
            (small_message ++ small_tag)
            (some (9 ∷ 7 ∷ [])))
unfolding key_schedule
hpke_checks_iff_example =
    hpke_checks_iff small_hpke (mlkem_kem small_kem 2) small_arrays (7 ∷ []) (8 ∷ []) (8 ∷ 7 ∷ []) 0
      [] small_message (small_message ++ small_tag) (some (9 ∷ 7 ∷ [])) (start 9) (start 9) refl
