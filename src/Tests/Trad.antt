-- ===== src/Tests/Trad.antt =====
-- Runs of the harness for traditional primitives against a small library.
use cmfuzz.Base.{ℕ, ◌↔◌, refl, List, [], ◌∷◌, ◌++◌, some, take}
use cmfuzz.Harness.World.{World, IsSilent}
use cmfuzz.Harness.Trad.{aes_256_gcm, Evp, test_aead}
use cmfuzz.Harness.Trad.Digests.{IsPure}
use cmfuzz.Harness.Trad.Relations.{AeadRelations, test_aead_iff}

-- Digests and tags are the bytes themselves.
abbrev small_evp : Evp (Unit {0})
small_evp = record {
  Digest = List ℕ;
  Cipher = List ℕ;
  sha256 = λ m w. (m, w);
  digest_init = λ w. ([], w);
  digest_update = λ c m w. (c ++ m, w);
  digest_final = λ c w. (c, w);
  hmac_sha256 = λ key m w. (key ++ m, w);
  encrypt_init = λ ci w. ([], w);
  decrypt_init = λ ci w. ([], w);
  set_ivlen = λ c n w. (c, w);
  set_key_iv = λ c key iv w. (key, w);
  update_aad = λ c aad w. (c ++ aad, w);
  update = λ c m w. ((m, c), w);
  encrypt_final = λ c w. (([], c), w);
  get_tag = λ c n w. (take n c, w);
  set_tag = λ c t w. (c, w);
  decrypt_final = λ c w. (some [], w);
}

small_evp-IsPure : IsPure small_evp
small_evp-IsPure = record {
  hash = λ m. m;
  start = [];
  absorb = λ c m. c ++ m;
  finish = λ c. c;
  mac = λ key m. key ++ m;
  encrypting = λ ci. [];
  decrypting = λ ci. [];
  with_ivlen = λ c n. c;
  with_key_iv = λ c key iv. key;
  absorb_aad = λ c aad. c ++ aad;
  stream = λ c m. (m, c);
  flush = λ c. ([], c);
  tag_of = λ c n. take n c;
  with_tag = λ c t. c;
  verified = λ c. some [];
  sha256_call = λ m w. refl;
  init_call = λ w. refl;
  update_call = λ c m w. refl;
  final_call = λ c w. refl;
  mac_call = λ key m w. refl;
  encrypt_call = λ ci w. refl;
  decrypt_call = λ ci w. refl;
  ivlen_call = λ c n w. refl;
  key_iv_call = λ c key iv w. refl;
  aad_call = λ c aad w. refl;
  stream_call = λ c m w. refl;
  flush_call = λ c w. refl;
  tag_call = λ c n w. refl;
  set_tag_call = λ c t w. refl;
  verified_call = λ c w. refl;
}

abbrev begin : World (Unit {0})
begin = record { prng = 1; library = tt }

abbrev three : List ℕ
three = 1 ∷ 2 ∷ 3 ∷ []

test_aead_iff_example :
    IsSilent (test_aead small_evp aes_256_gcm three [] [] three begin)
    ↔ AeadRelations small_evp small_evp-IsPure aes_256_gcm three [] [] (take 1200 three)
unfolding small_evp-IsPure
test_aead_iff_example = test_aead_iff small_evp small_evp-IsPure aes_256_gcm three [] [] three begin
