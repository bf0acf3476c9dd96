-- ===== src/Harness/Trad.antt =====
-- harness/trad_metamorphic_harness.c, without its fault hook CMF_FAULT_TRAD.
pub mod Digests
pub mod Relations
use Prim.Native.String.{String}
use cmfuzz.Base.{
  ℕ, ◌+◌, ◌-◌, ◌%◌, List, ◌++◌, Option, none, some, Bool, true, false, not, ltb, ◌==◌,
  if◌then◌else◌, bytes_eq, bit_and, get_or, take, drop, length,
}
use mathlib.Core.Option as Option
use cmfuzz.Engine.Prng.{prng_seed, randombytes}
use cmfuzz.Engine.Reader.{reader_init, u8, rest}
use cmfuzz.Engine.Oracle.{next, finish}
use cmfuzz.Harness.World.{World, H, Call, ◌>>=◌, ◌>>◌, pass, call, violation_if, xor_at}

pub data Aead : Type 0 where
  aes_256_gcm chacha20_poly1305 : Aead

abbrev pub alg : Aead → String
alg aes_256_gcm = "AES-256-GCM"
alg chacha20_poly1305 = "ChaCha20-Poly1305"

-- The OpenSSL calls of the harness, which it makes without looking at their results, but for
-- EVP_DecryptFinal_ex: `none` is a tag that does not verify. A `Digest` is an EVP_MD_CTX, and a
-- `Cipher` an EVP_CIPHER_CTX, made and given its cipher by the first call.
pub record Evp (W : Type 0) : Type 1 where
  pub Digest : Type 0
  pub Cipher : Type 0
  pub sha256 : List ℕ → Call W (List ℕ)
  pub digest_init : Call W Digest
  pub digest_update : Digest → List ℕ → Call W Digest
  pub digest_final : Digest → Call W (List ℕ)
  pub hmac_sha256 : List ℕ → List ℕ → Call W (List ℕ)
  pub encrypt_init : Aead → Call W Cipher
  pub decrypt_init : Aead → Call W Cipher
  pub set_ivlen : Cipher → ℕ → Call W Cipher
  pub set_key_iv : Cipher → List ℕ → List ℕ → Call W Cipher
  pub update_aad : Cipher → List ℕ → Call W Cipher
  pub update : Cipher → List ℕ → Call W (List ℕ × Cipher)
  pub encrypt_final : Cipher → Call W (List ℕ × Cipher)
  pub get_tag : Cipher → ℕ → Call W (List ℕ)
  pub set_tag : Cipher → List ℕ → Call W Cipher
  pub decrypt_final : Cipher → Call W (Option (List ℕ))

abbrev give : {W A : Type 0} → A → H W A
give a w = next (a, w)

-- `CMF_ASSERT`.
abbrev require : {W : Type 0} → Bool → String → String → String → H W (Unit {0})
require b = violation_if (not b)

-- Where the message is cut: `n ? (m[0] % (n + 1)) : 0`.
pub split_at : List ℕ → ℕ
split_at m = if length m == 0 then 0 else get_or m 0 0 % (length m + 1)

abbrev pub is_some : Option (List ℕ) → Bool
is_some none = false
is_some (some x) = true

abbrev pub or_empty : Option (List ℕ) → List ℕ
or_empty none = List.[]
or_empty (some x) = x

module _ {W : Type 0} (evp : Evp W) where
  -- `if (adn) EVP_...Update(c, NULL, &len, aad, adn);`
  pub with_aad : Evp.Cipher evp → List ℕ → H W (Evp.Cipher evp)
  with_aad c aad w = if length aad == 0 then next (c, w) else next (evp.update_aad c aad w)

  pub aead_encrypt : Aead → List ℕ → List ℕ → List ℕ → List ℕ → H W (List ℕ)
  unfolding with_aad
  aead_encrypt ci key iv aad m = do
    c ← call (evp.encrypt_init ci)
    c ← call (evp.set_ivlen c (length iv))
    c ← call (evp.set_key_iv c key iv)
    c ← with_aad c aad
    first ← call (evp.update c m)
    second ← call (evp.encrypt_final first.1)
    tag ← call (evp.get_tag second.1 16)
    give (first.0 ++ (second.0 ++ tag))

  -- The plaintext if the tag verifies.
  pub aead_decrypt : Aead → List ℕ → List ℕ → List ℕ → List ℕ → H W (Option (List ℕ))
  unfolding with_aad
  aead_decrypt ci key iv aad ct = do
    c ← call (evp.decrypt_init ci)
    c ← call (evp.set_ivlen c (length iv))
    c ← call (evp.set_key_iv c key iv)
    c ← with_aad c aad
    first ← call (evp.update c (take (length ct - 16) ct))
    c ← call (evp.set_tag first.1 (drop (length ct - 16) ct))
    last ← call (evp.decrypt_final c)
    give (Option.map (λ (x : List ℕ). first.0 ++ x) last)

  pub test_sha256 : List ℕ → H W (Unit {0})
  unfolding split_at
  test_sha256 m = do
    d1 ← call (evp.sha256 m)
    d2 ← call (evp.sha256 m)
    require (bytes_eq d1 d2) "SHA-256" "determinism" "H(m)!=H(m)"
    c ← call evp.digest_init
    c ← call (evp.digest_update c (take (split_at m) m))
    c ← call (evp.digest_update c (drop (split_at m) m))
    d3 ← call (evp.digest_final c)
    require (bytes_eq d1 d3) "SHA-256" "chunk_consistency" "H(m) != update(m[:k]);update(m[k:])"

  pub test_hmac : List ℕ → List ℕ → H W (Unit {0})
  test_hmac key m = do
    t1 ← call (evp.hmac_sha256 key m)
    t2 ← call (evp.hmac_sha256 key m)
    require (bytes_eq t1 t2) "HMAC-SHA256" "determinism" "tag!=tag"
    t3 ← call (evp.hmac_sha256 (xor_at key 0 0x80) m)
    require (not (bytes_eq t1 t3)) "HMAC-SHA256" "key_sensitivity"
        "different key produced identical tag"

  -- Behind `if (n > 1200) n = 1200;`.
  pub test_aead_cut : Aead → List ℕ → List ℕ → List ℕ → List ℕ → H W (Unit {0})
  unfolding aead_encrypt aead_decrypt
  test_aead_cut ci key iv aad m = do
    ct ← aead_encrypt ci key iv aad m
    pt ← aead_decrypt ci key iv aad ct
    require (is_some pt) (alg ci) "roundtrip" "Dec(Enc(m)) failed to authenticate"
    require (bytes_eq (or_empty pt) m) (alg ci) "roundtrip" "Dec(Enc(m)) != m"
    bad ← aead_decrypt ci key iv aad (xor_at ct (length ct - 1) 0x01)
    require (not (is_some bad)) (alg ci) "tamper_reject" "tampered tag still authenticated"
    foreign ← aead_decrypt ci (xor_at key 0 0x01) iv aad ct
    require (not (is_some foreign)) (alg ci) "wrong_key" "wrong key still authenticated"

  pub test_aead : Aead → List ℕ → List ℕ → List ℕ → List ℕ → H W (Unit {0})
  unfolding test_aead_cut
  test_aead ci key iv aad m = test_aead_cut ci key iv aad (take 1200 m)

  -- The switch on `op`.
  pub run_test : ℕ → List ℕ → List ℕ → ℕ → List ℕ → H W (Unit {0})
  unfolding test_sha256 test_hmac test_aead
  run_test op key iv adn p =
      if op == 0
      then test_sha256 p
      else if op == 1
      then test_hmac key p
      else if op == 2
      then test_aead aes_256_gcm key iv (take adn p) (drop adn p)
      else test_aead chacha20_poly1305 key iv (take adn p) (drop adn p)

  -- `LLVMFuzzerTestOneInput`.
  pub trad_input : List ℕ → H W (Unit {0})
  unfolding run_test
  trad_input bytes w =
      let (selector, r1) = u8 (reader_init bytes (length bytes)) in
      let (split, r2) = u8 r1 in
      let (key, s1) = randombytes 32 (prng_seed bytes) in
      let (iv, s2) = randombytes 12 s1 in
      let (p, r3) = rest r2 in
      let adn = if length p == 0 then 0 else split % (length p + 1) in
      let tests = run_test (selector % 4) key iv adn p (record w { prng = s2 }) in
      if ltb (length bytes) 4 then finish else tests
