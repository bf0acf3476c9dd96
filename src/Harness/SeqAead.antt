-- ===== src/Harness/SeqAead.antt =====
-- harness/seq_aead_harness.c, without its fault hooks: a source of nonces, and delivery of a
-- plaintext after its verification.
pub mod Nonces
pub mod Release
use cmfuzz.Base.{
  ℕ, zero, suc, ◌+◌, ◌-◌, ◌*◌, ◌/◌, ◌%◌, ◌^◌, List, [], ◌∷◌, ◌++◌, Option, none, some, Bool, true,
  false, not, ◌&&◌, ltb, ◌==◌, if◌then◌else◌, bytes_eq, bit_and, bit_xor, take, length, set, get_or,
  replicate,
}
use cmfuzz.Base.Chain.{◌>>=◌}
use cmfuzz.Engine.Prng.{splitmix64, prng_seed, randombytes}
use cmfuzz.Engine.Reader.{Reader, reader_init, u8, rest}
use cmfuzz.Engine.Oracle.{Run, next, finish, ◌>>◌, assert}
use cmfuzz.Harness.World.{xor_at}
use cmfuzz.Harness.Compose.{ComposeCalls, is_some, opens_to}

-- The rounds from `i` on: `nonce[11 - i] = (uint8_t)(ctr >> (8 * i))`.
unfoldable pub nonce_fill : ℕ → ℕ → ℕ → List ℕ → List ℕ
nonce_fill zero i ctr nonce = nonce
nonce_fill (suc n) i ctr nonce =
    nonce_fill n (i + 1) ctr (set nonce (11 - i) (ctr / 2 ^ (8 * i) % 256))

-- The nonce, and the counter behind it.
unfoldable pub nonce_source : ℕ → List ℕ × ℕ
unfolding nonce_fill
nonce_source ctr = (nonce_fill 8 0 ctr (replicate 12 0), (ctr + 1) % 2 ^ 64)

-- The comparison of the `n` bytes from `i` on.
unfoldable pub leak_loop : ℕ → ℕ → List ℕ → List ℕ → List ℕ → List ℕ → Bool
leak_loop zero i c1 c2 m1 m2 = true
leak_loop (suc n) i c1 c2 m1 m2 =
    (bit_xor (get_or c1 i 0) (get_or c2 i 0) == bit_xor (get_or m1 i 0) (get_or m2 i 0))
    && leak_loop n (i + 1) c1 c2 m1 m2

module _ (lib : ComposeCalls) where
  -- The ciphertext and the tag.
  unfoldable pub gcm_seal : List ℕ → List ℕ → List ℕ → List ℕ × List ℕ
  gcm_seal k n m =
      let c = lib.set_key_nonce (lib.set_ivlen lib.gcm_encrypt_init 12) k n in
      let first = lib.update c m in
      let second = lib.encrypt_final first.1 in (first.0 ++ second.0, lib.get_tag second.1 16)

  -- The candidate plaintext, when EVP_DecryptFinal_ex succeeds.
  unfoldable pub gcm_finish : List ℕ → List ℕ → List ℕ → List ℕ → Option (List ℕ)
  gcm_finish k n ct tag = do
    let c = lib.set_key_nonce (lib.set_ivlen lib.gcm_decrypt_init 12) k n
    let first = lib.update c ct
    last ← lib.decrypt_final (lib.set_tag first.1 tag)
    some (first.0 ++ last)

  -- The two messages under two nonces of the source.
  unfoldable pub nonce_checks : List ℕ → List ℕ → List ℕ → Run (Unit {0})
  unfolding nonce_source gcm_seal leak_loop
  nonce_checks k m1 m2 =
      let (n1, ctr1) = nonce_source 0 in
      let (c1, t1) = gcm_seal k n1 m1 in
      let (n2, ctr2) = nonce_source ctr1 in
      let (c2, t2) = gcm_seal k n2 m2 in
      let reused = bytes_eq n1 n2 in
      assert (not reused) "AES-256-GCM/seq" "O6-nonce-uniqueness"
        "nonce source repeated a (key,nonce) pair"
      >> (if reused
          then assert (not (leak_loop 64 0 c1 c2 m1 m2)) "AES-256-GCM/seq" "O6-nonce-uniqueness"
              "nonce reuse leaked plaintext XOR (two-time pad)"
          else next tt)

  pub test_nonce : ℕ → Run (Unit {0})
  unfolding nonce_checks
  test_nonce s =
      let (k, s1) = randombytes 32 s in
      let (m1, s2) = randombytes 64 s1 in
      let (m2, _) = randombytes 64 s2 in nonce_checks k (set m1 0 0x11) (set m2 0 0x22)

  -- What follows the length test, with the byte that a tampering flips.
  unfoldable pub release_checks : List ℕ → List ℕ → List ℕ → Bool → ℕ → Run (Unit {0})
  unfolding gcm_seal gcm_finish
  release_checks k n m tamper draw =
      let (ct, tag) = gcm_seal k n m in
      let sent = if tamper then xor_at ct (draw % length ct) 0x01 else ct in
      let opened = gcm_finish k n sent tag in
      let deliver = is_some opened in
      assert (not (deliver && tamper)) "AES-256-GCM/seq" "O6-release-before-verify"
        "AEAD plaintext used before/without successful tag verification"
      >> (if deliver && not tamper
          then assert (opens_to opened m) "AES-256-GCM/seq" "O6-release-before-verify"
              "verified plaintext != message"
          else next tt)

  pub test_release : ℕ → Reader → Run (Unit {0})
  unfolding release_checks
  test_release s r =
      let (k, s1) = randombytes 32 s in
      let (n, s2) = randombytes 12 s1 in
      let (t, r2) = u8 r in
      let (p, _) = rest r2 in
      let m = take 512 p in
      let (draw, _) = splitmix64 s2 in
      if length m == 0 then next tt else release_checks k n m (bit_and t 1 == 1) draw

  -- `LLVMFuzzerTestOneInput`.
  pub seq_input : List ℕ → Run (Unit {0})
  unfolding test_nonce test_release
  seq_input bytes =
      let (mode, r) = u8 (reader_init bytes (length bytes)) in
      let s = prng_seed bytes in
      if ltb (length bytes) 2
      then finish
      else if bit_and mode 1 == 1
      then test_release s r
      else test_nonce s
