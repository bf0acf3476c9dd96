-- ===== src/Harness/SeqAead/Release.antt =====
-- The harness over a library that keeps the contract of AES-256-GCM.
use cmfuzz.Base.{
  ℕ, ◌%◌, ◌<◌, ◌≡◌, ◌≢◌, refl, sym, arith, List, ◌++◌, Option, none, some, Bool, true, false, ltb,
  ◌==◌, take, length, take_all, bytes_eq, bytes_eq_refl, bit_and, Bool-cases, inl, inr, subst, set,
}
use native.Mathlib.Nat.{mod-lt}
use cmfuzz.Base.Chain.{◌>>=◌}
use cmfuzz.Engine.Prng.{splitmix64, prng_seed, randombytes}
use cmfuzz.Engine.Reader.{Reader, reader_init, u8, rest}
use cmfuzz.Engine.Oracle.{next, IsViolation}
use cmfuzz.Harness.World.{xor_at}
use cmfuzz.Harness.Compose.{ComposeCalls}
use cmfuzz.Harness.SeqAead.{
  nonce_source, gcm_seal, gcm_finish, nonce_checks, test_nonce, release_checks, test_release,
  seq_input,
}

module _ (lib : ComposeCalls) where
  -- A context that has encrypted a message under a 12-byte nonce.
  abbrev pub encrypted : List ℕ → List ℕ → List ℕ → List ℕ × lib.CipherCtx
  encrypted k n m =
      let first = lib.update (lib.set_key_nonce (lib.set_ivlen lib.gcm_encrypt_init 12) k n) m in
      let second = lib.encrypt_final first.1 in (first.0 ++ second.0, second.1)

  -- Decryption with a tag.
  abbrev pub decrypted : List ℕ → List ℕ → List ℕ → List ℕ → Option (List ℕ)
  decrypted k n ct tag = do
    let first = lib.update (lib.set_key_nonce (lib.set_ivlen lib.gcm_decrypt_init 12) k n) ct
    last ← lib.decrypt_final (lib.set_tag first.1 tag)
    some (first.0 ++ last)

-- What OpenSSL documents: the tag of a message verifies and gives the message, a ciphertext has
-- the size of its message, and the tag does not verify for a ciphertext with a flipped bit.
pub record GcmKeeps (lib : ComposeCalls) : Type 0 where
  pub opens :
      (k n m : List ℕ)
      → decrypted lib k n (encrypted lib k n m).0 (lib.get_tag (encrypted lib k n m).1 16) ≡ some m
  pub size : (k n m : List ℕ) → length (encrypted lib k n m).0 ≡ length m
  pub rejects :
      (k n m : List ℕ) (i : ℕ)
      → i < length m
      → decrypted lib k n
          (xor_at (encrypted lib k n m).0 i 1)
          (lib.get_tag (encrypted lib k n m).1 16)
        ≡ none

module _ (lib : ComposeCalls) where
  -- The nonces of the source differ, whatever the library does.
  nonce_checks_lem : (k m1 m2 : List ℕ) → nonce_checks lib k m1 m2 ≡ next tt
  unfolding nonce_checks nonce_source bytes_eq
  nonce_checks_lem k m1 m2 = refl

  test_nonce_lem : (s : ℕ) → test_nonce lib s ≡ next tt
  unfolding test_nonce
  test_nonce_lem s =
      let (k, s1) = randombytes 32 s in
      let (m1, s2) = randombytes 64 s1 in
      let (m2, _) = randombytes 64 s2 in nonce_checks_lem k (set m1 0 0x11) (set m2 0 0x22)

  module _ (keeps : GcmKeeps lib) where
    release_checks_lem :
        (k n m : List ℕ) (tamper : Bool) (draw : ℕ)
        → length m ≢ 0
        → release_checks lib k n m tamper draw ≡ next tt
    unfolding release_checks gcm_seal gcm_finish
    release_checks_lem k n m true draw h =
        let size = keeps.size k n m in
        let inside : draw % length (encrypted lib k n m).0 < length m =
          subst (λ (l : ℕ). draw % l < length m) (sym size) (mod-lt draw (omega (arith, h))) in
        rw (keeps.rejects k n m (draw % length (encrypted lib k n m).0) inside) refl
    release_checks_lem k n m false draw h =
        let whole : take (length m) m ≡ m = take_all (length m) m (omega arith) in
        rw (keeps.opens k n m, whole, bytes_eq_refl m) refl

    test_release_lem : (s : ℕ) (r : Reader) → test_release lib s r ≡ next tt
    unfolding test_release
    test_release_lem s r =
        let (k, s1) = randombytes 32 s in
        let (n, s2) = randombytes 12 s1 in
        let (t, r2) = u8 r in
        let (p, _) = rest r2 in
        let m = take 512 p in
        let (draw, _) = splitmix64 s2 in
        elim (Bool-cases (length m == 0)) [
          | inl empty ↦ rw empty refl
          | inr full ↦
              let more : length m ≢ 0 = ground (arith, full) in
              rw (full, release_checks_lem k n m (bit_and t 1 == 1) draw more) refl
        ]

    -- No input of the fuzzer makes the harness report a violation, when AES-256-GCM gives back what
    -- it encrypted, keeps the size of a message, and rejects a ciphertext with a flipped bit: the
    -- nonces are fresh, and a plaintext is delivered only after its verification.
    pub seq_input-safe : (bytes : List ℕ) → ¬ IsViolation (seq_input lib bytes)
    unfolding seq_input
    seq_input-safe bytes =
        let (mode, r) = u8 (reader_init bytes (length bytes)) in
        let s = prng_seed bytes in
        elim (Bool-cases (ltb (length bytes) 2)) [
          | inl short ↦ rw short (λ v. v)
          | inr long ↦ elim (Bool-cases (bit_and mode 1 == 1)) [
            | inl odd ↦ rw (long, odd, test_release_lem s r) (λ v. v)
            | inr even ↦ rw (long, even, test_nonce_lem s) (λ v. v)
          ]
        ]
