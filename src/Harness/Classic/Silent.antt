-- ===== src/Harness/Classic/Silent.antt =====
-- The harness over a library that keeps the contracts of SHA-256 and AES-256-GCM.
use cmfuzz.Base.{
  ℕ, zero, suc, ◌+◌, ◌%◌, ◌≤◌, ◌<◌, ◌≡◌, ◌≢◌, refl, sym, ap, ◌∙◌, arith, List, [], ◌∷◌, ◌++◌,
  Option, none, some, Bool, true, false, ◌||◌, ltb, ◌==◌, if◌then◌else◌, Bool-cases, inl, inr,
  bytes_eq_refl, take, drop, length, length-drop, take_all, take-append-drop,
}
use native.Mathlib.Nat.{mod-lt}
use cmfuzz.Base.Chain.{◌>>=◌}
use cmfuzz.Engine.Prng.{prng_seed, randombytes}
use cmfuzz.Engine.Reader.{reader_init, u8, u32, rest}
use cmfuzz.Engine.Oracle.{next, IsViolation}
use cmfuzz.Harness.World.{xor_at}
use cmfuzz.Harness.Classic.{
  ClassicCalls, chunk_loop, digest_oracle, classic_seal, classic_open, classic_checks, aead_oracle,
  classic_input,
}

module _ (lib : ClassicCalls) where
  -- A message that was encrypted, and the context behind it.
  abbrev pub encrypted : List ℕ → List ℕ → List ℕ → List ℕ × lib.CipherCtx
  encrypted key iv m =
      let first = lib.update (lib.encrypt_init key iv) m in
      let second = lib.encrypt_final first.1 in (first.0 ++ second.0, second.1)

  abbrev pub decrypted : List ℕ → List ℕ → List ℕ → List ℕ → Option (List ℕ)
  decrypted key iv ct tag = do
    let first = lib.update (lib.decrypt_init key iv) ct
    last ← lib.decrypt_final (lib.set_tag first.1 tag)
    some (first.0 ++ last)

-- What OpenSSL documents: an update with two pieces is one with both, and one with nothing changes
-- nothing; AES-256-GCM gives back what it encrypted, keeps the size of a message, and rejects a
-- ciphertext with a flipped bit.
pub record ClassicKeeps (lib : ClassicCalls) : Type 0 where
  pub streams :
      (c : lib.Digest) (a b : List ℕ)
      → lib.digest_update (lib.digest_update c a) b ≡ lib.digest_update c (a ++ b)
  pub empty : (c : lib.Digest) → lib.digest_update c [] ≡ c
  pub opens :
      (key iv m : List ℕ)
      → decrypted lib key iv (encrypted lib key iv m).0 (lib.get_tag (encrypted lib key iv m).1 16)
        ≡ some m
  pub rejects :
      (key iv m : List ℕ) (i : ℕ)
      → i < length m
      → decrypted lib key iv
          (xor_at (encrypted lib key iv m).0 i 1)
          (lib.get_tag (encrypted lib key iv m).1 16)
        ≡ none

smaller_pos : (a b : ℕ) → 0 < a → 0 < b → 0 < (if ltb a b then a else b)
smaller_pos a b h k = ground (arith, h, k)

module _ (lib : ClassicCalls) (keeps : ClassicKeeps lib) where
  -- The loop hands the whole message to the digest, in pieces of any size but zero.
  chunk_loop_lem :
      (fuel step : ℕ) (msg : List ℕ) (c : lib.Digest)
      → 0 < step
      → length msg ≤ fuel
      → chunk_loop lib fuel step msg c ≡ lib.digest_update c msg
  unfolding chunk_loop
  chunk_loop_lem zero step [] c h k = sym (keeps.empty c)
  chunk_loop_lem zero step (x ∷ msg) c h k = absurd (omega (arith, k))
  chunk_loop_lem (suc fuel) step [] c h k = sym (keeps.empty c)
  chunk_loop_lem (suc fuel) step (x ∷ msg) c h k =
      let whole = x ∷ msg in
      let n = if ltb (length whole) step then length whole else step in
      let some_left : (length whole == 0) ≡ false = ground arith in
      let positive : 0 < n = smaller_pos (length whole) step (omega arith) h in
      let less : length (drop n whole) ≤ fuel = omega (arith, length-drop n whole, positive, k) in
      rw some_left (
        chunk_loop_lem fuel step (drop n whole) (lib.digest_update c (take n whole)) h less
        ∙ keeps.streams c (take n whole) (drop n whole)
        ∙ ap (lib.digest_update c) (take-append-drop n whole))

  digest_oracle_lem : (msg : List ℕ) → digest_oracle lib msg ≡ next tt
  unfolding digest_oracle
  digest_oracle_lem msg =
      let same =
        chunk_loop_lem (length msg) (length msg % 17 + 1) msg lib.digest_init (omega arith)
          (omega arith) in
      rw (same, bytes_eq_refl (lib.digest_final (lib.digest_update lib.digest_init msg))) refl

  classic_checks_lem :
      (key iv m : List ℕ) (sel : ℕ) → length m ≢ 0 → classic_checks lib key iv m sel ≡ next tt
  unfolding classic_checks classic_seal classic_open
  classic_checks_lem key iv m sel h =
      let inside : sel % length m < length m = mod-lt sel (omega (arith, h)) in
      let whole : take (length m) m ≡ m = take_all (length m) m (omega arith) in
      rw
        (
          keeps.opens key iv m,
          whole,
          bytes_eq_refl m,
          keeps.rejects key iv m (sel % length m) inside,
        )
        refl

  aead_oracle_lem : (room : Bool) (m : List ℕ) (sel s : ℕ) → aead_oracle lib room m sel s ≡ next tt
  unfolding aead_oracle
  aead_oracle_lem room m sel s = go room ((length m == 0) || ltb 4096 (length m)) refl
    where
      go :
          (r b : Bool)
          → ((length m == 0) || ltb 4096 (length m)) ≡ b
          → (if b
              then next tt
              else if r
              then classic_checks lib
                  (randombytes 32 s).0
                  (randombytes 12 (randombytes 32 s).1).0
                  m
                  sel
              else next tt)
            ≡ next tt
      go r true e = refl
      go false false e = refl
      go true false e =
          let more : length m ≢ 0 = ground (arith, e) in
          classic_checks_lem (randombytes 32 s).0 (randombytes 12 (randombytes 32 s).1).0 m sel more

  -- No input of the fuzzer makes the harness report a violation, whether or not its buffers can be
  -- allocated, when SHA-256 may be fed in pieces and AES-256-GCM gives back what it encrypted and
  -- rejects a ciphertext with a flipped bit.
  pub classic_input-safe :
      (room : Bool) (bytes : List ℕ) → ¬ IsViolation (classic_input lib room bytes)
  unfolding classic_input
  classic_input-safe room bytes =
      let (mode, r1) = u8 (reader_init bytes (length bytes)) in
      let (sel, r2) = u32 r1 in
      let m = (rest r2).0 in
      elim (Bool-cases (ltb (length bytes) 8)) [
        | inl short ↦ rw short (λ v. v)
        | inr long ↦ elim (Bool-cases (mode % 2 == 0)) [
          | inl even ↦ rw (long, even, digest_oracle_lem m) (λ v. v)
          | inr odd ↦ rw (long, odd, aead_oracle_lem room m sel (prng_seed bytes)) (λ v. v)
        ]
      ]
