-- ===== src/Harness/Classic.antt =====
-- harness/openssl_classic_harness.c: streaming digests, and AES-256-GCM with a flipped bit.
pub mod Silent
use cmfuzz.Base.{
  ℕ, zero, suc, ◌+◌, ◌%◌, List, [], ◌∷◌, ◌++◌, Option, none, some, Bool, true, false, not, ◌||◌,
  ltb, ◌==◌, if◌then◌else◌, bytes_eq, take, drop, length,
}
use cmfuzz.Base.Chain.{◌>>=◌}
use cmfuzz.Engine.Prng.{prng_seed, randombytes}
use cmfuzz.Engine.Reader.{Reader, reader_init, u8, u32, rest}
use cmfuzz.Engine.Oracle.{Run, next, finish, ◌>>◌, assert}
use cmfuzz.Harness.World.{xor_at}
use cmfuzz.Harness.Compose.{is_some}

-- The OpenSSL calls: a SHA-256 context, and an AES-256-GCM context begun with its key and nonce.
-- `none` is a tag that does not verify.
pub record ClassicCalls : Type 1 where
  pub Digest : Type 0
  pub CipherCtx : Type 0
  pub digest_init : Digest
  pub digest_update : Digest → List ℕ → Digest
  pub digest_final : Digest → List ℕ
  pub encrypt_init : List ℕ → List ℕ → CipherCtx
  pub decrypt_init : List ℕ → List ℕ → CipherCtx
  pub update : CipherCtx → List ℕ → List ℕ × CipherCtx
  pub encrypt_final : CipherCtx → List ℕ × CipherCtx
  pub get_tag : CipherCtx → ℕ → List ℕ
  pub set_tag : CipherCtx → List ℕ → CipherCtx
  pub decrypt_final : CipherCtx → Option (List ℕ)

-- `dec` holds the message.
abbrev pub opens_whole : Option (List ℕ) → List ℕ → Bool
opens_whole none m = false
opens_whole (some dec) m = bytes_eq m (take (length m) dec)

module _ (lib : ClassicCalls) where
  -- The loop over the pieces of `step` bytes, on fuel; `msg` is what is left of the message.
  unfoldable pub chunk_loop : ℕ → ℕ → List ℕ → lib.Digest → lib.Digest
  chunk_loop zero step msg c = c
  chunk_loop (suc fuel) step msg c =
      let n = if ltb (length msg) step then length msg else step in
      let later = chunk_loop fuel step (drop n msg) (lib.digest_update c (take n msg)) in
      if length msg == 0 then c else later

  unfoldable pub digest_oracle : List ℕ → Run (Unit {0})
  unfolding chunk_loop
  digest_oracle msg =
      let d1 = lib.digest_final (lib.digest_update lib.digest_init msg) in
      let step = length msg % 17 + 1 in
      let d2 = lib.digest_final (chunk_loop (length msg) step msg lib.digest_init) in
      assert (bytes_eq d1 d2) "OpenSSL-SHA256" "MR1_chunk_equiv" "chunked != one-shot digest"

  -- The ciphertext and the tag.
  unfoldable pub classic_seal : List ℕ → List ℕ → List ℕ → List ℕ × List ℕ
  classic_seal key iv m =
      let first = lib.update (lib.encrypt_init key iv) m in
      let second = lib.encrypt_final first.1 in (first.0 ++ second.0, lib.get_tag second.1 16)

  unfoldable pub classic_open : List ℕ → List ℕ → List ℕ → List ℕ → Option (List ℕ)
  classic_open key iv ct tag = do
    let first = lib.update (lib.decrypt_init key iv) ct
    last ← lib.decrypt_final (lib.set_tag first.1 tag)
    some (first.0 ++ last)

  unfoldable pub classic_checks : List ℕ → List ℕ → List ℕ → ℕ → Run (Unit {0})
  unfolding classic_seal classic_open
  classic_checks key iv m sel =
      let sealed = classic_seal key iv m in
      let bad = xor_at sealed.0 (sel % length m) 0x01 in
      assert (opens_whole (classic_open key iv sealed.0 sealed.1) m) "OpenSSL-AES-256-GCM"
        "MR2_roundtrip" "AEAD roundtrip mismatch"
      >> assert (not (is_some (classic_open key iv bad sealed.1))) "OpenSSL-AES-256-GCM"
          "MR3_tamper" "tampered ciphertext authenticated"

  -- `room` is whether both buffers could be allocated.
  unfoldable pub aead_oracle : Bool → List ℕ → ℕ → ℕ → Run (Unit {0})
  unfolding classic_checks
  aead_oracle room m sel s =
      let (key, s1) = randombytes 32 s in
      let (iv, _) = randombytes 12 s1 in
      let checks = classic_checks key iv m sel in
      if (length m == 0) || ltb 4096 (length m) then next tt else if room then checks else next tt

  -- `LLVMFuzzerTestOneInput`.
  unfoldable pub classic_input : Bool → List ℕ → Run (Unit {0})
  unfolding digest_oracle aead_oracle
  classic_input room bytes =
      let (mode, r1) = u8 (reader_init bytes (length bytes)) in
      let (sel, r2) = u32 r1 in
      let (m, _) = rest r2 in
      let aead = aead_oracle room m sel (prng_seed bytes) in
      let digest = digest_oracle m in
      if ltb (length bytes) 8 then finish else if mode % 2 == 0 then digest else aead
