-- ===== src/Harness/Compose.antt =====
-- harness/comp_trad_harness.c, without its fault hooks: Encrypt-then-MAC and a record layer.
pub mod Etm
pub mod Nonce
use cmfuzz.Base.{
  ℕ, zero, suc, ◌+◌, ◌-◌, ◌*◌, ◌/◌, ◌%◌, ◌^◌, List, [], ◌∷◌, ◌++◌, Option, none, some, Bool, true,
  false, not, ◌&&◌, ◌||◌, ltb, ◌==◌, if◌then◌else◌, bytes_eq, bit_and, bit_xor, take, drop, length,
}
use cmfuzz.Base.Chain.{◌>>=◌}
use cmfuzz.Engine.Prng.{splitmix64, prng_seed, randombytes}
use cmfuzz.Engine.Reader.{Reader, reader_init, u8, u32, rest}
use cmfuzz.Engine.Oracle.{Run, finish, ◌>>◌, assert}
use cmfuzz.Harness.World.{xor_at}

-- The OpenSSL calls of this harness and of SeqAead, which look at the result of
-- EVP_DecryptFinal_ex only: `none` is a padding or a tag that is wrong.
pub record ComposeCalls : Type 1 where
  pub CipherCtx : Type 0
  -- AES-256-CBC with its key and IV; AES-256-GCM with the IV's length, then key and nonce.
  pub cbc_encrypt_init : List ℕ → List ℕ → CipherCtx
  pub cbc_decrypt_init : List ℕ → List ℕ → CipherCtx
  pub gcm_encrypt_init : CipherCtx
  pub gcm_decrypt_init : CipherCtx
  pub set_ivlen : CipherCtx → ℕ → CipherCtx
  pub set_key_nonce : CipherCtx → List ℕ → List ℕ → CipherCtx
  pub update_aad : CipherCtx → List ℕ → CipherCtx
  pub update : CipherCtx → List ℕ → List ℕ × CipherCtx
  pub encrypt_final : CipherCtx → List ℕ × CipherCtx
  pub decrypt_final : CipherCtx → Option (List ℕ)
  pub get_tag : CipherCtx → ℕ → List ℕ
  pub set_tag : CipherCtx → List ℕ → CipherCtx
  pub hmac_sha256 : List ℕ → List ℕ → List ℕ

abbrev pub is_some : Option (List ℕ) → Bool
is_some none = false
is_some (some x) = true

-- `pn == n`, where `pn` is -1 for `none`.
abbrev pub has_length : Option (List ℕ) → ℕ → Bool
has_length none n = false
has_length (some x) n = length x == n

-- `pn < 0 || memcmp(pt, p, n) == 0`.
abbrev pub opens_to : Option (List ℕ) → List ℕ → Bool
opens_to none m = true
opens_to (some x) m = bytes_eq (take (length m) x) m

-- One round: `nonce[11 - i] ^= (uint8_t)(seq >> (8 * i))`.
abbrev pub nonce_round : ℕ → ℕ → List ℕ → List ℕ
nonce_round seq i nonce = xor_at nonce (11 - i) (seq / 2 ^ (8 * i) % 256)

-- The rounds from `i` on.
unfoldable pub nonce_loop : ℕ → ℕ → ℕ → List ℕ → List ℕ
nonce_loop zero i seq nonce = nonce
nonce_loop (suc n) i seq nonce = nonce_loop n (i + 1) seq (nonce_round seq i nonce)

unfoldable pub rec_nonce : List ℕ → ℕ → List ℕ
unfolding nonce_loop
rec_nonce static_iv seq = nonce_loop 8 0 seq static_iv

module _ (lib : ComposeCalls) where
  -- iv, ciphertext and the tag over both.
  unfoldable pub etm_seal : List ℕ → List ℕ → List ℕ → List ℕ → List ℕ
  etm_seal k1 k2 iv m =
      let first = lib.update (lib.cbc_encrypt_init k1 iv) m in
      let second = lib.encrypt_final first.1 in
      let body = iv ++ (first.0 ++ second.0) in body ++ lib.hmac_sha256 k2 body

  -- What follows a tag that is right.
  abbrev pub etm_decrypt : List ℕ → List ℕ → Option (List ℕ)
  etm_decrypt k1 body = do
    let first = lib.update (lib.cbc_decrypt_init k1 (take 16 body)) (drop 16 body)
    last ← lib.decrypt_final first.1
    some (first.0 ++ last)

  -- The tag is tested first; `none` is the -1.
  unfoldable pub etm_open : List ℕ → List ℕ → List ℕ → Option (List ℕ)
  etm_open k1 k2 input =
      let ctn = length input - 16 - 32 in
      let body = take (16 + ctn) input in
      if ltb (length input) (16 + 16 + 32)
      then none
      else if not (ctn % 16 == 0)
      then none
      else if not (bytes_eq (lib.hmac_sha256 k2 body) (drop (16 + ctn) input))
      then none
      else etm_decrypt k1 body

  abbrev pub with_aad : lib.CipherCtx → List ℕ → lib.CipherCtx
  with_aad c aad = if length aad == 0 then c else lib.update_aad c aad

  unfoldable pub rec_seal : List ℕ → List ℕ → ℕ → List ℕ → List ℕ → List ℕ
  unfolding rec_nonce
  rec_seal key static_iv seq aad m =
      let c =
        lib.set_key_nonce (lib.set_ivlen lib.gcm_encrypt_init 12) key (rec_nonce static_iv seq) in
      let first = lib.update (with_aad c aad) m in
      let second = lib.encrypt_final first.1 in first.0 ++ (second.0 ++ lib.get_tag second.1 16)

  -- The plaintext, if the tag verifies.
  unfoldable pub rec_open : List ℕ → List ℕ → ℕ → List ℕ → List ℕ → Option (List ℕ)
  unfolding rec_nonce
  rec_open key static_iv seq aad ct = do
    let c = lib.set_key_nonce (lib.set_ivlen lib.gcm_decrypt_init 12) key (rec_nonce static_iv seq)
    let first = lib.update (with_aad c aad) (take (length ct - 16) ct)
    last ← lib.decrypt_final (lib.set_tag first.1 (drop (length ct - 16) ct))
    some (first.0 ++ last)

  -- The three assertions, with the byte that is flipped.
  unfoldable pub etm_checks : List ℕ → List ℕ → List ℕ → List ℕ → ℕ → Run (Unit {0})
  unfolding etm_seal etm_open
  etm_checks k1 k2 iv m draw =
      let buf = etm_seal k1 k2 iv m in
      let opened = etm_open k1 k2 buf in
      let bad = xor_at buf (draw % length buf) 0x01 in
      assert (has_length opened (length m)) "EtM(AES-CBC+HMAC)" "O5-roundtrip"
        "open length mismatch"
      >> assert (opens_to opened m) "EtM(AES-CBC+HMAC)" "O5-roundtrip" "opened plaintext != message"
      >> assert (not (is_some (etm_open k1 k2 bad))) "EtM(AES-CBC+HMAC)" "O5-ciphertext-integrity"
          "tampered ciphertext/tag was accepted"

  pub test_etm : ℕ → Reader → Run (Unit {0})
  unfolding etm_checks
  test_etm s r =
      let (k1, s1) = randombytes 32 s in
      let (k2, s2) = randombytes 32 s1 in
      let (iv, s3) = randombytes 16 s2 in
      let (p, _) = rest r in let (draw, _) = splitmix64 s3 in etm_checks k1 k2 iv (take 1024 p) draw

  -- The assertions of the record layer, with the byte that is flipped.
  unfoldable pub record_checks : List ℕ → List ℕ → ℕ → List ℕ → List ℕ → ℕ → Run (Unit {0})
  unfolding rec_seal rec_open
  record_checks key siv seq aad m draw =
      let ct = rec_seal key siv seq aad m in
      let opened = rec_open key siv seq aad ct in
      let bad = xor_at ct (draw % length ct) 0x01 in
      assert (is_some opened) "TLS1.3-record(AES-GCM)" "O5-roundtrip" "record failed to open"
      >> assert (opens_to opened m) "TLS1.3-record(AES-GCM)" "O5-roundtrip"
          "opened plaintext != message"
      >> assert (not (is_some (rec_open key siv (bit_xor seq 1) aad ct))) "TLS1.3-record(AES-GCM)"
          "O5-seq-binding" "record opened under wrong sequence number"
      >> assert (not (is_some (rec_open key siv seq aad bad))) "TLS1.3-record(AES-GCM)" "O5-tamper"
          "tampered record was accepted"

  pub test_record : ℕ → Reader → Run (Unit {0})
  unfolding record_checks
  test_record s r =
      let (key, s1) = randombytes 32 s in
      let (siv, s2) = randombytes 12 s1 in
      let (seq, r2) = u32 r in
      let (aad, s3) = randombytes 5 s2 in
      let (p, _) = rest r2 in
      let (draw, _) = splitmix64 s3 in record_checks key siv seq aad (take 1024 p) draw

  -- `LLVMFuzzerTestOneInput`.
  pub compose_input : List ℕ → Run (Unit {0})
  unfolding test_etm test_record
  compose_input bytes =
      let (mode, r) = u8 (reader_init bytes (length bytes)) in
      let s = prng_seed bytes in
      if ltb (length bytes) 3
      then finish
      else if bit_and mode 1 == 1
      then test_record s r
      else test_etm s r
