-- ===== src/Harness/HpkeParts/Sealing.antt =====
-- What was sealed opens.
use cmfuzz.Base.{
  ℕ, ◌-◌, ◌≡◌, refl, sym, ap, ◌∙◌, arith, List, ◌++◌, some, length, length-append, take-append,
  drop-append, append_assoc,
}
use cmfuzz.Base.Chain.{◌>>=◌}
use cmfuzz.Harness.Compose.{ComposeCalls, with_aad}
use cmfuzz.Harness.HpkeParts.{HpkeCalls, gcm_seal_aad, gcm_open_aad}

-- What EVP encrypts with AES-256-GCM: the ciphertext, and the context behind it.
abbrev pub encrypted :
    (evp : ComposeCalls) → List ℕ → List ℕ → List ℕ → List ℕ → List ℕ × evp.CipherCtx
encrypted evp k n aad m =
    let c = evp.set_key_nonce (evp.set_ivlen evp.gcm_encrypt_init 12) k n in
    let first = evp.update (with_aad evp c aad) m in
    let second = evp.encrypt_final first.1 in (first.0 ++ second.0, second.1)

-- What OpenSSL documents: decryption with the same key, nonce and associated data gives back the
-- message, and a tag has the size that was asked for.
pub record GcmAadKeeps (evp : ComposeCalls) : Type 0 where
  pub opens :
      (k n aad m : List ℕ)
      → let c = evp.set_key_nonce (evp.set_ivlen evp.gcm_decrypt_init 12) k n in
        let (ct, sealed) = encrypted evp k n aad m in
        let first = evp.update (with_aad evp c aad) ct in
        evp.decrypt_final (evp.set_tag first.1 (evp.get_tag sealed 16))
          >>= (λ last. some (first.0 ++ last))
        ≡ some m
  pub tag_size : (c : evp.CipherCtx) → length (evp.get_tag c 16) ≡ 16

module _ (lib : HpkeCalls) (keeps : GcmAadKeeps lib.evp) where
  pub gcm_open_aad-gcm_seal_aad :
      (kn : List ℕ × List ℕ) (aad m : List ℕ)
      → gcm_open_aad lib kn aad (gcm_seal_aad lib kn aad m) ≡ some m
  unfolding gcm_open_aad gcm_seal_aad
  gcm_open_aad-gcm_seal_aad kn aad m =
      let sealed = encrypted lib.evp kn.0 kn.1 aad m in
      let tag = lib.evp.get_tag sealed.1 16 in
      let c = lib.evp.set_key_nonce (lib.evp.set_ivlen lib.evp.gcm_encrypt_init 12) kn.0 kn.1 in
      let first = lib.evp.update (with_aad lib.evp c aad) m in
      let whole : gcm_seal_aad lib kn aad m ≡ sealed.0 ++ tag =
        sym (append_assoc first.0 (lib.evp.encrypt_final first.1).0 tag) in
      let size : length (sealed.0 ++ tag) - 16 ≡ length sealed.0 =
        omega (arith, length-append sealed.0 tag, keeps.tag_size sealed.1) in
      let front = take-append (length sealed.0) sealed.0 tag refl in
      let behind = drop-append (length sealed.0) sealed.0 tag refl in
      ap (gcm_open_aad lib kn aad) whole ∙ rw (size, front, behind) (keeps.opens kn.0 kn.1 aad m)
