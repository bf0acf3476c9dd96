-- ===== src/Runner/Reference/Bounds.antt =====
-- A bound on the reference's output by the length of the message.
use cmfuzz.Base.{
  ℕ, ◌+◌, ◌≤◌, arith, List, ◌++◌, Option, none, some, Bool, true, false, ◌==◌, if◌then◌else◌, take,
  length, length-append,
}
use cmfuzz.Protocol.Vec.{keylen, noncelen}
use cmfuzz.Runner.OpenSsl.{
  Md, sha1, sha224, sha256, sha384, sha512, sha512_256, sha3_256, sha3_512, shake128, shake256, md5,
  Cipher, chacha20_poly1305, aes_128_gcm, aes_192_gcm, aes_256_gcm, aes_256_cbc, MacName, poly1305,
  cmac, ed25519, x25519, OpenSsl,
}
use cmfuzz.Runner.Reference.{
  ◌>>=◌, Input, taglen, ref_digest, ref_xof, ref_hmac_md, ref_aead, ref_hkdf, ref_mac, ref_pbkdf2,
  ref_ed25519, ref_x25519, ref_compute_extra, ref_compute,
}

-- A bound on the length of a result, if there is one.
abbrev pub AtMost : ℕ → Option (List ℕ) → Type 0
AtMost n none = Unit {0}
AtMost n (some xs) = length xs ≤ n

-- The documented output sizes: EVP_MAX_MD_SIZE for digests and HMAC, the length asked for or the
-- room given elsewhere, and at most EVP_MAX_BLOCK_LENGTH beyond the input for a cipher.
pub record OutputSizes (ssl : OpenSsl) : Type 0 where
  pub digest_size : (md : Md) (m : List ℕ) → AtMost 64 (ssl.digest md m)
  pub hmac_size : (md : Md) (k m : List ℕ) → AtMost 64 (ssl.hmac md k m)
  pub xof_size : (c : ssl.MdCtx) (n : ℕ) → AtMost n (ssl.digest_final_xof c n)
  pub update_size :
      (c : ssl.CipherCtx) (m : List ℕ) → length (ssl.encrypt_update c m).0 ≤ length m + 32
  pub final_size : (c : ssl.CipherCtx) → length (ssl.encrypt_final c).0 ≤ 32
  pub tag_size : (c : ssl.CipherCtx) (n : ℕ) → length (ssl.get_tag c n) ≤ n
  pub hkdf_size :
      (c : ssl.KdfCtx) (md : Md) (k s i : List ℕ) (n : ℕ) → AtMost n (ssl.hkdf_derive c md k s i n)
  pub pbkdf2_size : (p s : List ℕ) (i : ℕ) (md : Md) (n : ℕ) → AtMost n (ssl.pbkdf2 p s i md n)
  pub mac_size : (c : ssl.MacCtx) (n : ℕ) → AtMost n (ssl.mac_final c n)
  pub sign_size :
      (e : ssl.Entropy) (c : ssl.MdCtx) (n : ℕ) (m : List ℕ) → AtMost n (ssl.digest_sign e c n m)
  pub derive_size : (c : ssl.PkeyCtx) (n : ℕ) → AtMost n (ssl.derive c n)

AtMost-mono : (m n : ℕ) (o : Option (List ℕ)) → m ≤ n → AtMost m o → AtMost n o
AtMost-mono m n none h a = tt
AtMost-mono m n (some xs) h a = omega arith

bind-AtMost {ℓ} :
    {A : Type ℓ} (n : ℕ) (o : Option A) (f : A → Option (List ℕ))
    → ((a : A) → AtMost n (f a))
    → AtMost n (o >>= f)
bind-AtMost n none f h = tt
bind-AtMost n (some a) f h = h a

module _ (ssl : OpenSsl) (sizes : OutputSizes ssl) (v : Input) where
  -- The bound on all of them, in the length of the message.
  Fits : Option (List ℕ) → Type 0
  Fits o = AtMost (length v.msg + 80) o

  small-Fits : (n : ℕ) (o : Option (List ℕ)) → n ≤ 80 → AtMost n o → Fits o
  unfolding Fits
  small-Fits n o h a = AtMost-mono n (length v.msg + 80) o (omega arith) a

  digest-Fits : (md : Md) → Fits (ref_digest ssl md v)
  unfolding ref_digest
  digest-Fits md = small-Fits 64 _ (omega arith) (sizes.digest_size md v.msg)

  hmac-Fits : (md : Md) → Fits (ref_hmac_md ssl md v)
  unfolding ref_hmac_md
  hmac-Fits md = small-Fits 64 _ (omega arith) (sizes.hmac_size md v.key v.msg)

  xof-Fits : (md : Md) (n : ℕ) → n ≤ 80 → Fits (ref_xof ssl md v n)
  unfolding ref_xof
  xof-Fits md n h = small-Fits n _ h (
      bind-AtMost n ssl.md_ctx_new _ λ c.
        bind-AtMost n (ssl.digest_init c md) _
          λ c. bind-AtMost n (ssl.digest_update c v.msg) _ λ c. sizes.xof_size c n)

  aead-Fits : (ci : Cipher) → Fits (ref_aead ssl ci v)
  unfolding ref_aead Fits
  aead-Fits ci = bind-AtMost (length v.msg + 80) ssl.cipher_ctx_new _ λ c.
      let c = ssl.set_key_iv (ssl.set_ivlen (ssl.encrypt_init c ci) noncelen) v.key v.nonce in
      let c = if length v.aad == 0 then c else ssl.update_aad c v.aad in
      let body = ssl.encrypt_update c v.msg in
      let end = ssl.encrypt_final body.1 in
      let tag = ssl.get_tag end.1 taglen in
      omega (
        arith,
        length-append body.0 (end.0 ++ tag),
        length-append end.0 tag,
        sizes.update_size c v.msg,
        sizes.final_size body.1,
        sizes.tag_size end.1 taglen,
      )

  hkdf-Fits : Fits (ref_hkdf ssl v)
  unfolding ref_hkdf
  hkdf-Fits =
      small-Fits 42 _ (omega arith)
        (bind-AtMost 42 ssl.hkdf_ctx_new _ λ c. sizes.hkdf_size c sha256 v.msg v.key v.aad 42)

  mac-Fits :
      (name : MacName) (cipher : Option Cipher) (k n : ℕ)
      → n ≤ 80
      → Fits (ref_mac ssl name cipher v k n)
  unfolding ref_mac
  mac-Fits name cipher k n h = small-Fits n _ h (
      bind-AtMost n (ssl.mac_ctx_new name) _ λ c.
        bind-AtMost n (ssl.mac_init c (take k v.key) cipher) _
          λ c. bind-AtMost n (ssl.mac_update c v.msg) _ λ c. sizes.mac_size c n)

  pbkdf2-Fits : Fits (ref_pbkdf2 ssl v)
  unfolding ref_pbkdf2
  pbkdf2-Fits = small-Fits 32 _ (omega arith) (sizes.pbkdf2_size v.msg v.key 4096 sha256 32)

  ed25519-Fits : (e : ssl.Entropy) → Fits (ref_ed25519 ssl e v)
  unfolding ref_ed25519
  ed25519-Fits e = small-Fits 64 _ (omega arith) (
      bind-AtMost 64 (ssl.raw_private_key ed25519 v.key) _ λ pk.
        bind-AtMost 64 ssl.md_ctx_new _
          λ c. bind-AtMost 64 (ssl.sign_init c none pk) _ λ c. sizes.sign_size e c 64 v.msg)

  x25519-Fits : Fits (ref_x25519 ssl v)
  unfolding ref_x25519
  x25519-Fits = small-Fits 32 _ (omega arith) (
      bind-AtMost 32 (ssl.raw_private_key x25519 v.key) _ λ priv.
        bind-AtMost 32 (ssl.raw_public_key x25519 (take 32 v.msg)) _ λ peer.
          bind-AtMost 32 (ssl.pkey_ctx_new priv) _ λ c.
            bind-AtMost 32 (ssl.derive_init c) _
              λ c. bind-AtMost 32 (ssl.derive_set_peer c peer) _ λ c. sizes.derive_size c 32)

  -- A test of a switch picks one of two results.
  if-Fits : (b : Bool) (x y : Option (List ℕ)) → Fits x → Fits y → Fits (if b then x else y)
  if-Fits true x y h k = h
  if-Fits false x y h k = k

  none-Fits : Fits none
  unfolding Fits
  none-Fits = tt

  extra-Fits : (op : ℕ) → Fits (ref_compute_extra ssl op v)
  unfolding ref_compute_extra
  extra-Fits op = if-Fits _ _ _ (digest-Fits sha1) (
      if-Fits _ _ _ (digest-Fits sha224) (
        if-Fits _ _ _ (digest-Fits sha384) (
          if-Fits _ _ _ (digest-Fits sha512_256) (
            if-Fits _ _ _ (digest-Fits md5) (
              if-Fits _ _ _ (hmac-Fits sha1) (
                if-Fits _ _ _ (hmac-Fits sha384) (
                  if-Fits _ _ _ (hmac-Fits sha512) (
                    if-Fits _ _ _ (aead-Fits aes_128_gcm) (
                      if-Fits _ _ _ (aead-Fits aes_192_gcm) (
                        if-Fits _ _ _ (mac-Fits poly1305 none 32 taglen (omega arith)) (
                          if-Fits _ _ _
                            (mac-Fits cmac (some aes_256_cbc) keylen taglen (omega arith))
                            none-Fits)))))))))))

  compute-Fits : (e : ssl.Entropy) (op : ℕ) → Fits (ref_compute ssl e op v)
  unfolding ref_compute
  compute-Fits e op = if-Fits _ _ _ (digest-Fits sha256) (
      if-Fits _ _ _ (digest-Fits sha512) (
        if-Fits _ _ _ (hmac-Fits sha256) (
          if-Fits _ _ _ (aead-Fits chacha20_poly1305) (
            if-Fits _ _ _ (aead-Fits aes_256_gcm) (
              if-Fits _ _ _ (digest-Fits sha3_256) (
                if-Fits _ _ _ (digest-Fits sha3_512) (
                  if-Fits _ _ _ (xof-Fits shake128 32 (omega arith)) (
                    if-Fits _ _ _ (xof-Fits shake256 64 (omega arith)) (
                      if-Fits _ _ _ (hkdf-Fits) (
                        if-Fits _ _ _ (pbkdf2-Fits) (
                          if-Fits _ _ _ (ed25519-Fits e)
                            (if-Fits _ _ _ (x25519-Fits) (extra-Fits op)))))))))))))

  -- For every op the reference writes at most 80 bytes more than the message has.
  pub ref_compute-AtMost :
      (e : ssl.Entropy) (op : ℕ) → AtMost (length v.msg + 80) (ref_compute ssl e op v)
  unfolding Fits
  ref_compute-AtMost e op = compute-Fits e op
