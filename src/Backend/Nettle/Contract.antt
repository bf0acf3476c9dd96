-- ===== src/Backend/Nettle/Contract.antt =====
-- The nettle backend keeps the contract.
use cmfuzz.Base.{
  ℕ, ◌+◌, ◌*◌, ◌<◌, ◌≤◌, ◌≡◌, ◌/◌, ◌%◌, ◌^◌, refl, sym, subst, ap, ap₂, ◌∙◌, arith, List, [], ◌∷◌,
  ◌++◌, length, take, take_all, inl, ◌==◌, if◌then◌else◌,
}
use cmfuzz.Base.Tables.{by_table, ◌&◌}
use cmfuzz.Protocol.Names.{Md, Cipher, digest_size}
use cmfuzz.Protocol.Vec.{Vec}
use cmfuzz.Protocol.Ops.{Primitives, outputs, le_number, decode_scalar}
use cmfuzz.Backend.Serve.{computed}
use cmfuzz.Backend.Contract.{
  Owes, HasKey, AreSealable, IsSent, IsSent-AreSealable, peer_size, offers, skip_empty,
}
use cmfuzz.Backend.Nettle.{NettleCalls, nettle_cases, clamp}
use cmfuzz.Backend.Nettle.Clamp.{le_number-clamp}

-- The ops that nettle leaves out: SHAKE128, the verify ops and Poly1305.
abbrev pub nettle_missing : List ℕ
nettle_missing = 7 ∷ 13 ∷ 14 ∷ 25 ∷ []

abbrev IsClamped : ℕ → Type 0
IsClamped s = (m : ℕ) × (s ≡ 2 ^ 254 + 8 * m) × (8 * m < 2 ^ 254)

-- What the manual of nettle says of its calls. `hkdf_expand` and the clamped scalar are asked for
-- only in the way that RFC 5869 and RFC 7748 use them.
pub record NettleKeeps (lib : NettleCalls) (p : Primitives) : Type 0 where
  pub hashes :
      (md : Md) (msg : List ℕ)
      → lib.hash_digest md (lib.hash_update md (lib.hash_init md) msg) (digest_size md)
        ≡ p.hash md msg
  pub shakes :
      (msg : List ℕ) (n : ℕ)
      → lib.sha3_256_shake (lib.hash_update Md.sha3_256 (lib.hash_init Md.sha3_256) msg) n
        ≡ p.xof Md.shake256 msg n
  pub macs :
      (md : Md) (key msg : List ℕ)
      → lib.hmac_digest md (lib.hmac_update md (lib.hmac_set_key md key) msg) (digest_size md)
        ≡ p.hmac md key msg
  pub encrypts :
      (ci : Cipher) (key nonce aad msg : List ℕ)
      → AreSealable ci key nonce aad msg
      → (lib.aead_encrypt ci
          (lib.aead_update ci (lib.aead_set_nonce ci (lib.aead_set_key ci key) nonce) aad)
          msg).0
        ≡ p.encrypt ci key nonce aad msg
  pub tags :
      (ci : Cipher) (key nonce aad msg : List ℕ)
      → AreSealable ci key nonce aad msg
      → lib.aead_digest ci
          (lib.aead_encrypt ci
            (lib.aead_update ci (lib.aead_set_nonce ci (lib.aead_set_key ci key) nonce) aad)
            msg).1
          16
        ≡ p.tag ci key nonce aad msg
  -- An update with no bytes changes nothing.
  pub no_aad :
      (ci : Cipher) (key nonce : List ℕ)
      → lib.aead_update ci (lib.aead_set_nonce ci (lib.aead_set_key ci key) nonce) []
        ≡ lib.aead_set_nonce ci (lib.aead_set_key ci key) nonce
  pub cmacs :
      (key msg : List ℕ)
      → length key ≡ 32
      → lib.cmac_digest (lib.cmac_update (lib.cmac_set_key key) msg) 16 ≡ p.cmac key msg
  pub pbkdf2s :
      (password salt : List ℕ) (rounds n : ℕ)
      → 1 ≤ rounds
      → 1 ≤ n
      → lib.pbkdf2_hmac_sha256 password rounds salt n ≡ p.pbkdf2 password salt rounds Md.sha256 n
  pub hkdfs :
      (ikm salt info : List ℕ) (n : ℕ)
      → n ≤ 255 * 32
      → lib.hkdf_expand
          (lib.hmac_set_key Md.sha256 (lib.hkdf_extract (lib.hmac_set_key Md.sha256 salt) ikm))
          info
          n
        ≡ p.hkdf Md.sha256 ikm salt info n
  pub signs :
      (seed msg : List ℕ)
      → length seed ≡ 32
      → lib.ed25519_sha512_sign (lib.ed25519_sha512_public_key seed) seed msg ≡ p.ed25519 seed msg
  pub multiplies :
      (scalar peer : List ℕ)
      → length peer ≡ 32
      → IsClamped (le_number scalar)
      → lib.curve25519_mul scalar peer ≡ p.scalar_mult (le_number scalar) peer

decode_scalar-IsClamped : (k : List ℕ) → IsClamped (decode_scalar k)
unfolding decode_scalar
decode_scalar-IsClamped k = (le_number k % 2 ^ 254 / 8, refl, omega arith)

module _ (lib : NettleCalls) (p : Primitives) (keeps : NettleKeeps lib p) (v : Vec) where
  abbrev ready : Cipher → List ℕ → lib.AeadCtx
  ready ci key = lib.aead_set_nonce ci (lib.aead_set_key ci key) v.nonce

  abbrev seal : Cipher → lib.AeadCtx → List ℕ
  seal ci c =
      (lib.aead_encrypt ci c v.msg).0 ++ lib.aead_digest ci (lib.aead_encrypt ci c v.msg).1 16

  -- The additional data reaches the cipher, empty or not.
  seals :
      (ci : Cipher) (key : List ℕ)
      → AreSealable ci key v.nonce v.aad v.msg
      → seal ci
          (if length v.aad == 0 then ready ci key else lib.aead_update ci (ready ci key) v.aad)
        ≡ p.encrypt ci key v.nonce v.aad v.msg ++ p.tag ci key v.nonce v.aad v.msg
  seals ci key h =
      ap (seal ci) (
        skip_empty (ready ci key) (lib.aead_update ci (ready ci key)) v.aad
          (keeps.no_aad ci key v.nonce))
      ∙ ap₂ ◌++◌ (keeps.encrypts ci key v.nonce v.aad v.msg h)
          (keeps.tags ci key v.nonce v.aad v.msg h)

  multiplies_clamped :
      HasKey v
      → 32 ≤ length v.msg
      → lib.curve25519_mul (clamp (take 32 v.key)) (take 32 v.msg)
        ≡ p.scalar_mult (decode_scalar v.key) (take 32 v.msg)
  multiplies_clamped (size, bytes, _, _) room =
      let whole : take 32 v.key ≡ v.key = take_all 32 v.key (omega arith) in
      let same : le_number (clamp v.key) ≡ decode_scalar v.key = le_number-clamp v.key size bytes in
      ap (λ (k : List ℕ). lib.curve25519_mul (clamp k) (take 32 v.msg)) whole
      ∙ keeps.multiplies (clamp v.key) (take 32 v.msg) (peer_size v room)
          (subst IsClamped (sym same) (decode_scalar-IsClamped v.key))
      ∙ ap (λ (s : ℕ). p.scalar_mult s (take 32 v.msg)) same

pub nettle-Owes :
    (lib : NettleCalls) (p : Primitives)
    → NettleKeeps lib p
    → (v : Vec) (op : ℕ) → IsSent op v
    → Owes (offers nettle_missing op) p op v (nettle_cases lib op v)
unfolding nettle_cases outputs
nettle-Owes lib p keeps v op sent =
    let key = sent.request.has_key in
    let sealable = IsSent-AreSealable op v sent in
    let whole : take 32 v.key ≡ v.key = take_all 32 v.key (omega arith) in
    let mac = λ (md : Md) (k : List ℕ).
      lib.hmac_digest md (lib.hmac_update md (lib.hmac_set_key md k) v.msg) (digest_size md) in
    by_table
      (λ o.
        (o ≡ 12 → 32 ≤ length v.msg) → Owes (offers nettle_missing o) p o v (nettle_cases lib o v))
      27
      ((λ _. inl (ap computed (keeps.hashes Md.sha256 v.msg)))
        & (λ _. inl (ap computed (keeps.hashes Md.sha512 v.msg)))
        & (λ _. inl (ap computed (ap (mac Md.sha256) whole ∙ keeps.macs Md.sha256 v.key v.msg)))
        & (λ _. inl (
            ap computed (
              seals lib p keeps v Cipher.chacha20_poly1305 (take 32 v.key)
                (sealable Cipher.chacha20_poly1305))))
        & (λ _. inl (
            ap computed (
              seals lib p keeps v Cipher.aes_256_gcm (take 32 v.key)
                (sealable Cipher.aes_256_gcm))))
        & (λ _. inl (ap computed (keeps.hashes Md.sha3_256 v.msg)))
        & (λ _. inl (ap computed (keeps.hashes Md.sha3_512 v.msg)))
        & (λ _. refl)
        & (λ _. inl (ap computed (keeps.shakes v.msg 64)))
        & (λ _. inl (
            ap computed (
              ap
                (λ (k : List ℕ).
                  lib.hkdf_expand
                    (lib.hmac_set_key Md.sha256
                      (lib.hkdf_extract (lib.hmac_set_key Md.sha256 k) v.msg))
                    v.aad 42)
                whole
              ∙ keeps.hkdfs v.msg v.key v.aad 42 (omega arith))))
        & (λ _. inl (
            ap computed (
              ap (λ (k : List ℕ). lib.pbkdf2_hmac_sha256 v.msg 4096 k 32) whole
              ∙ keeps.pbkdf2s v.msg v.key 4096 32 (omega arith) (omega arith))))
        & (λ _. inl (ap computed (keeps.signs v.key v.msg key.0)))
        & (λ peer. inl (ap computed (multiplies_clamped lib p keeps v key (peer refl))))
        & (λ _. refl)
        & (λ _. refl)
        & (λ _. inl (ap computed (keeps.hashes Md.sha1 v.msg)))
        & (λ _. inl (ap computed (keeps.hashes Md.sha224 v.msg)))
        & (λ _. inl (ap computed (keeps.hashes Md.sha384 v.msg)))
        & (λ _. inl (ap computed (keeps.hashes Md.sha512_256 v.msg)))
        & (λ _. inl (ap computed (keeps.hashes Md.md5 v.msg)))
        & (λ _. inl (ap computed (ap (mac Md.sha1) whole ∙ keeps.macs Md.sha1 v.key v.msg)))
        & (λ _. inl (ap computed (ap (mac Md.sha384) whole ∙ keeps.macs Md.sha384 v.key v.msg)))
        & (λ _. inl (ap computed (ap (mac Md.sha512) whole ∙ keeps.macs Md.sha512 v.key v.msg)))
        & (λ _. inl (
            ap computed (
              seals lib p keeps v Cipher.aes_128_gcm (take 16 v.key)
                (sealable Cipher.aes_128_gcm))))
        & (λ _. inl (
            ap computed (
              seals lib p keeps v Cipher.aes_192_gcm (take 24 v.key)
                (sealable Cipher.aes_192_gcm))))
        & (λ _. refl)
        & (λ _. inl (
            ap computed (
              ap (λ (k : List ℕ). lib.cmac_digest (lib.cmac_update (lib.cmac_set_key k) v.msg) 16)
                whole
              ∙ keeps.cmacs v.key v.msg key.0)))
        & tt)
      (λ o h _. ground arith) op sent.whole_peer
