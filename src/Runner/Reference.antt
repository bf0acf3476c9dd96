-- ===== src/Runner/Reference.antt =====
-- The `ref_*` functions and `ref_compute` of the runner. A result is `none` for -1, and otherwise
-- the bytes that stand in `o[0 .. *n)`.
pub mod Bounds
pub mod Contract
use cmfuzz.Base.{
  ℕ, ◌+◌, List, [], ◌∷◌, ◌++◌, Option, none, some, Bool, ◌==◌, if◌then◌else◌, take, length,
}
use cmfuzz.Base.Chain.{◌>>=◌}
use cmfuzz.Protocol.Vec.{keylen, noncelen, taglen}
use cmfuzz.Runner.OpenSsl.{
  Md, sha1, sha224, sha256, sha384, sha512, sha512_256, sha3_256, sha3_512, shake128, shake256, md5,
  Cipher, chacha20_poly1305, aes_128_gcm, aes_192_gcm, aes_256_gcm, aes_256_cbc, MacName, poly1305,
  cmac, ed25519, x25519, OpenSsl,
}

-- The fields of a request that the reference reads.
pub record Input : Type 0 where
  pub key : List ℕ
  pub nonce : List ℕ
  pub aad : List ℕ
  pub msg : List ℕ

module _ (ssl : OpenSsl) where
  unfoldable pub ref_digest : Md → Input → Option (List ℕ)
  ref_digest md v = ssl.digest md v.msg

  unfoldable pub ref_xof : Md → Input → ℕ → Option (List ℕ)
  ref_xof md v outlen = do
    c ← ssl.md_ctx_new
    c ← ssl.digest_init c md
    c ← ssl.digest_update c v.msg
    ssl.digest_final_xof c outlen

  unfoldable pub ref_hmac_md : Md → Input → Option (List ℕ)
  ref_hmac_md md v = ssl.hmac md v.key v.msg

  -- The calls after EVP_CIPHER_CTX_new are not checked; the additional data is skipped if empty.
  unfoldable pub ref_aead : Cipher → Input → Option (List ℕ)
  ref_aead ci v = do
    c ← ssl.cipher_ctx_new
    let c = ssl.set_key_iv (ssl.set_ivlen (ssl.encrypt_init c ci) noncelen) v.key v.nonce
    let c = if length v.aad == 0 then c else ssl.update_aad c v.aad
    let body = ssl.encrypt_update c v.msg
    let end = ssl.encrypt_final body.1
    some (body.0 ++ (end.0 ++ ssl.get_tag end.1 taglen))

  unfoldable pub ref_hkdf : Input → Option (List ℕ)
  ref_hkdf v = do c ← ssl.hkdf_ctx_new; ssl.hkdf_derive c sha256 v.msg v.key v.aad 42

  unfoldable pub ref_mac : MacName → Option Cipher → Input → ℕ → ℕ → Option (List ℕ)
  ref_mac name cipher v klen outlen = do
    c ← ssl.mac_ctx_new name
    c ← ssl.mac_init c (take klen v.key) cipher
    c ← ssl.mac_update c v.msg
    ssl.mac_final c outlen

  unfoldable pub ref_pbkdf2 : Input → Option (List ℕ)
  ref_pbkdf2 v = ssl.pbkdf2 v.msg v.key 4096 sha256 32

  unfoldable pub ref_ed25519 : ssl.Entropy → Input → Option (List ℕ)
  ref_ed25519 e v = do
    pk ← ssl.raw_private_key ed25519 v.key
    c ← ssl.md_ctx_new
    c ← ssl.sign_init c none pk
    ssl.digest_sign e c 64 v.msg

  -- The peer's key is the 32 bytes that the message begins with.
  unfoldable pub ref_x25519 : Input → Option (List ℕ)
  ref_x25519 v = do
    priv ← ssl.raw_private_key x25519 v.key
    peer ← ssl.raw_public_key x25519 (take 32 v.msg)
    ctx ← ssl.pkey_ctx_new priv
    ctx ← ssl.derive_init ctx
    ctx ← ssl.derive_set_peer ctx peer
    ssl.derive ctx 32

  -- The second half of the switch, for the ops from 15 on.
  unfoldable pub ref_compute_extra : ℕ → Input → Option (List ℕ)
  ref_compute_extra op v =
      if op == 15
      then ref_digest sha1 v
      else if op == 16
      then ref_digest sha224 v
      else if op == 17
      then ref_digest sha384 v
      else if op == 18
      then ref_digest sha512_256 v
      else if op == 19
      then ref_digest md5 v
      else if op == 20
      then ref_hmac_md sha1 v
      else if op == 21
      then ref_hmac_md sha384 v
      else if op == 22
      then ref_hmac_md sha512 v
      else if op == 23
      then ref_aead aes_128_gcm v
      else if op == 24
      then ref_aead aes_192_gcm v
      else if op == 25
      then ref_mac poly1305 none v 32 taglen
      else if op == 26
      then ref_mac cmac (some aes_256_cbc) v keylen taglen
      else none

  -- `ref_compute`; the verify ops 13 and 14 fall through to -1.
  unfoldable pub ref_compute : ssl.Entropy → ℕ → Input → Option (List ℕ)
  ref_compute e op v =
      if op == 0
      then ref_digest sha256 v
      else if op == 1
      then ref_digest sha512 v
      else if op == 2
      then ref_hmac_md sha256 v
      else if op == 3
      then ref_aead chacha20_poly1305 v
      else if op == 4
      then ref_aead aes_256_gcm v
      else if op == 5
      then ref_digest sha3_256 v
      else if op == 6
      then ref_digest sha3_512 v
      else if op == 7
      then ref_xof shake128 v 32
      else if op == 8
      then ref_xof shake256 v 64
      else if op == 9
      then ref_hkdf v
      else if op == 10
      then ref_pbkdf2 v
      else if op == 11
      then ref_ed25519 e v
      else if op == 12
      then ref_x25519 v
      else ref_compute_extra op v
