-- ===== src/Protocol/Ops.antt =====
-- The ops of a request, as the comment of compute_common.h defines them: the contract between the
-- runner and the backends.
use cmfuzz.Base.{
  ℕ, ◌+◌, ◌*◌, ◌/◌, ◌%◌, ◌^◌, List, [], ◌∷◌, ◌++◌, none, some, Bool, false, if◌then◌else◌, get_or,
  take,
}
use cmfuzz.Protocol.Names.{Md, Cipher}
use cmfuzz.Protocol.Vec.{Vec}
use cmfuzz.Protocol.Payload.{verify_parse}

-- The functions that standards define, which every library means to compute.
pub record Primitives : Type 0 where
  pub hash : Md → List ℕ → List ℕ
  -- The digest, the input and the length of the output.
  pub xof : Md → List ℕ → ℕ → List ℕ
  -- The digest, the key and the message.
  pub hmac : Md → List ℕ → List ℕ → List ℕ
  -- The cipher, the key, the nonce, the additional data and the message; the ciphertext, then the
  -- tag.
  pub encrypt : Cipher → List ℕ → List ℕ → List ℕ → List ℕ → List ℕ
  pub tag : Cipher → List ℕ → List ℕ → List ℕ → List ℕ → List ℕ
  -- HKDF: the digest, the input key, the salt, the info and the length.
  pub hkdf : Md → List ℕ → List ℕ → List ℕ → ℕ → List ℕ
  -- PBKDF2-HMAC: the password, the salt, the iterations, the digest and the length.
  pub pbkdf2 : List ℕ → List ℕ → ℕ → Md → ℕ → List ℕ
  -- The seed and the message.
  pub ed25519 : List ℕ → List ℕ → List ℕ
  -- X25519 after the scalar was decoded: the scalar and the peer's u-coordinate.
  pub scalar_mult : ℕ → List ℕ → List ℕ
  -- The key and the message; CMAC is that of AES.
  pub poly1305 : List ℕ → List ℕ → List ℕ
  pub cmac : List ℕ → List ℕ → List ℕ
  -- ECDSA over P-256 with SHA-256, and RSA-PSS with SHA-256, MGF1 and a salt of 32 bytes: the
  -- public key (a point, a modulus with exponent 65537), the signature and the message.
  pub ecdsa_ok : List ℕ → List ℕ → List ℕ → Bool
  pub rsa_pss_ok : List ℕ → List ℕ → List ℕ → Bool

-- The byte of a verify op.
abbrev pub verdict_byte : Bool → List ℕ
verdict_byte ok = (if ok then 1 else 0) ∷ []

abbrev pub judged : (List ℕ → List ℕ → List ℕ → Bool) → Vec → List ℕ
judged ok v = elim (verify_parse v.msg) [
  | none ↦ verdict_byte false
  | some p ↦ verdict_byte (ok p.pub_key p.sig p.msg)
]

-- A little-endian number.
unfoldable pub le_number : List ℕ → ℕ
le_number [] = 0
le_number (b ∷ bs) = b + 256 * le_number bs

-- RFC 7748: of the 256 bits the lowest three and the highest are cleared, and bit 254 is set.
unfoldable pub decode_scalar : List ℕ → ℕ
unfolding le_number
decode_scalar k = 2 ^ 254 + 8 * (le_number k % 2 ^ 254 / 8)

module _ (p : Primitives) where
  -- Ciphertext and tag under the first `n` bytes of the key.
  abbrev pub sealed : Cipher → ℕ → Vec → List ℕ
  sealed c n v =
      p.encrypt c (take n v.key) v.nonce v.aad v.msg ++ p.tag c (take n v.key) v.nonce v.aad v.msg

  -- The output of each op, in the order of their numbers.
  unfoldable pub outputs : Vec → List (List ℕ)
  unfolding decode_scalar
  outputs v =
      p.hash Md.sha256 v.msg
      ∷ p.hash Md.sha512 v.msg
      ∷ p.hmac Md.sha256 v.key v.msg
      ∷ sealed Cipher.chacha20_poly1305 32 v
      ∷ sealed Cipher.aes_256_gcm 32 v
      ∷ p.hash Md.sha3_256 v.msg
      ∷ p.hash Md.sha3_512 v.msg
      ∷ p.xof Md.shake128 v.msg 32
      ∷ p.xof Md.shake256 v.msg 64
      ∷ p.hkdf Md.sha256 v.msg v.key v.aad 42
      ∷ p.pbkdf2 v.msg v.key 4096 Md.sha256 32
      ∷ p.ed25519 v.key v.msg
      ∷ p.scalar_mult (decode_scalar v.key) (take 32 v.msg)
      ∷ judged p.ecdsa_ok v
      ∷ judged p.rsa_pss_ok v
      ∷ p.hash Md.sha1 v.msg
      ∷ p.hash Md.sha224 v.msg
      ∷ p.hash Md.sha384 v.msg
      ∷ p.hash Md.sha512_256 v.msg
      ∷ p.hash Md.md5 v.msg
      ∷ p.hmac Md.sha1 v.key v.msg
      ∷ p.hmac Md.sha384 v.key v.msg
      ∷ p.hmac Md.sha512 v.key v.msg
      ∷ sealed Cipher.aes_128_gcm 16 v
      ∷ sealed Cipher.aes_192_gcm 24 v
      ∷ p.poly1305 v.key v.msg
      ∷ p.cmac v.key v.msg
      ∷ []

  abbrev pub promised : ℕ → Vec → List ℕ
  promised op v = get_or (outputs v) op []
