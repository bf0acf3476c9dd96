-- ===== src/Backend/Nettle.antt =====
-- harness/subproc/compute_nettle.c.
pub mod Clamp
pub mod Contract
use cmfuzz.Base.{
  ℕ, List, [], ◌∷◌, ◌++◌, Option, none, some, Bool, ◌==◌, if◌then◌else◌, length, get_or, set, take,
  bit_and, bit_or,
}
use cmfuzz.Protocol.Names.{Md, Cipher}
use cmfuzz.Protocol.Vec.{keylen, noncelen, taglen, Vec}
use cmfuzz.Backend.Serve.{Outcome, abstain, computed, switch_op, serve}

-- The calls of nettle, which is not part of the program. A digest or cipher stands for the prefix
-- of the functions' names: `hash_init Md.sha224` is sha224_init. No call returns an error.
pub record NettleCalls : Type 1 where
  pub HashCtx : Type 0
  pub HmacCtx : Type 0
  pub AeadCtx : Type 0
  pub CmacCtx : Type 0
  -- *_init, *_update, *_digest with its length, and sha3_256_shake.
  pub hash_init : Md → HashCtx
  pub hash_update : Md → HashCtx → List ℕ → HashCtx
  pub hash_digest : Md → HashCtx → ℕ → List ℕ
  pub sha3_256_shake : HashCtx → ℕ → List ℕ
  -- hmac_*_set_key, hmac_*_update, hmac_*_digest.
  pub hmac_set_key : Md → List ℕ → HmacCtx
  pub hmac_update : Md → HmacCtx → List ℕ → HmacCtx
  pub hmac_digest : Md → HmacCtx → ℕ → List ℕ
  -- set_key, set_nonce or set_iv, update, encrypt, digest of chacha_poly1305 and of gcm_aes*.
  pub aead_set_key : Cipher → List ℕ → AeadCtx
  pub aead_set_nonce : Cipher → AeadCtx → List ℕ → AeadCtx
  pub aead_update : Cipher → AeadCtx → List ℕ → AeadCtx
  pub aead_encrypt : Cipher → AeadCtx → List ℕ → List ℕ × AeadCtx
  pub aead_digest : Cipher → AeadCtx → ℕ → List ℕ
  -- cmac_aes256_*.
  pub cmac_set_key : List ℕ → CmacCtx
  pub cmac_update : CmacCtx → List ℕ → CmacCtx
  pub cmac_digest : CmacCtx → ℕ → List ℕ
  -- pbkdf2_hmac_sha256: password, iterations, salt, length. hkdf_extract: a keyed context and the
  -- input key. hkdf_expand: a keyed context, the info and the length.
  pub pbkdf2_hmac_sha256 : List ℕ → ℕ → List ℕ → ℕ → List ℕ
  pub hkdf_extract : HmacCtx → List ℕ → List ℕ
  pub hkdf_expand : HmacCtx → List ℕ → ℕ → List ℕ
  pub ed25519_sha512_public_key : List ℕ → List ℕ
  pub ed25519_sha512_sign : List ℕ → List ℕ → List ℕ → List ℕ
  pub curve25519_mul : List ℕ → List ℕ → List ℕ

-- `scalar[0] &= 248; scalar[31] &= 127; scalar[31] |= 64;`
unfoldable pub clamp : List ℕ → List ℕ
clamp scalar =
    let low = set scalar 0 (bit_and (get_or scalar 0 0) 248) in
    let high = set low 31 (bit_and (get_or low 31 0) 127) in
    set high 31 (bit_or (get_or high 31 0) 64)

module _ (lib : NettleCalls) where
  -- The three calls of a digest.
  abbrev with_hash : Md → ℕ → Vec → Outcome
  with_hash md size v =
      computed (lib.hash_digest md (lib.hash_update md (lib.hash_init md) v.msg) size)

  abbrev pub sha256 : Vec → Outcome
  sha256 v = with_hash Md.sha256 32 v

  abbrev pub sha512 : Vec → Outcome
  sha512 v = with_hash Md.sha512 64 v

  abbrev pub sha3_256 : Vec → Outcome
  sha3_256 v = with_hash Md.sha3_256 32 v

  abbrev pub sha3_512 : Vec → Outcome
  sha3_512 v = with_hash Md.sha3_512 64 v

  abbrev pub shake256 : Vec → Outcome
  shake256 v =
      let c = lib.hash_init Md.sha3_256 in
      let c = lib.hash_update Md.sha3_256 c v.msg in computed (lib.sha3_256_shake c 64)

  abbrev pub nsha1 : Vec → Outcome
  nsha1 v = with_hash Md.sha1 20 v

  abbrev pub nsha224 : Vec → Outcome
  nsha224 v = with_hash Md.sha224 28 v

  abbrev pub nsha384 : Vec → Outcome
  nsha384 v = with_hash Md.sha384 48 v

  abbrev pub nsha512_256 : Vec → Outcome
  nsha512_256 v = with_hash Md.sha512_256 32 v

  abbrev pub nmd5 : Vec → Outcome
  nmd5 v = with_hash Md.md5 16 v

  -- The three calls of an HMAC.
  abbrev with_hmac : Md → ℕ → Vec → Outcome
  with_hmac md size v =
      let c = lib.hmac_set_key md (take keylen v.key) in
      computed (lib.hmac_digest md (lib.hmac_update md c v.msg) size)

  abbrev pub hmac256 : Vec → Outcome
  hmac256 v = with_hmac Md.sha256 32 v

  abbrev pub hmac1 : Vec → Outcome
  hmac1 v = with_hmac Md.sha1 20 v

  abbrev pub hmac384 : Vec → Outcome
  hmac384 v = with_hmac Md.sha384 48 v

  abbrev pub hmac512 : Vec → Outcome
  hmac512 v = with_hmac Md.sha512 64 v

  -- The calls of an AEAD whose key has `size` bytes; the additional data is skipped if empty.
  abbrev with_aead : Cipher → ℕ → Vec → Outcome
  with_aead ci size v =
      let c = lib.aead_set_nonce ci (lib.aead_set_key ci (take size v.key)) v.nonce in
      let c = if length v.aad == 0 then c else lib.aead_update ci c v.aad in
      let body = lib.aead_encrypt ci c v.msg in
      computed (body.0 ++ lib.aead_digest ci body.1 taglen)

  abbrev pub chachapoly : Vec → Outcome
  chachapoly v = with_aead Cipher.chacha20_poly1305 32 v

  abbrev pub aesgcm : Vec → Outcome
  aesgcm v = with_aead Cipher.aes_256_gcm 32 v

  abbrev pub aesgcm128 : Vec → Outcome
  aesgcm128 v = with_aead Cipher.aes_128_gcm 16 v

  abbrev pub aesgcm192 : Vec → Outcome
  aesgcm192 v = with_aead Cipher.aes_192_gcm 24 v

  abbrev pub cmac256 : Vec → Outcome
  cmac256 v =
      let c = lib.cmac_set_key (take 32 v.key) in
      computed (lib.cmac_digest (lib.cmac_update c v.msg) taglen)

  abbrev pub pbkdf2 : Vec → Outcome
  pbkdf2 v = computed (lib.pbkdf2_hmac_sha256 v.msg 4096 (take keylen v.key) 32)

  abbrev pub hkdf : Vec → Outcome
  hkdf v =
      let salted = lib.hmac_set_key Md.sha256 (take keylen v.key) in
      let prk = lib.hkdf_extract salted v.msg in
      computed (lib.hkdf_expand (lib.hmac_set_key Md.sha256 prk) v.aad 42)

  abbrev pub ed25519 : Vec → Outcome
  ed25519 v =
      let public_key = lib.ed25519_sha512_public_key v.key in
      computed (lib.ed25519_sha512_sign public_key v.key v.msg)

  -- The peer's key is the 32 bytes that the message begins with; behind a shorter message the source
  -- reads on, which is not modelled.
  abbrev pub x25519 : Vec → Outcome
  x25519 v = computed (lib.curve25519_mul (clamp (take 32 v.key)) (take 32 v.msg))

  -- The cases of the switch from 15 on; 25 is not among them.
  abbrev pub extra_cases : ℕ → Vec → Outcome
  extra_cases op v =
      if op == 15
      then nsha1 v
      else if op == 16
      then nsha224 v
      else if op == 17
      then nsha384 v
      else if op == 18
      then nsha512_256 v
      else if op == 19
      then nmd5 v
      else if op == 20
      then hmac1 v
      else if op == 21
      then hmac384 v
      else if op == 22
      then hmac512 v
      else if op == 23
      then aesgcm128 v
      else if op == 24
      then aesgcm192 v
      else if op == 26
      then cmac256 v
      else abstain

  -- The switch; 7, 13 and 14 are not among the first cases.
  unfoldable pub nettle_cases : ℕ → Vec → Outcome
  nettle_cases op v =
      if op == 0
      then sha256 v
      else if op == 1
      then sha512 v
      else if op == 2
      then hmac256 v
      else if op == 3
      then chachapoly v
      else if op == 4
      then aesgcm v
      else if op == 5
      then sha3_256 v
      else if op == 6
      then sha3_512 v
      else if op == 8
      then shake256 v
      else if op == 9
      then hkdf v
      else if op == 10
      then pbkdf2 v
      else if op == 11
      then ed25519 v
      else if op == 12
      then x25519 v
      else extra_cases op v

  -- `main`; `fault` is a build with CMF_DIFF_FAULT.
  unfoldable pub nettle_main : Bool → List ℕ → Option (List ℕ)
  unfolding nettle_cases
  nettle_main fault stdin = serve 8192 fault (switch_op nettle_cases) stdin
