-- ===== src/Backend/Wolfssl.antt =====
-- harness/subproc/compute_wolfssl.c.
pub mod Contract
use cmfuzz.Base.{
  ℕ, ◌+◌, ◌%◌, ◌^◌, List, [], ◌∷◌, ◌++◌, Option, none, some, Bool, true, false, ◌==◌, if◌then◌else◌,
  length, take,
}
use cmfuzz.Base.Chain.{◌>>=◌, holds}
use cmfuzz.Protocol.Names.{Md}
use cmfuzz.Protocol.Vec.{keylen, taglen, Vec}
use cmfuzz.Protocol.Payload.{Views}
use cmfuzz.Backend.Serve.{Outcome, abstain, computed, outcome_of, verify_outcome, switch_op, serve}

-- The calls of wolfCrypt, which is not part of the program; `none` is an error code.
pub record WolfCalls : Type 1 where
  pub RsaKey : Type 0
  pub EccKey : Type 0
  pub EdKey : Type 0
  pub CurveKey : Type 0
  pub Rng : Type 0
  pub Shake : Type 0
  pub Hmac : Type 0
  pub Aes : Type 0
  -- wc_Sha256Hash, wc_Sha512Hash, wc_Sha3_256Hash, wc_Sha3_512Hash.
  pub hash : Md → List ℕ → Option (List ℕ)
  -- wc_InitRsaKey, wc_RsaPublicKeyDecodeRaw with modulus and exponent, and wc_RsaPSS_VerifyCheck
  -- with the signature and the hash: a result above 0.
  pub init_rsa_key : Option RsaKey
  pub rsa_public_key_decode_raw : RsaKey → List ℕ → List ℕ → Option RsaKey
  pub rsa_pss_verify_check : RsaKey → List ℕ → List ℕ → Bool
  -- wc_ecc_init, wc_ecc_import_x963, and wc_ecc_verify_hash with the signature and the hash: `stat`.
  pub ecc_init : Option EccKey
  pub ecc_import_x963 : EccKey → List ℕ → Option EccKey
  pub ecc_verify_hash : EccKey → List ℕ → List ℕ → Option Bool
  pub ed25519_init : Option EdKey
  pub ed25519_import_private_only : EdKey → List ℕ → Option EdKey
  pub ed25519_make_public : EdKey → Option (List ℕ)
  pub ed25519_import_public : EdKey → List ℕ → Option EdKey
  pub ed25519_sign_msg : EdKey → List ℕ → Option (List ℕ)
  pub curve25519_init : Option CurveKey
  pub init_rng : Option Rng
  pub curve25519_import_private : CurveKey → List ℕ → Option CurveKey
  pub curve25519_import_public : CurveKey → List ℕ → Option CurveKey
  pub curve25519_set_rng : CurveKey → Rng → Option CurveKey
  pub curve25519_shared_secret : CurveKey → CurveKey → Option (List ℕ)
  -- wc_HKDF: digest, input key, salt, info, length; wc_PBKDF2: password, salt, iterations, length,
  -- digest.
  pub hkdf : Md → List ℕ → List ℕ → List ℕ → ℕ → Option (List ℕ)
  pub pbkdf2 : List ℕ → List ℕ → ℕ → ℕ → Md → Option (List ℕ)
  -- wc_InitShake128, wc_Shake128_Update, wc_Shake128_Final, and those of 256.
  pub init_shake : Md → Option Shake
  pub shake_update : Md → Shake → List ℕ → Option Shake
  pub shake_final : Md → Shake → ℕ → Option (List ℕ)
  pub hmac_init : Option Hmac
  pub hmac_set_key : Hmac → Md → List ℕ → Option Hmac
  pub hmac_update : Hmac → List ℕ → Option Hmac
  pub hmac_final : Hmac → Option (List ℕ)
  -- The ciphertext and the tag: key, nonce, additional data and message; for AES the key is set
  -- before, and the tag's length is told.
  pub chacha20_poly1305_encrypt : List ℕ → List ℕ → List ℕ → List ℕ → Option (List ℕ × List ℕ)
  pub aes_init : Option Aes
  pub aes_gcm_set_key : Aes → List ℕ → Option Aes
  pub aes_gcm_encrypt : Aes → List ℕ → List ℕ → ℕ → List ℕ → Option (List ℕ × List ℕ)

-- The bytes that a call is told of by a length that is cast to `word32`.
abbrev pub word32_part : List ℕ → List ℕ
word32_part b = take (length b % 2 ^ 32) b

module _ (lib : WolfCalls) where
  -- The verdict on a payload that could be parsed; the exponent is 65537.
  abbrev pub rsa_pss_verdict : Views → Bool
  rsa_pss_verdict p = holds (do
    d ← lib.hash Md.sha256 (word32_part p.msg)
    key ← lib.init_rsa_key
    key ← lib.rsa_public_key_decode_raw key (word32_part p.pub_key) (1 ∷ 0 ∷ 1 ∷ [])
    some (lib.rsa_pss_verify_check key (word32_part p.sig) d))

  abbrev pub rsa_pss_verify : Vec → Outcome
  rsa_pss_verify v = verify_outcome rsa_pss_verdict v

  abbrev pub ecdsa_verdict : Views → Bool
  ecdsa_verdict p = holds (do
    d ← lib.hash Md.sha256 (word32_part p.msg)
    key ← lib.ecc_init
    key ← lib.ecc_import_x963 key (word32_part p.pub_key)
    lib.ecc_verify_hash key (word32_part p.sig) d)

  abbrev pub ecdsa_verify : Vec → Outcome
  ecdsa_verify v = verify_outcome ecdsa_verdict v

  -- The public key that is made is given back to the key object.
  abbrev pub ed25519_sign : Vec → Outcome
  ed25519_sign v = outcome_of (do
    k ← lib.ed25519_init
    k ← lib.ed25519_import_private_only k (take keylen v.key)
    public_key ← lib.ed25519_make_public k
    k ← lib.ed25519_import_public k public_key
    lib.ed25519_sign_msg k (word32_part v.msg))

  -- The peer's key is the 32 bytes that the message begins with.
  -- The peer's key is the 32 bytes that the message begins with; behind a shorter message the source
  -- reads on, which is not modelled.
  abbrev pub x25519_ss : Vec → Outcome
  x25519_ss v = outcome_of (do
    priv ← lib.curve25519_init
    peer ← lib.curve25519_init
    rng ← lib.init_rng
    priv ← lib.curve25519_import_private priv (take keylen v.key)
    peer ← lib.curve25519_import_public peer (take 32 v.msg)
    priv ← lib.curve25519_set_rng priv rng
    lib.curve25519_shared_secret priv peer)

  abbrev pub hkdf : Vec → Outcome
  hkdf v =
      outcome_of (lib.hkdf Md.sha256 (word32_part v.msg) (take keylen v.key) (word32_part v.aad) 42)

  -- The length of the password is cast to `int`, which is 32 bits wide; a password of 2 ^ 31 bytes
  -- or more, whose length would be negative, is none that a request can hold.
  abbrev pub pbkdf2 : Vec → Outcome
  pbkdf2 v = outcome_of (lib.pbkdf2 (word32_part v.msg) (take keylen v.key) 4096 32 Md.sha256)

  abbrev pub sha256 : Vec → Outcome
  sha256 v = outcome_of (lib.hash Md.sha256 (word32_part v.msg))

  abbrev pub sha512 : Vec → Outcome
  sha512 v = outcome_of (lib.hash Md.sha512 (word32_part v.msg))

  abbrev pub sha3_256 : Vec → Outcome
  sha3_256 v = outcome_of (lib.hash Md.sha3_256 (word32_part v.msg))

  abbrev pub sha3_512 : Vec → Outcome
  sha3_512 v = outcome_of (lib.hash Md.sha3_512 (word32_part v.msg))

  abbrev pub shake128 : Vec → Outcome
  shake128 v = outcome_of (do
    sk ← lib.init_shake Md.shake128
    sk ← lib.shake_update Md.shake128 sk (word32_part v.msg)
    lib.shake_final Md.shake128 sk 32)

  abbrev pub shake256 : Vec → Outcome
  shake256 v = outcome_of (do
    sk ← lib.init_shake Md.shake256
    sk ← lib.shake_update Md.shake256 sk (word32_part v.msg)
    lib.shake_final Md.shake256 sk 64)

  abbrev pub hmac256 : Vec → Outcome
  hmac256 v = outcome_of (do
    h ← lib.hmac_init
    h ← lib.hmac_set_key h Md.sha256 (take keylen v.key)
    h ← lib.hmac_update h (word32_part v.msg)
    lib.hmac_final h)

  abbrev pub chachapoly : Vec → Outcome
  chachapoly v = outcome_of (do
    out ← lib.chacha20_poly1305_encrypt v.key v.nonce (word32_part v.aad) (word32_part v.msg)
    some (out.0 ++ out.1))

  abbrev pub aesgcm : Vec → Outcome
  aesgcm v = outcome_of (do
    aes ← lib.aes_init
    aes ← lib.aes_gcm_set_key aes (take keylen v.key)
    out ← lib.aes_gcm_encrypt aes (word32_part v.msg) v.nonce taglen (word32_part v.aad)
    some (out.0 ++ out.1))

  unfoldable pub wolfssl_cases : ℕ → Vec → Outcome
  wolfssl_cases op v =
      if op == 0
      then sha256 v
      else if op == 1
      then sha512 v
      else if op == 2
      then hmac256 v
      else if op == 3
      then chachapoly v
      else if op == 4
      then aesgcm v
      else if op == 5
      then sha3_256 v
      else if op == 6
      then sha3_512 v
      else if op == 7
      then shake128 v
      else if op == 8
      then shake256 v
      else if op == 9
      then hkdf v
      else if op == 10
      then pbkdf2 v
      else if op == 11
      then ed25519_sign v
      else if op == 12
      then x25519_ss v
      else if op == 13
      then ecdsa_verify v
      else if op == 14
      then rsa_pss_verify v
      else abstain

  -- `main`; `fault` is a build with CMF_DIFF_FAULT.
  pub wolfssl_main : Bool → List ℕ → Option (List ℕ)
  unfolding wolfssl_cases
  wolfssl_main fault stdin = serve (4096 + 64) fault (switch_op wolfssl_cases) stdin
