-- ===== src/Backend/AwsLc.antt =====
-- harness/subproc/compute_aws_lc.c. Its functions, but for `xof`, are word for word those of
-- compute_boringssl.c.
pub mod Contract
use cmfuzz.Base.{
  ℕ, ◌+◌, List, [], ◌∷◌, Option, none, some, Bool, true, false, ◌==◌, if◌then◌else◌, length, take,
}
use cmfuzz.Base.Chain.{◌>>=◌, holds}
use cmfuzz.Protocol.Names.{Md, Cipher}
use cmfuzz.Protocol.Vec.{keylen, taglen, Vec}
use cmfuzz.Protocol.Payload.{Views}
use cmfuzz.Backend.Serve.{
  Outcome, abstain, failed, computed, outcome_of, verify_outcome, switch_op, serve,
}

-- The calls of aws-lc and of BoringSSL, which are not part of the program; `none` is a NULL or a
-- result that is not 1.
pub record BoringCalls : Type 1 where
  pub Rsa : Type 0
  pub BigNum : Type 0
  pub EcKey : Type 0
  pub EcPoint : Type 0
  pub MdCtx : Type 0
  pub AeadCtx : Type 0
  -- SHA256; RSA_new, BN_bin2bn, BN_new, BN_set_word, RSA_set0_key, and RSA_verify_pss_mgf1 with the
  -- hash, the two digests, the salt's length and the signature.
  pub sha256 : List ℕ → List ℕ
  pub rsa_new : Option Rsa
  pub bn_bin2bn : List ℕ → Option BigNum
  pub bn_new : Option BigNum
  pub bn_set_word : BigNum → ℕ → Option BigNum
  pub rsa_set0_key : Rsa → BigNum → BigNum → Option Rsa
  pub rsa_verify_pss_mgf1 : Rsa → List ℕ → Md → Md → ℕ → List ℕ → Bool
  -- EC_KEY_new_by_curve_name for P-256, EC_POINT_new on its group, EC_POINT_oct2point,
  -- EC_KEY_set_public_key, and ECDSA_verify with the hash and the signature.
  pub ec_key_new : Option EcKey
  pub ec_point_new : EcKey → Option EcPoint
  pub ec_point_oct2point : EcKey → EcPoint → List ℕ → Option EcPoint
  pub ec_key_set_public_key : EcKey → EcPoint → Option EcKey
  pub ecdsa_verify : EcKey → List ℕ → List ℕ → Bool
  -- ED25519_keypair_from_seed gives the private key; ED25519_sign, X25519.
  pub ed25519_keypair_from_seed : List ℕ → List ℕ
  pub ed25519_sign : List ℕ → List ℕ → Option (List ℕ)
  pub x25519 : List ℕ → List ℕ → Option (List ℕ)
  -- HKDF with its length, digest, input key, salt and info; PKCS5_PBKDF2_HMAC.
  pub hkdf : ℕ → Md → List ℕ → List ℕ → List ℕ → Option (List ℕ)
  pub pbkdf2_hmac : List ℕ → List ℕ → ℕ → Md → ℕ → Option (List ℕ)
  pub digest : Md → List ℕ → Option (List ℕ)
  pub hmac : Md → List ℕ → List ℕ → Option (List ℕ)
  pub md_ctx_new : Option MdCtx
  pub digest_init : MdCtx → Md → Option MdCtx
  pub digest_update : MdCtx → List ℕ → Option MdCtx
  pub digest_final_xof : MdCtx → ℕ → Option (List ℕ)
  -- EVP_AEAD_key_length, EVP_AEAD_CTX_new with the default tag, and EVP_AEAD_CTX_seal with the
  -- room, the nonce, the message and the additional data.
  pub aead_key_length : Cipher → ℕ
  pub aead_ctx_new : Cipher → List ℕ → Option AeadCtx
  pub aead_ctx_seal : AeadCtx → ℕ → List ℕ → List ℕ → List ℕ → Option (List ℕ)

module _ (lib : BoringCalls) where
  -- The verdict on a payload that could be parsed.
  abbrev pub rsa_pss_verdict : Views → Bool
  rsa_pss_verdict p = holds (do
    rsa ← lib.rsa_new
    n ← lib.bn_bin2bn p.pub_key
    e ← lib.bn_new
    e ← lib.bn_set_word e 65537
    rsa ← lib.rsa_set0_key rsa n e
    some (lib.rsa_verify_pss_mgf1 rsa (lib.sha256 p.msg) Md.sha256 Md.sha256 32 p.sig))

  abbrev pub rsa_pss_verify : Vec → Outcome
  rsa_pss_verify v = verify_outcome rsa_pss_verdict v

  abbrev pub ecdsa_verdict : Views → Bool
  ecdsa_verdict p = holds (do
    k ← lib.ec_key_new
    pt ← lib.ec_point_new k
    pt ← lib.ec_point_oct2point k pt p.pub_key
    k ← lib.ec_key_set_public_key k pt
    some (lib.ecdsa_verify k (lib.sha256 p.msg) p.sig))

  abbrev pub ecdsa_verify : Vec → Outcome
  ecdsa_verify v = verify_outcome ecdsa_verdict v

  abbrev pub ed25519 : Vec → Outcome
  ed25519 v = outcome_of (lib.ed25519_sign v.msg (lib.ed25519_keypair_from_seed v.key))

  -- The peer's key is the 32 bytes that the message begins with; behind a shorter message the source
  -- reads on, which is not modelled.
  abbrev pub x25519 : Vec → Outcome
  x25519 v = outcome_of (lib.x25519 v.key (take 32 v.msg))

  abbrev pub hkdf : Vec → Outcome
  hkdf v = outcome_of (lib.hkdf 42 Md.sha256 v.msg (take keylen v.key) v.aad)

  abbrev pub pbkdf2 : Vec → Outcome
  pbkdf2 v = outcome_of (lib.pbkdf2_hmac v.msg (take keylen v.key) 4096 Md.sha256 32)

  abbrev pub digest : Md → Vec → Outcome
  digest md v = outcome_of (lib.digest md v.msg)

  abbrev pub hmac256 : Vec → Outcome
  hmac256 v = outcome_of (lib.hmac Md.sha256 (take keylen v.key) v.msg)

  abbrev pub xof : Md → ℕ → Vec → Outcome
  xof md outlen v = outcome_of (do
    c ← lib.md_ctx_new
    c ← lib.digest_init c md
    c ← lib.digest_update c v.msg
    lib.digest_final_xof c outlen)

  abbrev pub aead : Cipher → Vec → Outcome
  aead a v = outcome_of (do
    c ← lib.aead_ctx_new a (take (lib.aead_key_length a) v.key)
    lib.aead_ctx_seal c (length v.msg + taglen) v.nonce v.msg v.aad)

  unfoldable pub aws_lc_cases : ℕ → Vec → Outcome
  aws_lc_cases op v =
      if op == 0
      then digest Md.sha256 v
      else if op == 1
      then digest Md.sha512 v
      else if op == 2
      then hmac256 v
      else if op == 3
      then aead Cipher.chacha20_poly1305 v
      else if op == 4
      then aead Cipher.aes_256_gcm v
      else if op == 5
      then digest Md.sha3_256 v
      else if op == 6
      then digest Md.sha3_512 v
      else if op == 7
      then xof Md.shake128 32 v
      else if op == 8
      then xof Md.shake256 64 v
      else if op == 9
      then hkdf v
      else if op == 10
      then pbkdf2 v
      else if op == 11
      then ed25519 v
      else if op == 12
      then x25519 v
      else if op == 13
      then ecdsa_verify v
      else if op == 14
      then rsa_pss_verify v
      else abstain

  -- `main`; `fault` is a build with CMF_DIFF_FAULT.
  pub aws_lc_main : Bool → List ℕ → Option (List ℕ)
  unfolding aws_lc_cases
  aws_lc_main fault stdin = serve (4096 + 64) fault (switch_op aws_lc_cases) stdin
