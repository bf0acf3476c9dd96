-- ===== src/Runner/OpenSsl.antt =====
-- The OpenSSL calls of the runner. The library is not part of the program, so it is a record of
-- functions; `none` is a NULL, a 0 or a negative result. An `Entropy` is what a call draws from the
-- library's own generator.
use cmfuzz.Base.{ℕ, List, Option, Bool}
pub use cmfuzz.Protocol.Names.{
  Md, sha1, sha224, sha256, sha384, sha512, sha512_256, sha3_256, sha3_512, shake128, shake256, md5,
}
pub use cmfuzz.Protocol.Names.{
  Cipher, chacha20_poly1305, aes_128_gcm, aes_192_gcm, aes_256_gcm, aes_256_cbc,
}

pub data MacName : Type 0 where
  poly1305 cmac : MacName

pub data KeyType : Type 0 where
  ed25519 x25519 : KeyType

pub record OpenSsl : Type 1 where
  pub Entropy : Type 0
  pub CipherCtx : Type 0
  pub MdCtx : Type 0
  pub KdfCtx : Type 0
  pub MacCtx : Type 0
  pub Pkey : Type 0
  pub PkeyCtx : Type 0
  -- EVP_CIPHER_CTX_new, EVP_EncryptInit_ex with a cipher, EVP_CTRL_AEAD_SET_IVLEN,
  -- EVP_EncryptInit_ex with key and nonce, EVP_EncryptUpdate without and with an output,
  -- EVP_EncryptFinal_ex, EVP_CTRL_AEAD_GET_TAG.
  pub cipher_ctx_new : Option CipherCtx
  pub encrypt_init : CipherCtx → Cipher → CipherCtx
  pub set_ivlen : CipherCtx → ℕ → CipherCtx
  pub set_key_iv : CipherCtx → List ℕ → List ℕ → CipherCtx
  pub update_aad : CipherCtx → List ℕ → CipherCtx
  pub encrypt_update : CipherCtx → List ℕ → List ℕ × CipherCtx
  pub encrypt_final : CipherCtx → List ℕ × CipherCtx
  pub get_tag : CipherCtx → ℕ → List ℕ
  -- EVP_Digest, EVP_MD_CTX_new, EVP_DigestInit_ex, EVP_DigestUpdate, EVP_DigestFinalXOF, HMAC.
  pub digest : Md → List ℕ → Option (List ℕ)
  pub md_ctx_new : Option MdCtx
  pub digest_init : MdCtx → Md → Option MdCtx
  pub digest_update : MdCtx → List ℕ → Option MdCtx
  pub digest_final_xof : MdCtx → ℕ → Option (List ℕ)
  pub hmac : Md → List ℕ → List ℕ → Option (List ℕ)
  -- EVP_KDF_fetch("HKDF") with EVP_KDF_CTX_new, and EVP_KDF_derive with the digest, key, salt and
  -- info parameters; PKCS5_PBKDF2_HMAC.
  pub hkdf_ctx_new : Option KdfCtx
  pub hkdf_derive : KdfCtx → Md → List ℕ → List ℕ → List ℕ → ℕ → Option (List ℕ)
  pub pbkdf2 : List ℕ → List ℕ → ℕ → Md → ℕ → Option (List ℕ)
  -- EVP_MAC_fetch with EVP_MAC_CTX_new, EVP_MAC_init, EVP_MAC_update, EVP_MAC_final.
  pub mac_ctx_new : MacName → Option MacCtx
  pub mac_init : MacCtx → List ℕ → Option Cipher → Option MacCtx
  pub mac_update : MacCtx → List ℕ → Option MacCtx
  pub mac_final : MacCtx → ℕ → Option (List ℕ)
  -- Keys, signatures and key agreement; EVP_DigestSign and EVP_PKEY_derive are told the room.
  pub raw_private_key : KeyType → List ℕ → Option Pkey
  pub raw_public_key : KeyType → List ℕ → Option Pkey
  pub sign_init : MdCtx → Option Md → Pkey → Option MdCtx
  pub digest_sign : Entropy → MdCtx → ℕ → List ℕ → Option (List ℕ)
  pub verify_init : MdCtx → Option Md → Pkey → Option MdCtx
  pub digest_verify : MdCtx → List ℕ → List ℕ → Bool
  pub pkey_ctx_new : Pkey → Option PkeyCtx
  pub derive_init : PkeyCtx → Option PkeyCtx
  pub derive_set_peer : PkeyCtx → Pkey → Option PkeyCtx
  pub derive : PkeyCtx → ℕ → Option (List ℕ)
  -- EVP_EC_gen("P-256"), EVP_RSA_gen(2048), EVP_PKEY_get1_encoded_public_key, the modulus by
  -- EVP_PKEY_get_bn_param and BN_bn2bin, and the PSS parameters set on a signing context.
  pub ec_gen : Entropy → Option Pkey
  pub rsa_gen : Entropy → Option Pkey
  pub encoded_public_key : Pkey → Option (List ℕ)
  pub rsa_modulus : Pkey → Option (List ℕ)
  pub set_pss : MdCtx → ℕ → Md → Option MdCtx
