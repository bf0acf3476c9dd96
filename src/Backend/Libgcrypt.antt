-- ===== src/Backend/Libgcrypt.antt =====
-- harness/subproc/compute_libgcrypt.c.
pub mod Contract
use cmfuzz.Base.{
  ℕ, ◌+◌, List, [], ◌∷◌, ◌++◌, Option, none, some, Bool, true, false, ◌==◌, if◌then◌else◌, length,
  take,
}
use cmfuzz.Base.Chain.{◌>>=◌}
use cmfuzz.Protocol.Names.{Md}
use cmfuzz.Protocol.Vec.{keylen, taglen, Vec}
use cmfuzz.Backend.Serve.{Outcome, abstain, computed, outcome_of, switch_op, serve}

-- GCRY_MAC_*, and the pairs of GCRY_CIPHER_* and GCRY_CIPHER_MODE_* that are used.
pub data MacAlgo : Type 0 where
  hmac_of : Md → MacAlgo
  poly1305 cmac_aes : MacAlgo

pub data CipherMode : Type 0 where
  chacha20_poly1305 aes128_gcm aes192_gcm aes256_gcm : CipherMode

-- The calls of libgcrypt, which is not part of the program; `none` is an error code.
pub record GcryptCalls : Type 1 where
  pub MdHandle : Type 0
  pub MacHandle : Type 0
  pub CipherHandle : Type 0
  -- gcry_check_version(NULL) is not NULL.
  pub check_version : Bool
  -- gcry_md_get_algo_dlen and gcry_md_hash_buffer.
  pub md_get_algo_dlen : Md → ℕ
  pub md_hash_buffer : Md → List ℕ → List ℕ
  pub md_open : Md → Option MdHandle
  pub md_write : MdHandle → List ℕ → MdHandle
  pub md_extract : MdHandle → Md → ℕ → Option (List ℕ)
  -- gcry_mac_read is told the room.
  pub mac_open : MacAlgo → Option MacHandle
  pub mac_setkey : MacHandle → List ℕ → Option MacHandle
  pub mac_write : MacHandle → List ℕ → Option MacHandle
  pub mac_read : MacHandle → ℕ → Option (List ℕ)
  pub cipher_open : CipherMode → Option CipherHandle
  pub cipher_setkey : CipherHandle → List ℕ → Option CipherHandle
  pub cipher_setiv : CipherHandle → List ℕ → Option CipherHandle
  pub cipher_authenticate : CipherHandle → List ℕ → Option CipherHandle
  pub cipher_encrypt : CipherHandle → List ℕ → Option (List ℕ × CipherHandle)
  pub cipher_gettag : CipherHandle → ℕ → Option (List ℕ)
  -- gcry_kdf_derive with GCRY_KDF_PBKDF2: password, digest, salt, iterations, length.
  pub kdf_derive : List ℕ → Md → List ℕ → ℕ → ℕ → Option (List ℕ)

module _ (lib : GcryptCalls) where
  -- The first bytes of `out`, as many as the digest has.
  abbrev pub hash_buf : Md → Vec → Outcome
  hash_buf algo v = computed (take (lib.md_get_algo_dlen algo) (lib.md_hash_buffer algo v.msg))

  abbrev pub shake : Md → ℕ → Vec → Outcome
  shake algo outlen v =
      outcome_of (do h ← lib.md_open algo; lib.md_extract (lib.md_write h v.msg) algo outlen)

  abbrev pub hmac_algo : MacAlgo → Vec → Outcome
  hmac_algo algo v = outcome_of (do
    h ← lib.mac_open algo
    h ← lib.mac_setkey h (take keylen v.key)
    h ← lib.mac_write h v.msg
    lib.mac_read h 64)

  abbrev pub hmac256 : Vec → Outcome
  hmac256 v = hmac_algo (hmac_of Md.sha256) v

  -- The additional data is skipped if empty.
  abbrev pub authenticate : lib.CipherHandle → List ℕ → Option lib.CipherHandle
  authenticate h aad = if length aad == 0 then some h else lib.cipher_authenticate h aad

  abbrev pub aead_kl : CipherMode → ℕ → Vec → Outcome
  aead_kl cipher size v = outcome_of (do
    h ← lib.cipher_open cipher
    h ← lib.cipher_setkey h (take size v.key)
    h ← lib.cipher_setiv h v.nonce
    h ← authenticate h v.aad
    body ← lib.cipher_encrypt h v.msg
    tag ← lib.cipher_gettag body.1 taglen
    some (body.0 ++ tag))

  abbrev pub aead : CipherMode → Vec → Outcome
  aead cipher v = aead_kl cipher keylen v

  abbrev pub pbkdf2 : Vec → Outcome
  pbkdf2 v = outcome_of (lib.kdf_derive v.msg Md.sha256 (take keylen v.key) 4096 32)

  -- The cases of the switch from 15 on.
  abbrev pub extra_cases : ℕ → Vec → Outcome
  extra_cases op v =
      if op == 15
      then hash_buf Md.sha1 v
      else if op == 16
      then hash_buf Md.sha224 v
      else if op == 17
      then hash_buf Md.sha384 v
      else if op == 18
      then hash_buf Md.sha512_256 v
      else if op == 19
      then hash_buf Md.md5 v
      else if op == 20
      then hmac_algo (hmac_of Md.sha1) v
      else if op == 21
      then hmac_algo (hmac_of Md.sha384) v
      else if op == 22
      then hmac_algo (hmac_of Md.sha512) v
      else if op == 23
      then aead_kl aes128_gcm 16 v
      else if op == 24
      then aead_kl aes192_gcm 24 v
      else if op == 25
      then hmac_algo poly1305 v
      else if op == 26
      then hmac_algo cmac_aes v
      else abstain

  -- The switch.
  unfoldable pub gcrypt_cases : ℕ → Vec → Outcome
  gcrypt_cases op v =
      if op == 0
      then hash_buf Md.sha256 v
      else if op == 1
      then hash_buf Md.sha512 v
      else if op == 2
      then hmac256 v
      else if op == 3
      then aead chacha20_poly1305 v
      else if op == 4
      then aead aes256_gcm v
      else if op == 5
      then hash_buf Md.sha3_256 v
      else if op == 6
      then hash_buf Md.sha3_512 v
      else if op == 7
      then shake Md.shake128 32 v
      else if op == 8
      then shake Md.shake256 64 v
      else if op == 10
      then pbkdf2 v
      else extra_cases op v

  -- `main`: nothing is printed (and 2 is returned) if the library cannot be initialised; `fault` is
  -- a build with CMF_DIFF_FAULT.
  pub gcrypt_main : Bool → List ℕ → Option (List ℕ)
  unfolding gcrypt_cases
  gcrypt_main fault stdin =
      if lib.check_version then serve 8192 fault (switch_op gcrypt_cases) stdin else some []
