-- ===== src/Backend/Libgcrypt/Contract.antt =====
-- The libgcrypt backend keeps the contract.
use mathlib.Core.Path.{fun_ext}
use cmfuzz.Base.{
  ℕ, ◌≡◌, ◌≤◌, refl, ap, ◌∙◌, arith, List, [], ◌∷◌, ◌++◌, Option, some, length, take, take_all, inl,
}
use cmfuzz.Base.Chain.{◌>>=◌}
use cmfuzz.Base.Tables.{by_table, ◌&◌}
use cmfuzz.Protocol.Names.{Md, Cipher}
use cmfuzz.Protocol.Vec.{Vec}
use cmfuzz.Protocol.Ops.{Primitives, outputs}
use cmfuzz.Backend.Serve.{computed, outcome_of}
use cmfuzz.Backend.Contract.{Owes, AreSealable, IsSent, IsSent-AreSealable, offers, skip_empty}
use cmfuzz.Backend.Libgcrypt.{
  MacAlgo, hmac_of, poly1305, cmac_aes, CipherMode, chacha20_poly1305, aes128_gcm, aes192_gcm,
  aes256_gcm, GcryptCalls, gcrypt_cases, authenticate, aead_kl, hmac_algo,
}

-- The ops that libgcrypt leaves out: HKDF and those with public keys.
abbrev pub gcrypt_missing : List ℕ
gcrypt_missing = 9 ∷ 11 ∷ 12 ∷ 13 ∷ 14 ∷ []

-- What a cipher handle and a MAC handle are opened for.
abbrev pub cipher_of : CipherMode → Cipher
cipher_of chacha20_poly1305 = Cipher.chacha20_poly1305
cipher_of aes128_gcm = Cipher.aes_128_gcm
cipher_of aes192_gcm = Cipher.aes_192_gcm
cipher_of aes256_gcm = Cipher.aes_256_gcm

abbrev pub mac_of : Primitives → MacAlgo → List ℕ → List ℕ → List ℕ
mac_of p (hmac_of md) key msg = p.hmac md key msg
mac_of p poly1305 key msg = p.poly1305 key msg
mac_of p cmac_aes key msg = p.cmac key msg

-- What the manual of libgcrypt says of the calls, where no allocation fails.
pub record GcryptKeeps (lib : GcryptCalls) (p : Primitives) : Type 0 where
  pub hashes :
      (md : Md) (msg : List ℕ)
      → take (lib.md_get_algo_dlen md) (lib.md_hash_buffer md msg) ≡ p.hash md msg
  pub extracts :
      (md : Md) (msg : List ℕ) (n : ℕ)
      → (do h ← lib.md_open md; lib.md_extract (lib.md_write h msg) md n) ≡ some (p.xof md msg n)
  -- 64 bytes are room for every MAC.
  pub macs :
      (algo : MacAlgo) (key msg : List ℕ)
      → length key ≡ 32
      → (do
        h ← lib.mac_open algo
        h ← lib.mac_setkey h key
        h ← lib.mac_write h msg
        lib.mac_read h 64)
        ≡ some (mac_of p algo key msg)
  pub seals :
      (cipher : CipherMode) (key nonce aad msg : List ℕ)
      → AreSealable (cipher_of cipher) key nonce aad msg
      → (do
        h ← lib.cipher_open cipher
        h ← lib.cipher_setkey h key
        h ← lib.cipher_setiv h nonce
        h ← lib.cipher_authenticate h aad
        body ← lib.cipher_encrypt h msg
        tag ← lib.cipher_gettag body.1 16
        some (body.0 ++ tag))
        ≡ some (
            p.encrypt (cipher_of cipher) key nonce aad msg
            ++ p.tag (cipher_of cipher) key nonce aad msg)
  -- Authenticating no bytes changes nothing.
  pub no_aad : (h : lib.CipherHandle) → lib.cipher_authenticate h [] ≡ some h
  pub derives :
      (password : List ℕ) (md : Md) (salt : List ℕ) (rounds n : ℕ)
      → 1 ≤ length salt
      → 1 ≤ rounds
      → 1 ≤ n
      → lib.kdf_derive password md salt rounds n ≡ some (p.pbkdf2 password salt rounds md n)

module _ (lib : GcryptCalls) (p : Primitives) (keeps : GcryptKeeps lib p) (v : Vec) where
  authenticates : authenticate lib ≡ lib.cipher_authenticate
  authenticates =
      fun_ext
        (λ h. fun_ext (λ aad. skip_empty (some h) (lib.cipher_authenticate h) aad (keeps.no_aad h)))

  -- The calls with the additional data, by a given call.
  abbrev sealed_with :
      CipherMode → ℕ → (lib.CipherHandle → List ℕ → Option lib.CipherHandle) → Option (List ℕ)
  sealed_with cipher n auth = do
    h ← lib.cipher_open cipher
    h ← lib.cipher_setkey h (take n v.key)
    h ← lib.cipher_setiv h v.nonce
    h ← auth h v.aad
    body ← lib.cipher_encrypt h v.msg
    tag ← lib.cipher_gettag body.1 16
    some (body.0 ++ tag)

  aead_kl-sealed :
      (cipher : CipherMode) (n : ℕ)
      → AreSealable (cipher_of cipher) (take n v.key) v.nonce v.aad v.msg
      → aead_kl lib cipher n v
        ≡ computed (
            p.encrypt (cipher_of cipher) (take n v.key) v.nonce v.aad v.msg
            ++ p.tag (cipher_of cipher) (take n v.key) v.nonce v.aad v.msg)
  aead_kl-sealed cipher n sealable = ap outcome_of (
      ap (sealed_with cipher n) authenticates
      ∙ keeps.seals cipher (take n v.key) v.nonce v.aad v.msg sealable)

  hmac_algo-mac :
      (algo : MacAlgo)
      → length v.key ≡ 32
      → hmac_algo lib algo v ≡ computed (mac_of p algo v.key v.msg)
  hmac_algo-mac algo size =
      let whole : take 32 v.key ≡ v.key = take_all 32 v.key (omega arith) in
      rw whole (ap outcome_of (keeps.macs algo v.key v.msg size))

-- If the calls of libgcrypt compute what its manual says, then on every request of the runner's
-- sizes (a key of 32 bytes, a nonce of 12, at most 63 bytes of additional data and 2048 of
-- message) the backend computes the promised bytes for each op but 9 and 11 to 14, and abstains on
-- those and on all numbers that are no op.
pub gcrypt-Owes :
    (lib : GcryptCalls) (p : Primitives)
    → GcryptKeeps lib p
    → (v : Vec) (op : ℕ) → IsSent op v
    → Owes (offers gcrypt_missing op) p op v (gcrypt_cases lib op v)
unfolding gcrypt_cases outputs
gcrypt-Owes lib p keeps v op sent =
    let key = sent.request.has_key in
    let sealable = IsSent-AreSealable op v sent in
    let hash = λ (md : Md). ap computed (keeps.hashes md v.msg) in
    let mac = λ (algo : MacAlgo). hmac_algo-mac lib p keeps v algo key.0 in
    let seal = aead_kl-sealed lib p keeps v in
    let whole : take 32 v.key ≡ v.key = take_all 32 v.key (omega arith) in
    by_table (λ o. Owes (offers gcrypt_missing o) p o v (gcrypt_cases lib o v)) 27
      (inl (hash Md.sha256)
        & inl (hash Md.sha512)
        & inl (mac (hmac_of Md.sha256))
        & inl (seal chacha20_poly1305 32 (sealable Cipher.chacha20_poly1305))
        & inl (seal aes256_gcm 32 (sealable Cipher.aes_256_gcm))
        & inl (hash Md.sha3_256)
        & inl (hash Md.sha3_512)
        & inl (ap outcome_of (keeps.extracts Md.shake128 v.msg 32))
        & inl (ap outcome_of (keeps.extracts Md.shake256 v.msg 64))
        & refl
        & inl (
            ap outcome_of (
              ap (λ (k : List ℕ). lib.kdf_derive v.msg Md.sha256 k 4096 32) whole
              ∙ keeps.derives v.msg Md.sha256 v.key 4096 32 (omega arith) (omega arith)
                  (omega arith)))
        & refl
        & refl
        & refl
        & refl
        & inl (hash Md.sha1)
        & inl (hash Md.sha224)
        & inl (hash Md.sha384)
        & inl (hash Md.sha512_256)
        & inl (hash Md.md5)
        & inl (mac (hmac_of Md.sha1))
        & inl (mac (hmac_of Md.sha384))
        & inl (mac (hmac_of Md.sha512))
        & inl (seal aes128_gcm 16 (sealable Cipher.aes_128_gcm))
        & inl (seal aes192_gcm 24 (sealable Cipher.aes_192_gcm))
        & inl (mac poly1305)
        & inl (mac cmac_aes)
        & tt)
      (λ o h. ground arith) op
