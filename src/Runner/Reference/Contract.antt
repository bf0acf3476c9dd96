-- ===== src/Runner/Reference/Contract.antt =====
-- The reference computes what the ops promise.
use mathlib.Core.Path.{fun_ext}
use cmfuzz.Base.{
  ℕ, ◌<◌, ◌≡◌, refl, subst, ap, ◌∙◌, arith, List, [], ◌++◌, Option, none, some, Bool, true, false,
  ◌==◌, if◌then◌else◌, length, take, take_all, replicate, bytes_eq, inl,
}
use cmfuzz.Base.Chain.{◌>>=◌}
use cmfuzz.Base.Tables.{FromTo, FromTo-at, ◌&◌}
use cmfuzz.Protocol.Names.{Md, Cipher, key_bytes}
use cmfuzz.Protocol.Vec.{Vec}
use cmfuzz.Protocol.Ops.{Primitives, outputs, decode_scalar}
use cmfuzz.Backend.Serve.{outcome_of}
use cmfuzz.Backend.Contract.{Fulfils, HasKey, skip_empty, refuses_zero}
use cmfuzz.Runner.OpenSsl.{MacName, KeyType, OpenSsl}
use cmfuzz.Runner.Vote.{is_verify_op}
use cmfuzz.Runner.Reference.{
  Input, ref_digest, ref_xof, ref_hmac_md, ref_aead, ref_hkdf, ref_mac, ref_pbkdf2, ref_ed25519,
  ref_x25519, ref_compute_extra, ref_compute,
}

-- What OpenSSL documents of the calls, where no allocation fails.
pub record SslKeeps (ssl : OpenSsl) (p : Primitives) : Type 0 where
  pub digests : (md : Md) (msg : List ℕ) → ssl.digest md msg ≡ some (p.hash md msg)
  pub hmacs : (md : Md) (key msg : List ℕ) → ssl.hmac md key msg ≡ some (p.hmac md key msg)
  pub xofs :
      (md : Md) (msg : List ℕ) (n : ℕ)
      → (do
        c ← ssl.md_ctx_new
        c ← ssl.digest_init c md
        c ← ssl.digest_update c msg
        ssl.digest_final_xof c n)
        ≡ some (p.xof md msg n)
  -- A cipher reads as many bytes of the key as it needs.
  pub seals :
      (ci : Cipher) (key nonce aad msg : List ℕ)
      → (do
        c ← ssl.cipher_ctx_new
        let c = ssl.set_key_iv (ssl.set_ivlen (ssl.encrypt_init c ci) 12) key nonce
        let body = ssl.encrypt_update (ssl.update_aad c aad) msg
        let end = ssl.encrypt_final body.1
        some (body.0 ++ (end.0 ++ ssl.get_tag end.1 16)))
        ≡ some (
            p.encrypt ci (take (key_bytes ci) key) nonce aad msg
            ++ p.tag ci (take (key_bytes ci) key) nonce aad msg)
  -- An update with no bytes changes nothing.
  pub no_aad : (c : ssl.CipherCtx) → ssl.update_aad c [] ≡ c
  pub hkdfs :
      (md : Md) (ikm salt info : List ℕ) (n : ℕ)
      → (do c ← ssl.hkdf_ctx_new; ssl.hkdf_derive c md ikm salt info n)
        ≡ some (p.hkdf md ikm salt info n)
  pub pbkdf2s :
      (password salt : List ℕ) (rounds : ℕ) (md : Md) (n : ℕ)
      → ssl.pbkdf2 password salt rounds md n ≡ some (p.pbkdf2 password salt rounds md n)
  pub poly1305s :
      (key msg : List ℕ)
      → (do
        c ← ssl.mac_ctx_new MacName.poly1305
        c ← ssl.mac_init c key none
        c ← ssl.mac_update c msg
        ssl.mac_final c 16)
        ≡ some (p.poly1305 key msg)
  pub cmacs :
      (key msg : List ℕ)
      → (do
        c ← ssl.mac_ctx_new MacName.cmac
        c ← ssl.mac_init c key (some Cipher.aes_256_cbc)
        c ← ssl.mac_update c msg
        ssl.mac_final c 16)
        ≡ some (p.cmac key msg)
  pub signs :
      (e : ssl.Entropy) (seed msg : List ℕ)
      → (do
        pk ← ssl.raw_private_key KeyType.ed25519 seed
        c ← ssl.md_ctx_new
        c ← ssl.sign_init c none pk
        ssl.digest_sign e c 64 msg)
        ≡ some (p.ed25519 seed msg)
  -- The all-zero secret is refused.
  pub multiplies :
      (k u : List ℕ)
      → (do
        priv ← ssl.raw_private_key KeyType.x25519 k
        peer ← ssl.raw_public_key KeyType.x25519 u
        ctx ← ssl.pkey_ctx_new priv
        ctx ← ssl.derive_init ctx
        ctx ← ssl.derive_set_peer ctx peer
        ssl.derive ctx 32)
        ≡ (if bytes_eq (p.scalar_mult (decode_scalar k) u) (replicate 32 0)
            then none
            else some (p.scalar_mult (decode_scalar k) u))

-- The fields that the reference reads.
abbrev pub input_of : Vec → Input
input_of v = record { key = v.key; nonce = v.nonce; aad = v.aad; msg = v.msg }

abbrev Reference : (ssl : OpenSsl) → Primitives → ssl.Entropy → Vec → Bool → ℕ → Type 0
Reference ssl p e v true op = Unit {0}
Reference ssl p e v false op = Fulfils p op v (outcome_of (ref_compute ssl e op (input_of v)))

module _ (ssl : OpenSsl) (p : Primitives) (keeps : SslKeeps ssl p) (v : Vec) where
  abbrev sealed_with : Cipher → (ssl.CipherCtx → List ℕ → ssl.CipherCtx) → Option (List ℕ)
  sealed_with ci auth = do
    c ← ssl.cipher_ctx_new
    let c = ssl.set_key_iv (ssl.set_ivlen (ssl.encrypt_init c ci) 12) v.key v.nonce
    let body = ssl.encrypt_update (auth c v.aad) v.msg
    let end = ssl.encrypt_final body.1
    some (body.0 ++ (end.0 ++ ssl.get_tag end.1 16))

  authenticate : ssl.CipherCtx → List ℕ → ssl.CipherCtx
  authenticate c aad = if length aad == 0 then c else ssl.update_aad c aad

  authenticates : authenticate ≡ ssl.update_aad
  unfolding authenticate
  authenticates =
      fun_ext (λ c. fun_ext (λ aad. skip_empty c (ssl.update_aad c) aad (keeps.no_aad c)))

  ref_aead-sealed :
      (ci : Cipher)
      → ref_aead ssl ci (input_of v)
        ≡ some (
            p.encrypt ci (take (key_bytes ci) v.key) v.nonce v.aad v.msg
            ++ p.tag ci (take (key_bytes ci) v.key) v.nonce v.aad v.msg)
  unfolding ref_aead authenticate
  ref_aead-sealed ci = ap (sealed_with ci) authenticates ∙ keeps.seals ci v.key v.nonce v.aad v.msg

pub ref_compute-Fulfils :
    (ssl : OpenSsl) (p : Primitives)
    → SslKeeps ssl p
    → (e : ssl.Entropy) (v : Vec) (op : ℕ) → HasKey v
    → op < 27
    → is_verify_op op ≡ false
    → Fulfils p op v (outcome_of (ref_compute ssl e op (input_of v)))
unfolding ref_compute outputs ref_compute_extra ref_digest ref_xof ref_hmac_md ref_hkdf ref_mac
    ref_pbkdf2 ref_ed25519 ref_x25519
ref_compute-Fulfils ssl p keeps e v op key below compute =
    let whole : take 32 v.key ≡ v.key = take_all 32 v.key (omega arith) in
    let hash = λ (md : Md). ap outcome_of (keeps.digests md v.msg) in
    let mac = λ (md : Md). ap outcome_of (keeps.hmacs md v.key v.msg) in
    let seal = λ (ci : Cipher). ap outcome_of (ref_aead-sealed ssl p keeps v ci) in
    let table : FromTo (λ o. Reference ssl p e v (is_verify_op o) o) 0 27 =
      inl (hash Md.sha256)
      & inl (hash Md.sha512)
      & inl (mac Md.sha256)
      & inl (seal Cipher.chacha20_poly1305)
      & inl (seal Cipher.aes_256_gcm)
      & inl (hash Md.sha3_256)
      & inl (hash Md.sha3_512)
      & inl (ap outcome_of (keeps.xofs Md.shake128 v.msg 32))
      & inl (ap outcome_of (keeps.xofs Md.shake256 v.msg 64))
      & inl (ap outcome_of (keeps.hkdfs Md.sha256 v.msg v.key v.aad 42))
      & inl (ap outcome_of (keeps.pbkdf2s v.msg v.key 4096 Md.sha256 32))
      & inl (ap outcome_of (keeps.signs e v.key v.msg))
      & rw (keeps.multiplies v.key (take 32 v.msg))
          (refuses_zero p 12 v _ refl (unfold outputs in refl))
      & tt
      & tt
      & inl (hash Md.sha1)
      & inl (hash Md.sha224)
      & inl (hash Md.sha384)
      & inl (hash Md.sha512_256)
      & inl (hash Md.md5)
      & inl (mac Md.sha1)
      & inl (mac Md.sha384)
      & inl (mac Md.sha512)
      & inl (seal Cipher.aes_128_gcm)
      & inl (seal Cipher.aes_192_gcm)
      & inl (rw whole (ap outcome_of (keeps.poly1305s v.key v.msg)))
      & inl (rw whole (ap outcome_of (keeps.cmacs v.key v.msg)))
      & tt in
    subst (λ (b : Bool). Reference ssl p e v b op) compute
      (FromTo-at (λ o. Reference ssl p e v (is_verify_op o) o) 0 27 op (omega arith) (omega arith)
        table)
