-- ===== src/Backend/AwsLc/Contract.antt =====
-- The aws-lc backend keeps the contract.
use cmfuzz.Base.{
  ℕ, ◌+◌, ◌*◌, ◌≤◌, ◌≡◌, refl, ap, ◌∙◌, arith, List, [], ◌∷◌, ◌++◌, none, some, length, take,
  take_all, replicate, bytes_eq, if◌then◌else◌, inl,
}
use cmfuzz.Base.Chain.{◌>>=◌, holds}
use cmfuzz.Base.Tables.{by_table, ◌&◌}
use cmfuzz.Protocol.Names.{Md, Cipher, digest_size}
use cmfuzz.Protocol.Vec.{Vec}
use cmfuzz.Protocol.Ops.{Primitives, outputs, decode_scalar}
use cmfuzz.Backend.Serve.{computed, outcome_of}
use cmfuzz.Backend.Contract.{
  Owes, AreSealable, IsSent, IsSent-AreSealable, peer_size, offers, verify_outcome-judged,
  refuses_zero,
}
use cmfuzz.Backend.AwsLc.{BoringCalls, aws_lc_cases, aead}

-- The ops that aws-lc leaves out.
abbrev pub extra_ops : List ℕ
extra_ops = 15 ∷ 16 ∷ 17 ∷ 18 ∷ 19 ∷ 20 ∷ 21 ∷ 22 ∷ 23 ∷ 24 ∷ 25 ∷ 26 ∷ []

abbrev pub aws_lc_missing : List ℕ
aws_lc_missing = extra_ops

-- What the headers of the two libraries say of the calls, where no allocation fails.
pub record BoringKeeps (lib : BoringCalls) (p : Primitives) : Type 0 where
  pub digests : (md : Md) (msg : List ℕ) → lib.digest md msg ≡ some (p.hash md msg)
  pub hmacs : (md : Md) (key msg : List ℕ) → lib.hmac md key msg ≡ some (p.hmac md key msg)
  pub seals :
      (a : Cipher) (key nonce msg aad : List ℕ) (room : ℕ)
      → AreSealable a key nonce aad msg
      → length msg + 16 ≤ room
      → (do c ← lib.aead_ctx_new a key; lib.aead_ctx_seal c room nonce msg aad)
        ≡ some (p.encrypt a key nonce aad msg ++ p.tag a key nonce aad msg)
  pub key_lengths :
      (lib.aead_key_length Cipher.chacha20_poly1305 ≡ 32)
      × (lib.aead_key_length Cipher.aes_256_gcm ≡ 32)
  pub hkdfs :
      (n : ℕ) (md : Md) (ikm salt info : List ℕ)
      → n ≤ 255 * digest_size md
      → lib.hkdf n md ikm salt info ≡ some (p.hkdf md ikm salt info n)
  pub pbkdf2s :
      (password salt : List ℕ) (rounds : ℕ) (md : Md) (n : ℕ)
      → 1 ≤ rounds
      → lib.pbkdf2_hmac password salt rounds md n ≡ some (p.pbkdf2 password salt rounds md n)
  pub signs :
      (seed msg : List ℕ)
      → length seed ≡ 32
      → lib.ed25519_sign msg (lib.ed25519_keypair_from_seed seed) ≡ some (p.ed25519 seed msg)
  -- X25519 fails exactly on the all-zero secret.
  pub multiplies :
      (k u : List ℕ)
      → length k ≡ 32
      → length u ≡ 32
      → lib.x25519 k u ≡ (
          if bytes_eq (p.scalar_mult (decode_scalar k) u) (replicate 32 0)
          then none
          else some (p.scalar_mult (decode_scalar k) u))
  pub ecdsa_verdicts :
      (point sig msg : List ℕ)
      → holds (do
        k ← lib.ec_key_new
        pt ← lib.ec_point_new k
        pt ← lib.ec_point_oct2point k pt point
        k ← lib.ec_key_set_public_key k pt
        some (lib.ecdsa_verify k (lib.sha256 msg) sig))
        ≡ p.ecdsa_ok point sig msg
  pub rsa_verdicts :
      (modulus sig msg : List ℕ)
      → holds (do
        rsa ← lib.rsa_new
        n ← lib.bn_bin2bn modulus
        e ← lib.bn_new
        e ← lib.bn_set_word e 65537
        rsa ← lib.rsa_set0_key rsa n e
        some (lib.rsa_verify_pss_mgf1 rsa (lib.sha256 msg) Md.sha256 Md.sha256 32 sig))
        ≡ p.rsa_pss_ok modulus sig msg

-- What only aws-lc has.
abbrev pub XofsKeep : BoringCalls → Primitives → Type 0
XofsKeep lib p =
    (md : Md) (msg : List ℕ) (n : ℕ)
    → (do
      c ← lib.md_ctx_new
      c ← lib.digest_init c md
      c ← lib.digest_update c msg
      lib.digest_final_xof c n)
      ≡ some (p.xof md msg n)

module _ (lib : BoringCalls) (p : Primitives) (keeps : BoringKeeps lib p) (v : Vec) where
  pub aead-sealed :
      (a : Cipher)
      → lib.aead_key_length a ≡ 32
      → AreSealable a (take 32 v.key) v.nonce v.aad v.msg
      → aead lib a v
        ≡ computed (
            p.encrypt a (take 32 v.key) v.nonce v.aad v.msg
            ++ p.tag a (take 32 v.key) v.nonce v.aad v.msg)
  aead-sealed a size sealable = rw size (
      ap outcome_of (
        keeps.seals a (take 32 v.key) v.nonce v.msg v.aad (length v.msg + 16) sealable
          (omega arith)))

-- If the calls of aws-lc compute what its headers say, then on every request of the runner's sizes
-- (a key of 32 bytes, a nonce of 12, at most 63 bytes of additional data and 2048 of message, for
-- X25519 at least 32 of it) the backend computes the promised bytes for each op from 0 to 14 (for
-- X25519 it may answer the all-zero secret with an error), and abstains on all other numbers.
pub aws_lc-Owes :
    (lib : BoringCalls) (p : Primitives)
    → BoringKeeps lib p
    → XofsKeep lib p
    → (v : Vec) (op : ℕ) → IsSent op v
    → Owes (offers aws_lc_missing op) p op v (aws_lc_cases lib op v)
unfolding aws_lc_cases outputs
aws_lc-Owes lib p keeps xofs v op sent =
    let key = sent.request.has_key in
    let sealable = IsSent-AreSealable op v sent in
    let whole : take 32 v.key ≡ v.key = take_all 32 v.key (omega arith) in
    by_table
      (λ o.
        (o ≡ 12 → 32 ≤ length v.msg) → Owes (offers aws_lc_missing o) p o v (aws_lc_cases lib o v))
      27
      ((λ _. inl (ap outcome_of (keeps.digests Md.sha256 v.msg)))
        & (λ _. inl (ap outcome_of (keeps.digests Md.sha512 v.msg)))
        & (λ _. inl (
            ap outcome_of (
              ap (λ (k : List ℕ). lib.hmac Md.sha256 k v.msg) whole
              ∙ keeps.hmacs Md.sha256 v.key v.msg)))
        & (λ _. inl (
            aead-sealed lib p keeps v Cipher.chacha20_poly1305 keeps.key_lengths.0
              (sealable Cipher.chacha20_poly1305)))
        & (λ _. inl (
            aead-sealed lib p keeps v Cipher.aes_256_gcm keeps.key_lengths.1
              (sealable Cipher.aes_256_gcm)))
        & (λ _. inl (ap outcome_of (keeps.digests Md.sha3_256 v.msg)))
        & (λ _. inl (ap outcome_of (keeps.digests Md.sha3_512 v.msg)))
        & (λ _. inl (ap outcome_of (xofs Md.shake128 v.msg 32)))
        & (λ _. inl (ap outcome_of (xofs Md.shake256 v.msg 64)))
        & (λ _. inl (
            ap outcome_of (
              ap (λ (k : List ℕ). lib.hkdf 42 Md.sha256 v.msg k v.aad) whole
              ∙ keeps.hkdfs 42 Md.sha256 v.msg v.key v.aad (omega arith))))
        & (λ _. inl (
            ap outcome_of (
              ap (λ (k : List ℕ). lib.pbkdf2_hmac v.msg k 4096 Md.sha256 32) whole
              ∙ keeps.pbkdf2s v.msg v.key 4096 Md.sha256 32 (omega arith))))
        & (λ _. inl (ap outcome_of (keeps.signs v.key v.msg key.0)))
        & (λ peer.
            rw (keeps.multiplies v.key (take 32 v.msg) key.0 (peer_size v (peer refl)))
              (refuses_zero p 12 v _ refl (unfold outputs in refl)))
        & (λ _. inl (
            verify_outcome-judged _ p.ecdsa_ok v
              (λ w e. keeps.ecdsa_verdicts w.pub_key w.sig w.msg)))
        & (λ _. inl (
            verify_outcome-judged _ p.rsa_pss_ok v
              (λ w e. keeps.rsa_verdicts w.pub_key w.sig w.msg)))
        & (λ _. refl)
        & (λ _. refl)
        & (λ _. refl)
        & (λ _. refl)
        & (λ _. refl)
        & (λ _. refl)
        & (λ _. refl)
        & (λ _. refl)
        & (λ _. refl)
        & (λ _. refl)
        & (λ _. refl)
        & (λ _. refl)
        & tt)
      (λ o h _. ground arith) op sent.whole_peer
