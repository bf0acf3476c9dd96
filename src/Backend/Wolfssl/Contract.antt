-- ===== src/Backend/Wolfssl/Contract.antt =====
-- The wolfSSL backend keeps the contract.
use mathlib.Core.Path.{fun_ext}
use cmfuzz.Base.{
  sym, ℕ, ◌%◌, ◌^◌, ◌<◌, ◌≤◌, ◌*◌, ◌≡◌, refl, ap, ◌∙◌, arith, List, [], ◌∷◌, ◌++◌, Option, none,
  some, length, take, take_all, inl, bytes_eq, replicate, if◌then◌else◌,
}
use cmfuzz.Base.Chain.{◌>>=◌, holds, bind_assoc}
use cmfuzz.Base.Tables.{by_table, ◌&◌}
use cmfuzz.Protocol.Names.{Md, Cipher, digest_size}
use cmfuzz.Protocol.Vec.{Vec}
use cmfuzz.Protocol.Payload.{Views, verify_parse}
use cmfuzz.Protocol.Payload.Laws.{verify_parse-shorter}
use cmfuzz.Protocol.Ops.{Primitives, outputs, decode_scalar}
use cmfuzz.Backend.Serve.{computed, outcome_of}
use cmfuzz.Backend.Contract.{
  Owes, HasKey, AreSealable, IsSent, IsSent-AreSealable, peer_size, offers, verify_outcome-judged,
  refuses_zero,
}
use cmfuzz.Backend.AwsLc.Contract.{extra_ops}
use cmfuzz.Backend.Wolfssl.{
  WolfCalls, wolfssl_cases, word32_part, aesgcm, rsa_pss_verdict, ecdsa_verdict,
}

-- What the manual of wolfCrypt says of the calls, where no allocation fails.
pub record WolfKeeps (lib : WolfCalls) (p : Primitives) : Type 0 where
  pub hashes : (md : Md) (msg : List ℕ) → lib.hash md msg ≡ some (p.hash md msg)
  pub shakes :
      (md : Md) (msg : List ℕ) (n : ℕ)
      → (do sk ← lib.init_shake md; sk ← lib.shake_update md sk msg; lib.shake_final md sk n)
        ≡ some (p.xof md msg n)
  pub macs :
      (md : Md) (key msg : List ℕ)
      → (do
        h ← lib.hmac_init
        h ← lib.hmac_set_key h md key
        h ← lib.hmac_update h msg
        lib.hmac_final h)
        ≡ some (p.hmac md key msg)
  pub chachas :
      (key nonce aad msg : List ℕ)
      → AreSealable Cipher.chacha20_poly1305 key nonce aad msg
      → lib.chacha20_poly1305_encrypt key nonce aad msg
        ≡ some (
          p.encrypt Cipher.chacha20_poly1305 key nonce aad msg,
          p.tag Cipher.chacha20_poly1305 key nonce aad msg,
        )
  -- A key of 32 bytes selects AES-256.
  pub gcms :
      (key nonce aad msg : List ℕ)
      → AreSealable Cipher.aes_256_gcm key nonce aad msg
      → (do
        aes ← lib.aes_init
        aes ← lib.aes_gcm_set_key aes key
        lib.aes_gcm_encrypt aes msg nonce 16 aad)
        ≡ some (
          p.encrypt Cipher.aes_256_gcm key nonce aad msg,
          p.tag Cipher.aes_256_gcm key nonce aad msg,
        )
  pub hkdfs :
      (md : Md) (ikm salt info : List ℕ) (n : ℕ)
      → n ≤ 255 * digest_size md
      → lib.hkdf md ikm salt info n ≡ some (p.hkdf md ikm salt info n)
  pub pbkdf2s :
      (password salt : List ℕ) (rounds n : ℕ) (md : Md)
      → 1 ≤ rounds
      → 1 ≤ n
      → lib.pbkdf2 password salt rounds n md ≡ some (p.pbkdf2 password salt rounds md n)
  pub signs :
      (seed msg : List ℕ)
      → length seed ≡ 32
      → (do
        k ← lib.ed25519_init
        k ← lib.ed25519_import_private_only k seed
        public_key ← lib.ed25519_make_public k
        k ← lib.ed25519_import_public k public_key
        lib.ed25519_sign_msg k msg)
        ≡ some (p.ed25519 seed msg)
  -- With a generator for blinding; the all-zero secret is refused.
  pub multiplies :
      (k u : List ℕ)
      → length k ≡ 32
      → length u ≡ 32
      → (do
        priv ← lib.curve25519_init
        peer ← lib.curve25519_init
        rng ← lib.init_rng
        priv ← lib.curve25519_import_private priv k
        peer ← lib.curve25519_import_public peer u
        priv ← lib.curve25519_set_rng priv rng
        lib.curve25519_shared_secret priv peer)
        ≡ (if bytes_eq (p.scalar_mult (decode_scalar k) u) (replicate 32 0)
            then none
            else some (p.scalar_mult (decode_scalar k) u))
  pub ecdsa_verdicts :
      (point sig msg : List ℕ)
      → holds (do
        d ← lib.hash Md.sha256 msg
        key ← lib.ecc_init
        key ← lib.ecc_import_x963 key point
        lib.ecc_verify_hash key sig d)
        ≡ p.ecdsa_ok point sig msg
  pub rsa_verdicts :
      (modulus sig msg : List ℕ)
      → holds (do
        d ← lib.hash Md.sha256 msg
        key ← lib.init_rsa_key
        key ← lib.rsa_public_key_decode_raw key modulus (1 ∷ 0 ∷ 1 ∷ [])
        some (lib.rsa_pss_verify_check key sig d))
        ≡ p.rsa_pss_ok modulus sig msg

-- A length below 2 ^ 32 is not changed by the cast.
word32_part_all : (b : List ℕ) → length b < 2 ^ 32 → word32_part b ≡ b
word32_part_all b h = take_all (length b % 2 ^ 32) b (omega arith)

module _ (lib : WolfCalls) (p : Primitives) (keeps : WolfKeeps lib p) (v : Vec)
    (key : HasKey v) where
  key_whole : take 32 v.key ≡ v.key
  key_whole = take_all 32 v.key (omega arith)

  msg_whole : word32_part v.msg ≡ v.msg
  msg_whole = word32_part_all v.msg (omega arith)

  aad_whole : word32_part v.aad ≡ v.aad
  aad_whole = word32_part_all v.aad (omega arith)

  ecdsa_verdict-ok :
      (w : Views)
      → verify_parse v.msg ≡ some w
      → ecdsa_verdict lib w ≡ p.ecdsa_ok w.pub_key w.sig w.msg
  ecdsa_verdict-ok w e =
      let short = verify_parse-shorter v.msg w e in
      rw
        (
          word32_part_all w.pub_key (omega arith),
          word32_part_all w.sig (omega arith),
          word32_part_all w.msg (omega arith),
        )
        (keeps.ecdsa_verdicts w.pub_key w.sig w.msg)

  rsa_pss_verdict-ok :
      (w : Views)
      → verify_parse v.msg ≡ some w
      → rsa_pss_verdict lib w ≡ p.rsa_pss_ok w.pub_key w.sig w.msg
  rsa_pss_verdict-ok w e =
      let short = verify_parse-shorter v.msg w e in
      rw
        (
          word32_part_all w.pub_key (omega arith),
          word32_part_all w.sig (omega arith),
          word32_part_all w.msg (omega arith),
        )
        (keeps.rsa_verdicts w.pub_key w.sig w.msg)

  abbrev joined : List ℕ × List ℕ → Option (List ℕ)
  joined out = some (out.0 ++ out.1)

  aesgcm-sealed :
      AreSealable Cipher.aes_256_gcm (take 32 v.key) v.nonce v.aad v.msg
      → aesgcm lib v
        ≡ computed (
            p.encrypt Cipher.aes_256_gcm (take 32 v.key) v.nonce v.aad v.msg
            ++ p.tag Cipher.aes_256_gcm (take 32 v.key) v.nonce v.aad v.msg)
  aesgcm-sealed sealable =
      let k = take 32 v.key in
      let enc = λ (aes : lib.Aes). lib.aes_gcm_encrypt aes v.msg v.nonce 16 v.aad in
      let keyed = λ (aes : lib.Aes). lib.aes_gcm_set_key aes k >>= enc in
      rw (msg_whole, aad_whole)
        (ap outcome_of (
          sym (
            bind_assoc lib.aes_init keyed joined
            ∙ ap (◌>>=◌ lib.aes_init)
                (fun_ext (λ aes. bind_assoc (lib.aes_gcm_set_key aes k) enc joined)))
          ∙ ap (λ (o : Option (List ℕ × List ℕ)). o >>= joined)
              (keeps.gcms k v.nonce v.aad v.msg sealable)))

-- wolfSSL leaves out all from 15 on.
abbrev pub wolfssl_missing : List ℕ
wolfssl_missing = extra_ops

-- If the calls of wolfCrypt compute what its manual says, then on every request of the runner's
-- sizes (a key of 32 bytes, a nonce of 12, at most 63 bytes of additional data and 2048 of
-- message, for X25519 at least 32 of it) the backend computes the promised bytes for each op from
-- 0 to 14 (for X25519 it may answer the all-zero secret with an error), and abstains on all other
-- numbers.
pub wolfssl-Owes :
    (lib : WolfCalls) (p : Primitives)
    → WolfKeeps lib p
    → (v : Vec) (op : ℕ) → IsSent op v
    → Owes (offers wolfssl_missing op) p op v (wolfssl_cases lib op v)
unfolding wolfssl_cases outputs
wolfssl-Owes lib p keeps v op sent =
    let key = sent.request.has_key in
    let sealable = IsSent-AreSealable op v sent in
    let whole = key_whole lib p keeps v key in
    let msg = msg_whole lib p keeps v key in
    let aad = aad_whole lib p keeps v key in
    by_table
      (λ o.
        (o ≡ 12 → 32 ≤ length v.msg)
        → Owes (offers wolfssl_missing o) p o v (wolfssl_cases lib o v))
      27
      ((λ _. inl (rw msg (ap outcome_of (keeps.hashes Md.sha256 v.msg))))
        & (λ _. inl (rw msg (ap outcome_of (keeps.hashes Md.sha512 v.msg))))
        & (λ _. inl (rw (msg, whole) (ap outcome_of (keeps.macs Md.sha256 v.key v.msg))))
        & (λ _. inl (
            rw (msg, aad, whole)
              (ap outcome_of (
                ap (λ (o : Option (List ℕ × List ℕ)). o >>= joined lib p keeps v key)
                  (keeps.chachas v.key v.nonce v.aad v.msg
                    (key.0, (sealable Cipher.aes_256_gcm).1, omega arith, omega arith))))))
        & (λ _. inl (aesgcm-sealed lib p keeps v key (sealable Cipher.aes_256_gcm)))
        & (λ _. inl (rw msg (ap outcome_of (keeps.hashes Md.sha3_256 v.msg))))
        & (λ _. inl (rw msg (ap outcome_of (keeps.hashes Md.sha3_512 v.msg))))
        & (λ _. inl (rw msg (ap outcome_of (keeps.shakes Md.shake128 v.msg 32))))
        & (λ _. inl (rw msg (ap outcome_of (keeps.shakes Md.shake256 v.msg 64))))
        & (λ _. inl (
            rw (msg, aad, whole)
              (ap outcome_of (keeps.hkdfs Md.sha256 v.msg v.key v.aad 42 (omega arith)))))
        & (λ _. inl (
            rw (msg, whole)
              (ap outcome_of
                (keeps.pbkdf2s v.msg v.key 4096 32 Md.sha256 (omega arith) (omega arith)))))
        & (λ _. inl (rw (msg, whole) (ap outcome_of (keeps.signs v.key v.msg key.0))))
        & (λ peer.
            rw (whole, keeps.multiplies v.key (take 32 v.msg) key.0 (peer_size v (peer refl)))
              (refuses_zero p 12 v _ refl (unfold outputs in refl)))
        & (λ _. inl (verify_outcome-judged _ p.ecdsa_ok v (ecdsa_verdict-ok lib p keeps v key)))
        & (λ _. inl (verify_outcome-judged _ p.rsa_pss_ok v (rsa_pss_verdict-ok lib p keeps v key)))
        & (λ _. refl)
        & (λ _. refl)
        & (λ _. refl)
        & (λ _. refl)
        & (λ _. refl)
        & (λ _. refl)
        & (λ _. refl)
        & (λ _. refl)
        & (λ _. refl)
        & (λ _. refl)
        & (λ _. refl)
        & (λ _. refl)
        & tt)
      (λ o h _. ground arith) op sent.whole_peer
