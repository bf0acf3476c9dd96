-- ===== src/Backend/BoringSsl/Contract.antt =====
-- The BoringSSL backend keeps the contract.
use cmfuzz.Base.{ℕ, ◌≡◌, ◌≤◌, length, refl, ap, ◌∙◌, arith, List, ◌∷◌, take, take_all, inl}
use cmfuzz.Base.Tables.{by_table, ◌&◌}
use cmfuzz.Protocol.Names.{Md, Cipher}
use cmfuzz.Protocol.Vec.{Vec}
use cmfuzz.Protocol.Ops.{Primitives, outputs}
use cmfuzz.Backend.Serve.{outcome_of}
use cmfuzz.Backend.Contract.{
  Owes, IsSent, IsSent-AreSealable, peer_size, offers, verify_outcome-judged, refuses_zero,
}
use cmfuzz.Backend.AwsLc.{BoringCalls}
use cmfuzz.Backend.AwsLc.Contract.{extra_ops, BoringKeeps, aead-sealed}
use cmfuzz.Backend.BoringSsl.{boringssl_cases}

-- The ops that this BoringSSL leaves out: SHA-3 and SHAKE, and all from 15 on.
abbrev pub boringssl_missing : List ℕ
boringssl_missing = 5 ∷ 6 ∷ 7 ∷ 8 ∷ extra_ops

-- If the calls of BoringSSL compute what its headers say, then on every request of the runner's
-- sizes (a key of 32 bytes, a nonce of 12, at most 63 bytes of additional data and 2048 of
-- message, for X25519 at least 32 of it) the backend computes the promised bytes for each op from
-- 0 to 4 and from 9 to 14 (for X25519 it may answer the all-zero secret with an error), and
-- abstains on all other numbers.
pub boringssl-Owes :
    (lib : BoringCalls) (p : Primitives)
    → BoringKeeps lib p
    → (v : Vec) (op : ℕ) → IsSent op v
    → Owes (offers boringssl_missing op) p op v (boringssl_cases lib op v)
unfolding boringssl_cases outputs
boringssl-Owes lib p keeps v op sent =
    let key = sent.request.has_key in
    let sealable = IsSent-AreSealable op v sent in
    let whole : take 32 v.key ≡ v.key = take_all 32 v.key (omega arith) in
    by_table
      (λ o.
        (o ≡ 12 → 32 ≤ length v.msg)
        → Owes (offers boringssl_missing o) p o v (boringssl_cases lib o v))
      27
      ((λ _. inl (ap outcome_of (keeps.digests Md.sha256 v.msg)))
        & (λ _. inl (ap outcome_of (keeps.digests Md.sha512 v.msg)))
        & (λ _. inl (
            ap outcome_of (
              ap (λ (k : List ℕ). lib.hmac Md.sha256 k v.msg) whole
              ∙ keeps.hmacs Md.sha256 v.key v.msg)))
        & (λ _. inl (
            aead-sealed lib p keeps v Cipher.chacha20_poly1305 keeps.key_lengths.0
              (sealable Cipher.chacha20_poly1305)))
        & (λ _. inl (
            aead-sealed lib p keeps v Cipher.aes_256_gcm keeps.key_lengths.1
              (sealable Cipher.aes_256_gcm)))
        & (λ _. refl)
        & (λ _. refl)
        & (λ _. refl)
        & (λ _. refl)
        & (λ _. inl (
            ap outcome_of (
              ap (λ (k : List ℕ). lib.hkdf 42 Md.sha256 v.msg k v.aad) whole
              ∙ keeps.hkdfs 42 Md.sha256 v.msg v.key v.aad (omega arith))))
        & (λ _. inl (
            ap outcome_of (
              ap (λ (k : List ℕ). lib.pbkdf2_hmac v.msg k 4096 Md.sha256 32) whole
              ∙ keeps.pbkdf2s v.msg v.key 4096 Md.sha256 32 (omega arith))))
        & (λ _. inl (ap outcome_of (keeps.signs v.key v.msg key.0)))
        & (λ peer.
            rw (keeps.multiplies v.key (take 32 v.msg) key.0 (peer_size v (peer refl)))
              (refuses_zero p 12 v _ refl (unfold outputs in refl)))
        & (λ _. inl (
            verify_outcome-judged _ p.ecdsa_ok v
              (λ w e. keeps.ecdsa_verdicts w.pub_key w.sig w.msg)))
        & (λ _. inl (
            verify_outcome-judged _ p.rsa_pss_ok v
              (λ w e. keeps.rsa_verdicts w.pub_key w.sig w.msg)))
        & (λ _. refl)
        & (λ _. refl)
        & (λ _. refl)
        & (λ _. refl)
        & (λ _. refl)
        & (λ _. refl)
        & (λ _. refl)
        & (λ _. refl)
        & (λ _. refl)
        & (λ _. refl)
        & (λ _. refl)
        & (λ _. refl)
        & tt)
      (λ o h _. ground arith) op sent.whole_peer
