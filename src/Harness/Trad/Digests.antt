-- ===== src/Harness/Trad/Digests.antt =====
-- What the SHA-256 and HMAC tests of the harness find.
use Prim.Native.String.{String}
use cmfuzz.Base.{
  ℕ, ◌≡◌, ◌≢◌, ◌↔◌, refl, sym, ap, subst, List, Option, Bool, true, false, not, bytes_eq,
  bytes_eq→eq, bytes_eq_refl, bytes_eq_false→ne, take, drop, Bool-cases, inl, inr,
}
use cmfuzz.Harness.World.{World, H, IsSilent, ◌>>◌, violation_if, xor_at}
use cmfuzz.Harness.Trad.{Aead, Evp, split_at, test_sha256, test_hmac, alg}

same_iff : (a b : List ℕ) → (not (bytes_eq a b) ≡ false) ↔ (a ≡ b)
same_iff a b = elim (Bool-cases (bytes_eq a b)) [
  | inl e ↦ rw e (λ _. bytes_eq→eq a b e, λ _. refl)
  | inr e ↦ rw e (λ h. cc h, λ h. absurd (bytes_eq_false→ne a b e h))
]

other_iff : (a b : List ℕ) → (not (not (bytes_eq a b)) ≡ false) ↔ (a ≢ b)
other_iff a b = elim (Bool-cases (bytes_eq a b)) [
  | inl e ↦ rw e (λ h. cc h, λ h. absurd (h (bytes_eq→eq a b e)))
  | inr e ↦ rw e (λ _. bytes_eq_false→ne a b e, λ _. refl)
]

-- A test that stands last.
last_iff :
    {W : Type 0} (b : Bool) (alg oracle msg : String) (w : World W)
    → IsSilent (violation_if b alg oracle msg w) ↔ (b ≡ false)
last_iff true alg oracle msg w = (λ h. elim h [ ], λ h. cc h)
last_iff false alg oracle msg w = (λ _. refl, λ _. tt)

-- A test of what two equal calls returned.
determinism_passes :
    {W : Type 0} (out : List ℕ) (alg oracle msg : String) (later : H W (Unit {0})) (w : World W)
    → (violation_if (not (bytes_eq out out)) alg oracle msg >> later) w ≡ later w
determinism_passes out alg oracle msg later w =
    ap (λ (b : Bool). (violation_if (not b) alg oracle msg >> later) w) (bytes_eq_refl out)

-- A library whose calls depend on their arguments alone.
pub record IsPure {W : Type 0} (evp : Evp W) : Type 0 where
  pub hash : List ℕ → List ℕ
  pub start : Evp.Digest evp
  pub absorb : Evp.Digest evp → List ℕ → Evp.Digest evp
  pub finish : Evp.Digest evp → List ℕ
  pub mac : List ℕ → List ℕ → List ℕ
  pub sha256_call : (m : List ℕ) (w : World W) → evp.sha256 m w ≡ (hash m, w)
  pub init_call : (w : World W) → evp.digest_init w ≡ (start, w)
  pub update_call :
      (c : Evp.Digest evp) (m : List ℕ) (w : World W) → evp.digest_update c m w ≡ (absorb c m, w)
  pub final_call : (c : Evp.Digest evp) (w : World W) → evp.digest_final c w ≡ (finish c, w)
  pub encrypting : Aead → Evp.Cipher evp
  pub decrypting : Aead → Evp.Cipher evp
  pub with_ivlen : Evp.Cipher evp → ℕ → Evp.Cipher evp
  pub with_key_iv : Evp.Cipher evp → List ℕ → List ℕ → Evp.Cipher evp
  pub absorb_aad : Evp.Cipher evp → List ℕ → Evp.Cipher evp
  pub stream : Evp.Cipher evp → List ℕ → List ℕ × Evp.Cipher evp
  pub flush : Evp.Cipher evp → List ℕ × Evp.Cipher evp
  pub tag_of : Evp.Cipher evp → ℕ → List ℕ
  pub with_tag : Evp.Cipher evp → List ℕ → Evp.Cipher evp
  pub verified : Evp.Cipher evp → Option (List ℕ)
  pub encrypt_call : (ci : Aead) (w : World W) → evp.encrypt_init ci w ≡ (encrypting ci, w)
  pub decrypt_call : (ci : Aead) (w : World W) → evp.decrypt_init ci w ≡ (decrypting ci, w)
  pub ivlen_call :
      (c : Evp.Cipher evp) (n : ℕ) (w : World W) → evp.set_ivlen c n w ≡ (with_ivlen c n, w)
  pub key_iv_call :
      (c : Evp.Cipher evp) (key iv : List ℕ) (w : World W)
      → evp.set_key_iv c key iv w ≡ (with_key_iv c key iv, w)
  pub aad_call :
      (c : Evp.Cipher evp) (aad : List ℕ) (w : World W)
      → evp.update_aad c aad w ≡ (absorb_aad c aad, w)
  pub stream_call :
      (c : Evp.Cipher evp) (m : List ℕ) (w : World W) → evp.update c m w ≡ (stream c m, w)
  pub flush_call : (c : Evp.Cipher evp) (w : World W) → evp.encrypt_final c w ≡ (flush c, w)
  pub tag_call : (c : Evp.Cipher evp) (n : ℕ) (w : World W) → evp.get_tag c n w ≡ (tag_of c n, w)
  pub set_tag_call :
      (c : Evp.Cipher evp) (t : List ℕ) (w : World W) → evp.set_tag c t w ≡ (with_tag c t, w)
  pub verified_call : (c : Evp.Cipher evp) (w : World W) → evp.decrypt_final c w ≡ (verified c, w)
  pub mac_call : (key m : List ℕ) (w : World W) → evp.hmac_sha256 key m w ≡ (mac key m, w)

module _ {W : Type 0} (evp : Evp W) (p : IsPure evp) where
  -- For a library whose calls depend on their arguments alone, the SHA-256 test reports nothing
  -- exactly if hashing the message in the two pieces that it is cut into gives the digest of the
  -- whole message.
  test_sha256_iff :
      (m : List ℕ) (w : World W)
      → IsSilent (test_sha256 evp m w) ↔ (
          p.hash m
          ≡ p.finish (p.absorb (p.absorb p.start (take (split_at m) m)) (drop (split_at m) m)))
  unfolding test_sha256
  test_sha256_iff m w =
      let c1 = p.absorb p.start (take (split_at m) m) in
      let c2 = p.absorb c1 (drop (split_at m) m) in
      let ends : H W (Unit {0}) =
        violation_if (not (bytes_eq (p.hash m) (p.finish c2))) "SHA-256" "chunk_consistency"
          "H(m) != update(m[:k]);update(m[k:])" in
      let path : test_sha256 evp m w ≡ ends w =
        simp (p.sha256_call, p.init_call, p.update_call, p.final_call, bytes_eq_refl) in
      let tested =
        last_iff (not (bytes_eq (p.hash m) (p.finish c2))) "SHA-256" "chunk_consistency"
          "H(m) != update(m[:k]);update(m[k:])" w in
      let same = same_iff (p.hash m) (p.finish c2) in
      (
        λ h. same.0 (tested.0 (subst IsSilent path h)),
        λ e. subst IsSilent (sym path) (tested.1 (same.1 e)),
      )

  -- For a library whose calls depend on their arguments alone, the HMAC test reports nothing
  -- exactly if the tag changes when the top bit of the key's first byte is flipped.
  test_hmac_iff :
      (key m : List ℕ) (w : World W)
      → IsSilent (test_hmac evp key m w) ↔ (p.mac key m ≢ p.mac (xor_at key 0 0x80) m)
  unfolding test_hmac
  test_hmac_iff key m w =
      let t = p.mac key m in
      let t3 = p.mac (xor_at key 0 0x80) m in
      let ends : H W (Unit {0}) =
        violation_if (not (not (bytes_eq t t3))) "HMAC-SHA256" "key_sensitivity"
          "different key produced identical tag" in
      let path : test_hmac evp key m w ≡ ends w = simp (p.mac_call, bytes_eq_refl) in
      let tested =
        last_iff (not (not (bytes_eq t t3))) "HMAC-SHA256" "key_sensitivity"
          "different key produced identical tag" w in
      let other = other_iff t t3 in
      (
        λ h. other.0 (tested.0 (subst IsSilent path h)),
        λ e. subst IsSilent (sym path) (tested.1 (other.1 e)),
      )
