-- ===== src/Harness/Trad/Relations.antt =====
-- What the AEAD test of the harness finds.
use mathlib.Core.Option as Option
use Prim.Native.String.{String}
use cmfuzz.Base.{
  ℕ, ◌-◌, ◌≡◌, ◌↔◌, refl, ap, List, ◌++◌, Option, none, some, not, ◌==◌, if◌then◌else◌, bytes_eq,
  bytes_eq→eq, some_inj, bytes_eq_false→ne, take, drop, length, Bool-cases, inl, inr,
}
use mathlib.Core.Path.{fun_ext}
use cmfuzz.Engine.Oracle.{next}
use cmfuzz.Harness.World.{World, H, IsSilent, ◌>>◌, violation_if, xor_at}
use cmfuzz.Harness.Trad.{
  Aead, Evp, with_aad, aead_encrypt, aead_decrypt, test_aead_cut, test_aead, is_some, or_empty, alg,
}
use cmfuzz.Harness.Trad.Digests.{IsPure}

-- The four tests on the results of opening.
abbrev aead_checks :
    {W : Type 0}
    → String
    → List ℕ
    → Option (List ℕ)
    → Option (List ℕ)
    → Option (List ℕ)
    → H W (Unit {0})
aead_checks name m pt bad foreign =
    violation_if (not (is_some pt)) name "roundtrip" "Dec(Enc(m)) failed to authenticate"
    >> (violation_if (not (bytes_eq (or_empty pt) m)) name "roundtrip" "Dec(Enc(m)) != m"
        >> (violation_if (not (not (is_some bad))) name "tamper_reject"
              "tampered tag still authenticated"
            >> violation_if (not (not (is_some foreign))) name "wrong_key"
                "wrong key still authenticated"))

aead_checks_iff :
    {W : Type 0} (name : String) (m : List ℕ) (pt bad foreign : Option (List ℕ)) (w : World W)
    → IsSilent (aead_checks name m pt bad foreign w)
      ↔ ((pt ≡ some m) × (bad ≡ none) × (foreign ≡ none))
aead_checks_iff name m none bad foreign w = (λ h. elim h [ ], λ e. cc e.0)
aead_checks_iff name m (some x) bad foreign w = elim (Bool-cases (bytes_eq x m)) [
  | inl same ↦ rw same (rest (bytes_eq→eq x m same) bad foreign)
  | inr other ↦
      rw other (λ h. elim h [ ], λ e. absurd (bytes_eq_false→ne x m other (some_inj x m e.0)))
]
  where
    rest :
        x ≡ m
        → (bad foreign : Option (List ℕ))
        → IsSilent (
            (violation_if
                  (not (not (is_some bad)))
                  name
                  "tamper_reject"
                  "tampered tag still authenticated"
                >> violation_if
                    (not (not (is_some foreign)))
                    name
                    "wrong_key"
                    "wrong key still authenticated")
              w)
          ↔ ((some x ≡ some m) × (bad ≡ none) × (foreign ≡ none))
    rest e none none = (λ h. (ap some e, refl, refl), λ h. tt)
    rest e none (some f) = (λ h. elim h [ ], λ h. cc h.2)
    rest e (some b) foreign = (λ h. elim h [ ], λ h. cc h.1)

module _ {W : Type 0} (evp : Evp W) (p : IsPure evp) where
  -- What the pure library makes of a message: ciphertext and tag, and back.
  abbrev keyed : Evp.Cipher evp → List ℕ → List ℕ → List ℕ → Evp.Cipher evp
  keyed c key iv aad =
      let ready = p.with_key_iv (p.with_ivlen c (length iv)) key iv in
      if length aad == 0 then ready else p.absorb_aad ready aad

  abbrev pub sealed : Aead → List ℕ → List ℕ → List ℕ → List ℕ → List ℕ
  sealed ci key iv aad m =
      let first = p.stream (keyed (p.encrypting ci) key iv aad) m in
      let second = p.flush first.1 in first.0 ++ (second.0 ++ p.tag_of second.1 16)

  abbrev pub opened : Aead → List ℕ → List ℕ → List ℕ → List ℕ → Option (List ℕ)
  opened ci key iv aad ct =
      let first = p.stream (keyed (p.decrypting ci) key iv aad) (take (length ct - 16) ct) in
      Option.map (λ (x : List ℕ). first.0 ++ x)
        (p.verified (p.with_tag first.1 (drop (length ct - 16) ct)))

  with_aad_lem :
      (c : Evp.Cipher evp) (aad : List ℕ) (w : World W)
      → with_aad evp c aad w ≡ next ((if length aad == 0 then c else p.absorb_aad c aad), w)
  unfolding with_aad
  with_aad_lem c aad w = elim (Bool-cases (length aad == 0)) [
    | inl e ↦ rw e refl
    | inr e ↦ rw e (ap next (p.aad_call c aad w))
  ]

  aead_encrypt_lem :
      (ci : Aead) (key iv aad m : List ℕ) (w : World W)
      → aead_encrypt evp ci key iv aad m w ≡ next (sealed ci key iv aad m, w)
  unfolding aead_encrypt
  aead_encrypt_lem ci key iv aad m w = simp (
    p.encrypt_call, p.ivlen_call, p.key_iv_call, with_aad_lem, p.stream_call, p.flush_call,
    p.tag_call,
  )

  aead_decrypt_lem :
      (ci : Aead) (key iv aad ct : List ℕ) (w : World W)
      → aead_decrypt evp ci key iv aad ct w ≡ next (opened ci key iv aad ct, w)
  unfolding aead_decrypt
  aead_decrypt_lem ci key iv aad ct w = simp (
    p.decrypt_call, p.ivlen_call, p.key_iv_call, with_aad_lem, p.stream_call, p.set_tag_call,
    p.verified_call,
  )

  decrypts :
      (ci : Aead) (key iv aad ct : List ℕ)
      → aead_decrypt evp ci key iv aad ct ≡ (λ w. next (opened ci key iv aad ct, w))
  decrypts ci key iv aad ct = fun_ext (aead_decrypt_lem ci key iv aad ct)

  -- The relations on an AEAD: the honest ciphertext opens to the message, and neither the
  -- ciphertext with a bit of its last byte flipped nor another key opens anything.
  abbrev pub AeadRelations : Aead → List ℕ → List ℕ → List ℕ → List ℕ → Type 0
  AeadRelations ci key iv aad m =
      let ct = sealed ci key iv aad m in
      (opened ci key iv aad ct ≡ some m)
      × (opened ci key iv aad (xor_at ct (length ct - 1) 0x01) ≡ none)
      × (opened ci (xor_at key 0 0x01) iv aad ct ≡ none)

  test_aead_cut_iff :
      (ci : Aead) (key iv aad m : List ℕ) (w : World W)
      → IsSilent (test_aead_cut evp ci key iv aad m w) ↔ AeadRelations ci key iv aad m
  unfolding test_aead_cut
  test_aead_cut_iff ci key iv aad m w =
      let ct = sealed ci key iv aad m in
      simp (aead_encrypt_lem, decrypts)
        (aead_checks_iff (alg ci) m (opened ci key iv aad ct)
          (opened ci key iv aad (xor_at ct (length ct - 1) 0x01))
          (opened ci (xor_at key 0 0x01) iv aad ct) w)

  -- For a library whose calls depend on their arguments alone, the AEAD test reports nothing
  -- exactly if, for the first 1200 bytes of the message, the honest ciphertext opens to the
  -- message, and neither the ciphertext with the lowest bit of its last byte flipped nor the
  -- ciphertext under a key with one bit flipped opens to anything.
  pub test_aead_iff :
      (ci : Aead) (key iv aad m : List ℕ) (w : World W)
      → IsSilent (test_aead evp ci key iv aad m w) ↔ AeadRelations ci key iv aad (take 1200 m)
  unfolding test_aead
  test_aead_iff ci key iv aad m w = test_aead_cut_iff ci key iv aad (take 1200 m) w
