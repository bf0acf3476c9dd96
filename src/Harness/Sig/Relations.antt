-- ===== src/Harness/Sig/Relations.antt =====
-- What the signature harness finds.
use cmfuzz.Base.{
  ℕ, zero, suc, ◌^◌, ◌%◌, ◌<◌, ◌≡◌, ◌≢◌, ◌↔◌, refl, sym, subst, ◌∙◌, arith, List, some, Bool, true,
  false, not, ◌&&◌, ◌==◌, ltb, ne→bytes_eq_false, bit_and, length,
}
use cmfuzz.Base.Bits.{and_seven}
use cmfuzz.Engine.Oracle.{Run}
use cmfuzz.Harness.World.{
  World, H, IsSilent, xor_at, xor_at-ne, flip_selected, violation_if, when, test_iff, guarded_iff,
  ◌>>◌, call_step, or_done_step,
}
use cmfuzz.Harness.Sig.{
  Sig, correctness, message_binding, mutated_signature, unforgeability, foreign_verify, wrong_key,
  attacker_signature, asked_tests, sig_relations,
}

pow-ne-zero : (k : ℕ) → k < 8 → 2 ^ k % 256 ≢ 0
pow-ne-zero zero h = omega arith
pow-ne-zero (suc zero) h = omega arith
pow-ne-zero (suc (suc zero)) h = omega arith
pow-ne-zero (suc (suc (suc zero))) h = omega arith
pow-ne-zero (suc (suc (suc (suc zero)))) h = omega arith
pow-ne-zero (suc (suc (suc (suc (suc zero))))) h = omega arith
pow-ne-zero (suc (suc (suc (suc (suc (suc zero)))))) h = omega arith
pow-ne-zero (suc (suc (suc (suc (suc (suc (suc zero))))))) h = omega arith
pow-ne-zero (suc (suc (suc (suc (suc (suc (suc (suc k)))))))) h = absurd (omega arith)

-- The bit flip of the harnesses always changes a buffer that is not empty.
pub flip_selected-ne : (b : List ℕ) (sel : ℕ) → 0 < length b → flip_selected b (length b) sel ≢ b
unfolding flip_selected
flip_selected-ne b sel h =
    xor_at-ne b (sel % length b) (2 ^ bit_and sel 7 % 256) (grind arith)
      (pow-ne-zero (bit_and sel 7) (omega (arith, and_seven sel)))

-- Bits of the mode byte, and what else a test needs.
abbrev pub AsksFor : ℕ → ℕ → ℕ → ℕ → Type 0
AsksFor mode bit least n = (bit_and mode bit ≢ 0) × (least < n)

asks_iff :
    (mode bit least n : ℕ) (P : Type 0)
    → ((not (bit_and mode bit == 0) && ltb least n) ≡ true → P) ↔ (AsksFor mode bit least n → P)
asks_iff mode bit least n P = (λ h a. h (ground (arith, a)), λ h e. h (ground (arith, e)))

bit_iff :
    (mode bit : ℕ) (P : Type 0)
    → (not (bit_and mode bit == 0) ≡ true → P) ↔ (bit_and mode bit ≢ 0 → P)
bit_iff mode bit P = (λ h a. h (ground (arith, a)), λ h e. h (ground (arith, e)))

not_iff : (b : Bool) → (not b ≡ false) ↔ (b ≡ true)
not_iff true = (λ _. refl, λ _. refl)
not_iff false = (λ e. cc e, λ e. cc e)

module _ {W : Type 0} (s : Sig W) (accepts : List ℕ → List ℕ → List ℕ → Bool) where
  -- Verification depends on message, signature and key alone.
  abbrev pub IsPure : Type 0
  IsPure = (msg sig pk : List ℕ) (w : World W) → s.verify msg sig pk w ≡ (accepts msg sig pk, w)

  -- The relations on a key, a signature and a second key.
  abbrev pub Relations : ℕ → ℕ → List ℕ → List ℕ → List ℕ → List ℕ → Type 0
  Relations mode sel msg sig pk pk2 =
      (accepts msg sig pk ≡ true)
      × (AsksFor mode 0x01 1 (length msg)
          → accepts (xor_at msg (sel % length msg) 0x01) sig pk ≡ false)
      × (AsksFor mode 0x02 0 (length sig)
          → accepts msg (flip_selected sig (length sig) sel) pk ≡ false)
      × (bit_and mode 0x04 ≢ 0 → accepts msg sig pk2 ≡ false)

  correctness_test :
      (pure : IsPure) (msg sig pk : List ℕ) (rest : H W (Unit {0})) (w : World W)
      → (correctness s msg sig pk >> rest) w
        ≡ (violation_if
                (not (accepts msg sig pk))
                s.name
                "MR1_correctness"
                "valid signature rejected"
              >> rest)
            w
  unfolding correctness
  correctness_test pure msg sig pk rest w =
      call_step
        (λ ok. violation_if (not ok) s.name "MR1_correctness" "valid signature rejected" >> rest)
        (s.verify msg sig pk) (pure msg sig pk w)

  message_binding_test :
      (pure : IsPure) (sel : ℕ) (msg sig pk : List ℕ) (w : World W)
      → message_binding s true sel msg sig pk w
        ≡ violation_if
            (accepts (xor_at msg (sel % length msg) 0x01) sig pk)
            s.name
            "MR2_message_binding"
            "signature verifies for altered message"
            w
  unfolding message_binding
  message_binding_test pure sel msg sig pk w =
      rw (pure (xor_at msg (sel % length msg) 0x01) sig pk w) refl

  unforgeability_test :
      (pure : IsPure) (sel : ℕ) (msg sig pk : List ℕ) (w : World W)
      → 0 < length sig
      → unforgeability s true sel msg sig pk w
        ≡ violation_if
            (accepts msg (flip_selected sig (length sig) sel) pk)
            s.name
            "MR3_strong_unforgeability"
            "mutated signature still verifies (SUF violation)"
            w
  unfolding unforgeability mutated_signature
  unforgeability_test pure sel msg sig pk w h =
      rw
        (
          ne→bytes_eq_false (flip_selected sig (length sig) sel) sig (flip_selected-ne sig sel h),
          pure msg (flip_selected sig (length sig) sel) pk w,
        )
        refl

  wrong_key_test :
      (pure : IsPure) (msg sig pk2 sk2 : List ℕ) (w w' : World W)
      → s.keypair w ≡ (some (pk2, sk2), w')
      → wrong_key s msg sig w
        ≡ violation_if
            (accepts msg sig pk2)
            s.name
            "MR4_wrong_key"
            "signature verifies under foreign public key"
            w'
  unfolding wrong_key foreign_verify
  wrong_key_test pure msg sig pk2 sk2 w w' e = rw (e, pure msg sig pk2 w') refl

  attacker_signature-IsSilent :
      (c : Bool) (msg tail pk : List ℕ) (w : World W)
      → IsSilent (when c (attacker_signature s msg tail pk) w)
  unfolding attacker_signature
  attacker_signature-IsSilent false msg tail pk w = tt
  attacker_signature-IsSilent true msg tail pk w = tt

  asked_tests_iff :
      (pure : IsPure) (mode sel : ℕ) (tail msg sig pk pk2 sk2 : List ℕ) (w w' : World W)
      → s.keypair w ≡ (some (pk2, sk2), w')
      → IsSilent (asked_tests s true true mode sel tail msg sig pk w) ↔ (
          (AsksFor mode 0x01 1 (length msg)
            → accepts (xor_at msg (sel % length msg) 0x01) sig pk ≡ false)
          × (AsksFor mode 0x02 0 (length sig)
              → accepts msg (flip_selected sig (length sig) sel) pk ≡ false)
          × (bit_and mode 0x04 ≢ 0 → accepts msg sig pk2 ≡ false))
  unfolding asked_tests
  asked_tests_iff pure mode sel tail msg sig pk pk2 sk2 w w' e =
      let c1 = not (bit_and mode 0x01 == 0) && ltb 1 (length msg) in
      let c2 = not (bit_and mode 0x02 == 0) && ltb 0 (length sig) in
      let c3 = not (bit_and mode 0x04 == 0) in
      let last = when (not (bit_and mode 0x08 == 0)) (attacker_signature s msg tail pk) in
      let unit : (v : World W) → IsSilent (last v) ↔ Unit {0} = λ v.
        (λ _. tt, λ _. attacker_signature-IsSilent (not (bit_and mode 0x08 == 0)) msg tail pk v) in
      let mr4 =
        guarded_iff c3 (accepts msg sig pk2) s.name "MR4_wrong_key"
          "signature verifies under foreign public key" (wrong_key s msg sig) last w w' (Unit {0})
          (λ _. wrong_key_test pure msg sig pk2 sk2 w w' e) (unit w) (unit w') in
      let from4 = when c3 (wrong_key s msg sig) >> last in
      let mr3 =
        guarded_iff c2 (accepts msg (flip_selected sig (length sig) sel) pk) s.name
          "MR3_strong_unforgeability" "mutated signature still verifies (SUF violation)"
          (unforgeability s true sel msg sig pk) from4 w w _
          (λ c. unforgeability_test pure sel msg sig pk w (ground (arith, c))) mr4 mr4 in
      let from3 = when c2 (unforgeability s true sel msg sig pk) >> from4 in
      let mr2 =
        guarded_iff c1 (accepts (xor_at msg (sel % length msg) 0x01) sig pk) s.name
          "MR2_message_binding" "signature verifies for altered message"
          (message_binding s true sel msg sig pk) from3 w w _
          (λ _. message_binding_test pure sel msg sig pk w) mr3 mr3 in
      let i2 =
        asks_iff mode 0x01 1 (length msg)
          (accepts (xor_at msg (sel % length msg) 0x01) sig pk ≡ false) in
      let i3 =
        asks_iff mode 0x02 0 (length sig)
          (accepts msg (flip_selected sig (length sig) sel) pk ≡ false) in
      let i4 = bit_iff mode 0x04 (accepts msg sig pk2 ≡ false) in
      (
        λ h. let (a, b) = mr2.0 h in (i2.0 a, i3.0 b.0, i4.0 b.1.0),
        λ h. mr2.1 (i2.1 h.0, (i3.1 h.1, (i4.1 h.2, tt))),
      )

  -- For a library whose verification is a function of message, signature and key, and in a run
  -- whose two key generations, signing and allocations succeed, the signature harness reports no
  -- violation exactly if the honest signature verifies, and, where the mode asks for it, neither
  -- does it verify for the message with one bit flipped or under the second key, nor does the
  -- signature with one bit flipped verify. The flip of a signature always changes it, so the test
  -- of strong unforgeability is never skipped.
  pub sig_relations_iff :
      (pure : IsPure) (mode sel : ℕ) (tail msg pk sk sig pk2 sk2 : List ℕ) (w w1 w2 w3 : World W)
      → s.keypair w ≡ (some (pk, sk), w1)
      → s.sign msg sk w1 ≡ (some sig, w2)
      → s.keypair w2 ≡ (some (pk2, sk2), w3)
      → IsSilent (sig_relations s true true mode sel tail msg w) ↔ Relations mode sel msg sig pk pk2
  unfolding sig_relations
  sig_relations_iff pure mode sel tail msg pk sk sig pk2 sk2 w w1 w2 w3 e1 e2 e3 =
      let later = asked_tests_iff pure mode sel tail msg sig pk pk2 sk2 w2 w3 e3 in
      let rest = asked_tests s true true mode sel tail msg sig pk in
      let start =
        or_done_step _ s.keypair e1
        ∙ or_done_step _ (s.sign msg sk) e2
        ∙ correctness_test pure msg sig pk rest w2 in
      let mr1 =
        test_iff (not (accepts msg sig pk)) s.name "MR1_correctness" "valid signature rejected" rest
          w2 in
      let honest = not_iff (accepts msg sig pk) in
      subst (λ (r : Run (Unit {0} × World W)). IsSilent r ↔ Relations mode sel msg sig pk pk2)
        (sym start)
        (
          λ h. let (a, b) = mr1.0 h in let c = later.0 b in (honest.0 a, c.0, c.1, c.2),
          λ h. mr1.1 (honest.1 h.0, later.1 (h.1, h.2, h.3)),
        )
