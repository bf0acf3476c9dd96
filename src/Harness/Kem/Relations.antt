-- ===== src/Harness/Kem/Relations.antt =====
-- What the KEM harness finds.
use cmfuzz.Base.{
  ℕ, ◌≡◌, ◌≢◌, ◌↔◌, refl, sym, ap, ◌∙◌, arith, List, some, Bool, true, false, not, ◌==◌, bytes_eq,
  bytes_eq→eq, bytes_eq_false→ne, ne→bytes_eq_false, Bool-cases, inl, inr, bit_and, bytes_eq_refl,
  subst,
}
use cmfuzz.Engine.Oracle.{Run}
use cmfuzz.Harness.World.{
  World, H, IsSilent, flip_selected, violation_if, when, test_iff, guarded_iff, ◌>>◌, call_step,
  or_done_step, or_violation_step,
}
use cmfuzz.Harness.Kem.{
  Kem, kem_relations, malleability, wrong_key, foreign_decaps, attacker_ciphertext, determinism,
  asked_relations, gives_other,
}

-- A bit of the mode byte.
abbrev pub Asks : ℕ → ℕ → Type 0
Asks mode bit = bit_and mode bit ≢ 0

-- A relation that is tested if the bit asks for it.
asked_iff :
    (mode bit : ℕ) (out ss : List ℕ)
    → (not (bit_and mode bit == 0) ≡ true → bytes_eq out ss ≡ false) ↔ (Asks mode bit → out ≢ ss)
asked_iff mode bit out ss = (
  λ h asks. bytes_eq_false→ne out ss (h (ground (arith, asks))),
  λ h asked. ne→bytes_eq_false out ss (h (λ e. cc (asked, ap (λ (n : ℕ). not (n == 0)) e))),
)

same_iff : (a b : List ℕ) → (not (bytes_eq a b) ≡ false) ↔ (a ≡ b)
same_iff a b = elim (Bool-cases (bytes_eq a b)) [
  | inl e ↦ rw e (λ _. bytes_eq→eq a b e, λ _. refl)
  | inr e ↦ rw e (λ h. cc h, λ h. absurd (bytes_eq_false→ne a b e h))
]

module _ {W : Type 0} (k : Kem W) (decapsulate : List ℕ → List ℕ → List ℕ) where
  -- Decapsulation returns a secret for every ciphertext, as implicit rejection has it, and depends
  -- on nothing else.
  abbrev pub IsPure : Type 0
  IsPure = (ct sk : List ℕ) (w : World W) → k.decaps ct sk w ≡ (some (decapsulate ct sk), w)

  -- The relations on a key pair, an encapsulation and a second key.
  abbrev pub Relations : ℕ → ℕ → List ℕ → List ℕ → List ℕ → List ℕ → Type 0
  Relations mode sel sk ct ss sk2 =
      (ss ≡ decapsulate ct sk)
      × (Asks mode 0x01 → decapsulate (flip_selected ct k.length_ciphertext sel) sk ≢ ss)
      × (Asks mode 0x02 → decapsulate ct sk2 ≢ ss)

  malleability_test :
      (pure : IsPure) (sel : ℕ) (ct ss sk : List ℕ) (w : World W)
      → malleability k true sel ct ss sk w
        ≡ violation_if
            (bytes_eq (decapsulate (flip_selected ct k.length_ciphertext sel) sk) ss)
            k.name
            "MR2_malleability"
            "mutated ct yields honest shared secret"
            w
  unfolding malleability
  malleability_test pure sel ct ss sk w =
      rw (pure (flip_selected ct k.length_ciphertext sel) sk w) refl

  wrong_key_test :
      (pure : IsPure) (ct ss pk2 sk2 : List ℕ) (w w' : World W)
      → k.keypair w ≡ (some (pk2, sk2), w')
      → wrong_key k ct ss w
        ≡ violation_if
            (bytes_eq (decapsulate ct sk2) ss)
            k.name
            "MR3_wrong_key"
            "foreign sk recovers honest shared secret"
            w'
  unfolding wrong_key foreign_decaps
  wrong_key_test pure ct ss pk2 sk2 w w' e = rw (e, pure ct sk2 w') refl

  attacker_ciphertext-IsSilent :
      (pure : IsPure) (c : Bool) (ct tail sk : List ℕ) (w : World W)
      → IsSilent (when c (attacker_ciphertext k ct tail sk) w)
  unfolding attacker_ciphertext
  attacker_ciphertext-IsSilent pure false ct tail sk w = tt
  attacker_ciphertext-IsSilent pure true ct tail sk w = tt

  asked_relations_iff :
      (pure : IsPure) (mode sel : ℕ) (tail ct ss sk pk2 sk2 : List ℕ) (w w' : World W)
      → k.keypair w ≡ (some (pk2, sk2), w')
      → IsSilent (asked_relations k true mode sel tail ct ss sk w) ↔ (
          (Asks mode 0x01 → decapsulate (flip_selected ct k.length_ciphertext sel) sk ≢ ss)
          × (Asks mode 0x02 → decapsulate ct sk2 ≢ ss))
  unfolding asked_relations
  asked_relations_iff pure mode sel tail ct ss sk pk2 sk2 w w' e =
      let last = attacker_ciphertext-IsSilent pure (not (bit_and mode 0x04 == 0)) ct tail sk in
      let unit : (v : World W)
          → IsSilent (when (not (bit_and mode 0x04 == 0)) (attacker_ciphertext k ct tail sk) v)
            ↔ Unit {0} =
        λ v. (λ _. tt, λ _. last v) in
      let mr3 =
        guarded_iff (not (bit_and mode 0x02 == 0)) (bytes_eq (decapsulate ct sk2) ss) k.name
          "MR3_wrong_key" "foreign sk recovers honest shared secret" (wrong_key k ct ss)
          (when (not (bit_and mode 0x04 == 0)) (attacker_ciphertext k ct tail sk)) w w' (Unit {0})
          (λ _. wrong_key_test pure ct ss pk2 sk2 w w' e) (unit w) (unit w') in
      let mr2 =
        guarded_iff (not (bit_and mode 0x01 == 0))
          (bytes_eq (decapsulate (flip_selected ct k.length_ciphertext sel) sk) ss) k.name
          "MR2_malleability" "mutated ct yields honest shared secret"
          (malleability k true sel ct ss sk)
          (when (not (bit_and mode 0x02 == 0)) (wrong_key k ct ss)
            >> when (not (bit_and mode 0x04 == 0)) (attacker_ciphertext k ct tail sk))
          w w _ (λ _. malleability_test pure sel ct ss sk w) mr3 mr3 in
      let flip_iff =
        asked_iff mode 0x01 (decapsulate (flip_selected ct k.length_ciphertext sel) sk) ss in
      let key_iff = asked_iff mode 0x02 (decapsulate ct sk2) ss in
      (
        λ h. let (a, b) = mr2.0 h in (flip_iff.0 a, key_iff.0 b.0),
        λ h. mr2.1 (flip_iff.1 h.0, (key_iff.1 h.1, tt)),
      )

  determinism_passes :
      (pure : IsPure) (ct sk : List ℕ) (later : H W (Unit {0})) (w : World W)
      → (determinism k ct (decapsulate ct sk) sk >> later) w ≡ later w
  unfolding determinism
  determinism_passes pure ct sk later w =
      call_step
        (λ again.
          violation_if (gives_other again (decapsulate ct sk)) k.name "MR4_determinism"
            "decaps not deterministic"
          >> later)
        (k.decaps ct sk) (pure ct sk w)
      ∙ ap
          (λ (b : Bool).
            (violation_if (not b) k.name "MR4_determinism" "decaps not deterministic" >> later) w)
          (bytes_eq_refl (decapsulate ct sk))

  -- For a library whose decapsulation is a function of ciphertext and key, and in a run whose two
  -- key generations, encapsulation and allocations succeed, the KEM harness reports no violation
  -- exactly if the honest ciphertext decapsulates to the encapsulated secret, and, where the mode
  -- asks for it, the ciphertext with one bit flipped does not, nor does the second key.
  pub kem_relations_iff :
      (pure : IsPure) (mode sel : ℕ) (tail pk sk ct ss pk2 sk2 : List ℕ) (w w1 w2 w3 : World W)
      → k.keypair w ≡ (some (pk, sk), w1)
      → k.encaps pk w1 ≡ (some (ct, ss), w2)
      → k.keypair w2 ≡ (some (pk2, sk2), w3)
      → IsSilent (kem_relations k true mode sel tail w) ↔ Relations mode sel sk ct ss sk2
  unfolding kem_relations
  kem_relations_iff pure mode sel tail pk sk ct ss pk2 sk2 w w1 w2 w3 e1 e2 e3 =
      let later = asked_relations_iff pure mode sel tail ct ss sk pk2 sk2 w2 w3 e3 in
      let honest = same_iff ss (decapsulate ct sk) in
      let start =
        or_done_step _ k.keypair e1
        ∙ or_done_step _ (k.encaps pk) e2
        ∙ or_violation_step _ (k.decaps ct sk) k.name "MR1_decaps_status"
            "decaps failed on honest ct" (pure ct sk w2) in
      let mr1 =
        test_iff (not (bytes_eq ss (decapsulate ct sk))) k.name "MR1_correctness"
          "shared secrets differ" _ w2 in
      let mr4 = determinism_passes pure ct sk (asked_relations k true mode sel tail ct ss sk) w2 in
      subst (λ (r : Run (Unit {0} × World W)). IsSilent r ↔ Relations mode sel sk ct ss sk2)
        (sym start)
        (
          λ h.
              let (a, b) = mr1.0 h in
              let c = later.0 (subst IsSilent mr4 b) in (honest.0 a, c.0, c.1),
          λ h. mr1.1 (honest.1 h.0, subst IsSilent (sym mr4) (later.1 (h.1, h.2))),
        )
