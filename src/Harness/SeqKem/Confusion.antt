-- ===== src/Harness/SeqKem/Confusion.antt =====
-- What the sequence of calls finds.
use cmfuzz.Base.{
  ℕ, ◌≡◌, ◌≢◌, ◌↔◌, refl, sym, List, Option, none, some, bytes_eq, bytes_eq→eq, bytes_eq_false→ne,
  Bool-cases, inl, inr, subst,
}
use cmfuzz.Harness.World.{World, H, IsSilent, ◌>>=◌, ◌>>◌, call, call_step}
use cmfuzz.Harness.Kem.{Kem}
use cmfuzz.Harness.SeqKem.{honest_check, confusion_check, key_sequence}

-- A decapsulation that succeeds gives the secret; one that gives it does not succeed.
abbrev pub Agrees : List ℕ → Option (List ℕ) → Type 0
Agrees ss_enc none = Unit {0}
Agrees ss_enc (some ss) = ss ≡ ss_enc

abbrev pub Differs : List ℕ → Option (List ℕ) → Type 0
Differs ss_enc none = Unit {0}
Differs ss_enc (some ss) = ss ≢ ss_enc

module _ {W : Type 0} (kem : Kem W) where
  honest_iff :
      (ss_enc : List ℕ) (o : Option (List ℕ)) (later : H W (Unit {0})) (w : World W)
      → IsSilent ((honest_check kem ss_enc o >> later) w) ↔ (Agrees ss_enc o × IsSilent (later w))
  unfolding honest_check
  honest_iff ss_enc none later w = (λ h. (tt, h), λ h. h.1)
  honest_iff ss_enc (some ss) later w = elim (Bool-cases (bytes_eq ss ss_enc)) [
    | inl same ↦ rw same (λ h. (bytes_eq→eq ss ss_enc same, h), λ h. h.1)
    | inr other ↦ rw other (λ h. elim h [ ], λ h. absurd (bytes_eq_false→ne ss ss_enc other h.0))
  ]

  confusion_iff :
      (ss_enc : List ℕ) (o : Option (List ℕ)) (w : World W)
      → IsSilent (confusion_check kem ss_enc o w) ↔ Differs ss_enc o
  unfolding confusion_check
  confusion_iff ss_enc none w = (λ h. tt, λ h. tt)
  confusion_iff ss_enc (some ss) w = elim (Bool-cases (bytes_eq ss ss_enc)) [
    | inl same ↦ rw same (λ h. elim h [ ], λ h. absurd (h (bytes_eq→eq ss ss_enc same)))
    | inr other ↦ rw other (λ h. bytes_eq_false→ne ss ss_enc other, λ h. tt)
  ]

  -- When both key pairs and the encapsulation are made, the sequence ends without a violation exactly
  -- if decapsulation with the right key, where it succeeds, gives the sender's secret, and with the
  -- other party's key, where it succeeds, another one.
  pub key_sequence_iff :
      (w w1 w2 w3 w4 w5 : World W) (alice bob sent : List ℕ × List ℕ) (ss_a ss_b : Option (List ℕ))
      → kem.keypair w ≡ (some alice, w1)
      → kem.keypair w1 ≡ (some bob, w2)
      → kem.encaps alice.0 w2 ≡ (some sent, w3)
      → kem.decaps sent.0 alice.1 w3 ≡ (ss_a, w4)
      → kem.decaps sent.0 bob.1 w4 ≡ (ss_b, w5)
      → IsSilent (key_sequence kem w) ↔ (Agrees sent.1 ss_a × Differs sent.1 ss_b)
  unfolding key_sequence
  key_sequence_iff w w1 w2 w3 w4 w5 alice bob sent ss_a ss_b e1 e2 e3 e4 e5 =
      let last : H W (Unit {0}) = call (kem.decaps sent.0 bob.1) >>= confusion_check kem sent.1 in
      let path : key_sequence kem w ≡ (honest_check kem sent.1 ss_a >> last) w4 =
        rw (e1, e2, e3, e4) refl in
      let ends : last w4 ≡ confusion_check kem sent.1 ss_b w5 =
        call_step (confusion_check kem sent.1) (kem.decaps sent.0 bob.1) e5 in
      let honest = honest_iff sent.1 ss_a last w4 in
      let confusion = confusion_iff sent.1 ss_b w5 in
      (
        λ h.
            let (agrees, rest) = honest.0 (subst IsSilent path h) in
            (agrees, confusion.0 (subst IsSilent ends rest)),
        λ h.
            subst IsSilent (sym path) (honest.1 (h.0, subst IsSilent (sym ends) (confusion.1 h.1))),
      )
