-- ===== src/Harness/PqcKat/Detect.antt =====
-- A difference of the two libraries on a seed is found.
use cmfuzz.Base.{ℕ, ◌≡◌, ◌↔◌, ap, ap₂, List, some, inl, inr}
use cmfuzz.Engine.Oracle.{Run, next, IsViolation}
use cmfuzz.Harness.World.{World}
use cmfuzz.Harness.Kem.{Kem}
use cmfuzz.Harness.Pqc.Silent.{IsDone, Decides, Decides_iff, or_continue_step, stop_if-Decides}
use cmfuzz.Harness.PqcKat.{Drbg, kat_seed, kem_compare, kem_kat_round}

-- The comparisons of a KEM, in the order of the code.
Same : (pair sent pair2 sent2 : List ℕ × List ℕ) → Type 0
Same pair sent pair2 sent2 =
    (pair.0 ≡ pair2.0)
    × ((pair.1 ≡ pair2.1) × ((sent.0 ≡ sent2.0) × ((sent.1 ≡ sent2.1) × Unit {0})))

Same-iff :
    (pair sent pair2 sent2 : List ℕ × List ℕ)
    → Same pair sent pair2 sent2 ↔ ((pair ≡ pair2) × (sent ≡ sent2))
unfolding Same
Same-iff pair sent pair2 sent2 = (
  λ h. (ap₂ (λ a b. (a, b)) h.0 h.1.0, ap₂ (λ a b. (a, b)) h.1.1.0 h.1.1.1.0),
  λ h. (
    ap (λ (q : List ℕ × List ℕ). q.0) h.0,
    (
      ap (λ (q : List ℕ × List ℕ). q.1) h.0,
      (ap (λ (q : List ℕ × List ℕ). q.0) h.1, (ap (λ (q : List ℕ × List ℕ). q.1) h.1, tt)),
    ),
  ),
)

Decides_map : {A : Type 0} (r : Run A) (P Q : Type 0) → (P ↔ Q) → Decides r P → Decides r Q
Decides_map r P Q e (inl (done, holds)) = inl (done, e.0 holds)
Decides_map r P Q e (inr (aborted, fails)) = inr (aborted, λ q. fails (e.1 q))

module _ {W : Type 0} where
  compared-Decides :
      (p : Kem W) (pair sent pair2 sent2 : List ℕ × List ℕ) (w u1 u2 : World W)
      → p.keypair w ≡ (some pair2, u1)
      → p.encaps pair2.0 u1 ≡ (some sent2, u2)
      → Decides (kem_compare p pair sent w) (Same pair sent pair2 sent2)
  unfolding kem_compare Same
  compared-Decides p pair sent pair2 sent2 w u1 u2 e1 e2 =
      let ss =
        stop_if-Decides sent.1 sent2.1 p.name "O1_kat_bytes" _ next u2 (Unit {0}) (inl (tt, tt)) in
      let ct = stop_if-Decides sent.0 sent2.0 p.name "O1_kat_bytes" _ _ u2 _ ss in
      let sk = stop_if-Decides pair.1 pair2.1 p.name "O1_kat_bytes" _ _ u2 _ ct in
      rw
        (
          or_continue_step p.keypair _ w u1 pair2 e1,
          or_continue_step (p.encaps pair2.0) _ u1 u2 sent2 e2,
        )
        (stop_if-Decides pair.0 pair2.0 p.name "O1_kat_bytes" _ _ u2 _ sk)

  -- If all calls succeed, an iteration of the KEM test comes to its end exactly if both libraries
  -- made the same key pair, the same ciphertext and the same secret, and it aborts with a violation
  -- exactly if they did not. liboqs runs from the seed of the iteration, and PQClean from the same seed again.
  pub kem_kat_round_iff :
      (drbg : Drbg W) (k p : Kem W) (i : ℕ) (w v1 v2 u1 u2 : World W)
      (pair sent pair2 sent2 : List ℕ × List ℕ)
      → k.keypair (drbg.init (kat_seed drbg i w).0 (kat_seed drbg i w).1) ≡ (some pair, v1)
      → k.encaps pair.0 v1 ≡ (some sent, v2)
      → p.keypair (drbg.init (kat_seed drbg i w).0 v2) ≡ (some pair2, u1)
      → p.encaps pair2.0 u1 ≡ (some sent2, u2)
      → (IsDone (kem_kat_round drbg k p i w) ↔ ((pair ≡ pair2) × (sent ≡ sent2)))
        × (IsViolation (kem_kat_round drbg k p i w) ↔ ¬ ((pair ≡ pair2) × (sent ≡ sent2)))
  unfolding kem_kat_round
  kem_kat_round_iff drbg k p i w v1 v2 u1 u2 pair sent pair2 sent2 e1 e2 e3 e4 =
      let seed = (kat_seed drbg i w).0 in
      rw
        (
          or_continue_step k.keypair _ (drbg.init seed (kat_seed drbg i w).1) v1 pair e1,
          or_continue_step (k.encaps pair.0) _ v1 v2 sent e2,
        )
        (Decides_iff _ _ (
          Decides_map _ _ _ (Same-iff pair sent pair2 sent2)
            (compared-Decides p pair sent pair2 sent2 (drbg.init seed v2) u1 u2 e3 e4)))
