-- ===== src/Harness/PqcDiff/Silent.antt =====
-- No false alarm between two libraries that interoperate.
use cmfuzz.Base.{
  ℕ, zero, suc, ◌+◌, ◌%◌, ◌^◌, ◌≡◌, refl, List, Option, some, Bool, true, false, length, All,
}
use Prim.Native.String.{String}
use cmfuzz.Engine.Oracle.{next}
use cmfuzz.Harness.World.{World, Call, IsSilent, xor_at}
use cmfuzz.Harness.Kem.{Kem}
use cmfuzz.Harness.Sig.{Sig}
use cmfuzz.Harness.Pqc.{Round, PqcLibs, kems, sigs}
use cmfuzz.Harness.Pqc.Silent.{
  IsDone, IsDone-IsSilent, Ends, or_continue-IsDone, stop_if-IsDone, after-IsDone, quiet_status,
  schemes_main-Ends, Passes, All_map,
}
use cmfuzz.Harness.PqcDiff.{
  direction_b, kem_round, kem_interop, differ, fill_random, verdicts, tamper_loop, sig_direction_b,
  sig_round, sig_interop, argument, pqc_diff_main,
}

differ_self : (a b : Bool) → a ≡ b → differ a b ≡ false
differ_self true true e = refl
differ_self true false e = cc e
differ_self false true e = cc e
differ_self false false e = refl

module _ {W : Type 0} where
  -- What one library encapsulates for a key of the other, the other decapsulates to the same
  -- secret, if all calls succeed.
  abbrev pub Interoperates : Kem W → Kem W → Type 0
  Interoperates k p =
      (w1 w2 w3 v1 v2 v3 : World W) (pair sent : List ℕ × List ℕ) (ss : List ℕ)
      → k.keypair w1 ≡ (some pair, v1)
      → p.encaps pair.0 w2 ≡ (some sent, v2)
      → k.decaps sent.0 pair.1 w3 ≡ (some ss, v3)
      → sent.1 ≡ ss

  -- Two libraries give the same verdict on every signature, right or wrong.
  abbrev pub AgreeOnVerdicts : Sig W → Sig W → Type 0
  AgreeOnVerdicts s p =
      (w v : World W) (msg sig pk : List ℕ) → (s.verify msg sig pk w).0 ≡ (p.verify msg sig pk v).0

  direction_b-IsDone : (k p : Kem W) (w : World W) → Interoperates p k → IsDone (direction_b k p w)
  unfolding direction_b
  direction_b-IsDone k p w i = or_continue-IsDone p.keypair _ w λ pair v1 e1.
      or_continue-IsDone (k.encaps pair.0) _ v1 λ sent v2 e2.
        or_continue-IsDone (p.decaps sent.0 pair.1) _ v2 λ ss v3 e3.
          stop_if-IsDone sent.1 ss _ _ _ next v3 (i w v1 v2 v1 v2 v3 pair sent ss e1 e2 e3) tt

  kem_round-IsDone :
      (k p : Kem W) (w : World W) → Interoperates k p → Interoperates p k → IsDone (kem_round k p w)
  unfolding kem_round
  kem_round-IsDone k p w i j = or_continue-IsDone k.keypair _ w λ pair v1 e1.
      or_continue-IsDone (p.encaps pair.0) _ v1 λ sent v2 e2.
        or_continue-IsDone (k.decaps sent.0 pair.1) _ v2 λ ss v3 e3.
          stop_if-IsDone sent.1 ss _ _ _ (direction_b k p) v3
            (i w v1 v2 v1 v2 v3 pair sent ss e1 e2 e3) (direction_b-IsDone k p v3 j)

  kem_interop-IsDone :
      (iters : ℕ) (k p : Kem W) (w : World W)
      → Interoperates k p
      → Interoperates p k
      → IsDone (kem_interop iters k p w)
  unfolding kem_interop
  kem_interop-IsDone zero k p w i j = tt
  kem_interop-IsDone (suc iters) k p w i j =
      after-IsDone (kem_round k p w) (kem_interop iters k p) (kem_round-IsDone k p w i j)
        (λ v. kem_interop-IsDone iters k p v i j)

  -- Between two KEM libraries that interoperate in both directions the interoperability test ends
  -- without a violation, however many iterations it makes, from whichever state, and whichever
  -- calls fail on the way.
  kem_interop-IsSilent :
      (iters : ℕ) (k p : Kem W) (w : World W)
      → Interoperates k p
      → Interoperates p k
      → IsSilent (kem_interop iters k p w)
  kem_interop-IsSilent iters k p w i j =
      IsDone-IsSilent (kem_interop iters k p w) (kem_interop-IsDone iters k p w i j)

  module _ (rand : Call W ℕ) where
    verdicts-IsDone :
        (a b : Sig W) (alg text : String) (msg sig pk : List ℕ) (f : Round W) (w : World W)
        → AgreeOnVerdicts a b
        → ((v : World W) → IsDone (f v))
        → IsDone (verdicts rand a b alg text msg sig pk f w)
    unfolding verdicts
    verdicts-IsDone a b alg text msg sig pk f w agree h =
        let w1 = (a.verify msg sig pk w).1 in
        let w2 = (b.verify msg sig pk w1).1 in
        let same =
          differ_self (a.verify msg sig pk w).0 (b.verify msg sig pk w1).0
            (agree w w1 msg sig pk) in
        rw same (h w2)

    tamper_loop-IsDone :
        (a b : Sig W) (alg text : String) (msg sig pk : List ℕ) (f : Round W) (w : World W)
        → AgreeOnVerdicts a b
        → ((v : World W) → IsDone (f v))
        → IsDone (tamper_loop rand a b alg text msg sig pk f w)
    unfolding tamper_loop
    tamper_loop-IsDone a b alg text msg sig pk f w agree h =
        verdicts-IsDone a b alg text msg sig pk _ w agree λ v.
          verdicts-IsDone a b alg text (xor_at msg ((rand v).0 % length msg) 0x01) sig pk f
            (rand v).1 agree h

    sig_direction_b-IsDone :
        (s p : Sig W) (mlen : ℕ) (w : World W)
        → AgreeOnVerdicts p s
        → IsDone (sig_direction_b rand s p mlen w)
    unfolding sig_direction_b
    sig_direction_b-IsDone s p mlen w agree =
        let drawn = fill_random rand mlen w in
        or_continue-IsDone p.keypair _ drawn.1 λ pair v1 e1.
          or_continue-IsDone (p.sign drawn.0 pair.1) _ v1
            λ sig v2 e2. tamper_loop-IsDone p s _ _ drawn.0 sig pair.0 next v2 agree (λ v. tt)

    sig_round-IsDone :
        (s p : Sig W) (w : World W)
        → AgreeOnVerdicts s p
        → AgreeOnVerdicts p s
        → IsDone (sig_round rand s p w)
    unfolding sig_round
    sig_round-IsDone s p w agree back =
        let mlen = 1 + (rand w).0 % 200 in
        let drawn = fill_random rand mlen (rand w).1 in
        or_continue-IsDone s.keypair _ drawn.1 λ pair v1 e1.
          or_continue-IsDone (s.sign drawn.0 pair.1) _ v1 λ sig v2 e2.
            tamper_loop-IsDone s p _ _ drawn.0 sig pair.0 (sig_direction_b rand s p mlen) v2 agree
              (λ v. sig_direction_b-IsDone s p mlen v back)

    sig_interop-IsDone :
        (iters : ℕ) (s p : Sig W) (w : World W)
        → AgreeOnVerdicts s p
        → AgreeOnVerdicts p s
        → IsDone (sig_interop rand iters s p w)
    unfolding sig_interop
    sig_interop-IsDone zero s p w agree back = tt
    sig_interop-IsDone (suc iters) s p w agree back =
        after-IsDone (sig_round rand s p w) (sig_interop rand iters s p)
          (sig_round-IsDone s p w agree back) (λ v. sig_interop-IsDone iters s p v agree back)

  -- What liboqs and PQClean have in common, if liboqs has a scheme enabled.
  abbrev KemAgrees : PqcLibs W → Kem W → Type 0
  KemAgrees libs p =
      (k : Kem W) → libs.oqs_kem p.name ≡ some k → Interoperates k p × Interoperates p k

  abbrev SigAgrees : PqcLibs W → Sig W → Type 0
  SigAgrees libs p =
      (s : Sig W) → libs.oqs_sig p.name ≡ some s → AgreeOnVerdicts s p × AgreeOnVerdicts p s

  pub record Compatible (libs : PqcLibs W) : Type 0 where
    pub kems_agree : All (KemAgrees libs) (kems libs)
    pub sigs_agree : All (SigAgrees libs) (sigs libs)

  -- Between libraries that interoperate on every enabled scheme the program comes to its end
  -- without a violation, whatever its arguments and the state, and whichever calls fail on the way;
  -- its status is 1 if liboqs has none of the schemes enabled, and 0 otherwise.
  pub pqc_diff_main-Ends :
      (libs : PqcLibs W) (srand : ℕ → World W → World W) (rand : Call W ℕ) (iters seed : Option ℕ)
      (w : World W)
      → Compatible libs
      → Ends
          (λ (r : ℕ × World W). r.0 ≡ quiet_status libs)
          (pqc_diff_main libs srand rand iters seed w)
  unfolding pqc_diff_main
  pqc_diff_main-Ends libs srand rand iters seed w h =
      let n = argument iters 2000 in
      schemes_main-Ends libs (kem_interop n) (sig_interop rand n)
        (libs.init (srand (argument seed 42 % 2 ^ 32) w))
        (All_map (KemAgrees libs) (Passes (λ p. p.name) libs.oqs_kem (kem_interop n)) (kems libs)
          (λ p agree k e v. kem_interop-IsDone n k p v (agree k e).0 (agree k e).1) h.kems_agree)
        (All_map (SigAgrees libs) (Passes (λ p. p.name) libs.oqs_sig (sig_interop rand n))
          (sigs libs) (λ p agree s e v. sig_interop-IsDone rand n s p v (agree s e).0 (agree s e).1)
          h.sigs_agree)
