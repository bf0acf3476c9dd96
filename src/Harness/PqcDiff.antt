-- ===== src/Harness/PqcDiff.antt =====
-- harness/pqc_diff_harness.c, without its fault hook CMF_PQC_FAULT: liboqs against PQClean.
pub mod Silent
use Prim.Native.String.{String}
use cmfuzz.Base.{
  ℕ, zero, suc, ◌+◌, ◌%◌, ◌^◌, List, [], ◌∷◌, Option, none, some, Bool, true, false, not, ◌==◌,
  bytes_eq, bit_and, length,
}
use cmfuzz.Engine.Oracle.{Run, next, finish, violated}
use cmfuzz.Harness.World.{World, Call, xor_at}
use cmfuzz.Harness.Pqc.{Round, or_continue, stop_if, after, PqcLibs, schemes_main}
use cmfuzz.Harness.Kem.{Kem}
use cmfuzz.Harness.Sig.{Sig}

module _ {W : Type 0} where
  -- PQClean encapsulates for liboqs, then the other way round. A `Kem` stands for either library.
  pub direction_b : Kem W → Kem W → Round W
  direction_b k p = or_continue p.keypair λ pair. or_continue (k.encaps pair.0) λ sent.
      or_continue (p.decaps sent.0 pair.1) λ ss2.
        stop_if (not (bytes_eq sent.1 ss2)) p.name "O1_kem_interop"
          "PQClean decaps != liboqs encaps shared secret (dir B)" next

  pub kem_round : Kem W → Kem W → Round W
  unfolding direction_b
  kem_round k p = or_continue k.keypair λ pair. or_continue (p.encaps pair.0) λ sent.
      or_continue (k.decaps sent.0 pair.1) λ ss2.
        stop_if (not (bytes_eq sent.1 ss2)) p.name "O1_kem_interop"
          "liboqs decaps != PQClean encaps shared secret (dir A)" (direction_b k p)

  -- The loop of `kem_interop`.
  unfoldable pub kem_interop : ℕ → Kem W → Kem W → Round W
  unfolding kem_round
  kem_interop zero k p w = next w
  kem_interop (suc iters) k p w = after (kem_round k p w) (kem_interop iters k p)

-- Two verdicts that are not the same.
abbrev pub differ : Bool → Bool → Bool
differ true b = not b
differ false b = b

module _ {W : Type 0} (rand : Call W ℕ) where
  pub fill_random : ℕ → Call W (List ℕ)
  fill_random zero w = ([], w)
  fill_random (suc n) w =
      let (r, w1) = rand w in let (later, w2) = fill_random n w1 in (bit_and r 0xff ∷ later, w2)

  -- The verdicts of two libraries, in the order in which they are asked.
  unfoldable pub verdicts :
      Sig W → Sig W → String → String → List ℕ → List ℕ → List ℕ → Round W → Round W
  verdicts a b alg text msg sig pk f w =
      let (va, w1) = a.verify msg sig pk w in
      let (vb, w2) = b.verify msg sig pk w1 in
      stop_if (differ va vb) alg "O1_sig_verify_interop" text f w2

  -- The loop over `tamper`.
  unfoldable pub tamper_loop :
      Sig W → Sig W → String → String → List ℕ → List ℕ → List ℕ → Round W → Round W
  unfolding verdicts
  tamper_loop a b alg text msg sig pk f = verdicts a b alg text msg sig pk λ w.
      let (r, w1) = rand w in verdicts a b alg text (xor_at msg (r % length msg) 0x01) sig pk f w1

  unfoldable pub sig_direction_b : Sig W → Sig W → ℕ → Round W
  unfolding fill_random tamper_loop
  sig_direction_b s p mlen w =
      let (msg, w1) = fill_random mlen w in
      or_continue p.keypair
        (λ pair. or_continue (p.sign msg pair.1) λ sig.
          tamper_loop p s p.name "PQClean vs liboqs verdict disagree (dir B)" msg sig pair.0 next)
        w1

  unfoldable pub sig_round : Sig W → Sig W → Round W
  unfolding fill_random tamper_loop sig_direction_b
  sig_round s p w =
      let (r, w1) = rand w in
      let mlen = 1 + r % 200 in
      let (msg, w2) = fill_random mlen w1 in
      or_continue s.keypair
        (λ pair. or_continue (s.sign msg pair.1) λ sig.
          tamper_loop s p p.name "liboqs vs PQClean verdict disagree (dir A)" msg sig pair.0
            (sig_direction_b s p mlen))
        w2

  -- The loop of `sig_interop`.
  unfoldable pub sig_interop : ℕ → Sig W → Sig W → Round W
  unfolding sig_round
  sig_interop zero s p w = next w
  sig_interop (suc iters) s p w = after (sig_round s p w) (sig_interop iters s p)

-- What `atol` gave for an argument, or the default; a number below zero makes no iteration, as 0.
abbrev pub argument : Option ℕ → ℕ → ℕ
argument none n = n
argument (some a) n = a

-- `main`, with the two arguments that it looks at.
unfoldable pub pqc_diff_main :
    {W : Type 0}
    → PqcLibs W
    → (ℕ → World W → World W)
    → Call W ℕ
    → Option ℕ
    → Option ℕ
    → World W
    → Run (ℕ × World W)
unfolding schemes_main kem_interop sig_interop
pqc_diff_main libs srand rand iters seed w =
    let n = argument iters 2000 in
    schemes_main libs (kem_interop n) (sig_interop rand n)
      (libs.init (srand (argument seed 42 % 2 ^ 32) w))
