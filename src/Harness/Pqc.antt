-- ===== src/Harness/Pqc.antt =====
-- What harness/pqc_diff_harness.c and harness/pqc_kat_harness.c share: an iteration that can be cut
-- short, the tables of PQClean's schemes, and the loops of `main` over them.
pub mod Silent
use Prim.Native.String.{String}
use cmfuzz.Base.{ℕ, ◌+◌, ◌==◌, if◌then◌else◌, List, [], ◌∷◌, Option, none, some, Bool, true, false}
use cmfuzz.Engine.Oracle.{Run, next, finish, violated, ◌>>=◌}
use cmfuzz.Harness.World.{World, Call}
use cmfuzz.Harness.Kem.{Kem}
use cmfuzz.Harness.Sig.{Sig}

-- A part of one iteration: it ends in the world that the next iteration starts from.
abbrev pub Round : Type 0 → Type 0
Round W = World W → Run (World W)

abbrev pub skip_unless : {W A : Type 0} → Option A × World W → (A → Round W) → Run (World W)
skip_unless (none, w) f = next w
skip_unless (some a, w) f = f a w

-- `if (call != SUCCESS) continue;`
abbrev pub or_continue : {W A : Type 0} → Call W (Option A) → (A → Round W) → Round W
or_continue f g w = skip_unless (f w) g

-- `if (bad) CMF_VIOLATION(...)`, and what follows.
abbrev pub stop_if : {W : Type 0} → Bool → String → String → String → Round W → Round W
stop_if true alg oracle msg f w = violated (record { alg = alg; oracle = oracle; msg = msg })
stop_if false alg oracle msg f w = f w

abbrev pub after : {W : Type 0} → Run (World W) → Round W → Run (World W)
after (next w) f = f w
after finish f = finish
after (violated r) f = violated r

-- The functions of PQClean, and liboqs: OQS_init, OQS_KEM_new and OQS_SIG_new. A `Kem` and a `Sig`
-- stand for either library.
pub record PqcLibs (W : Type 0) : Type 0 where
  pub init : World W → World W
  pub oqs_kem : String → Option (Kem W)
  pub oqs_sig : String → Option (Sig W)
  pub mlkem_512 : Kem W
  pub mlkem_768 : Kem W
  pub mlkem_1024 : Kem W
  pub mldsa_44 : Sig W
  pub mldsa_65 : Sig W
  pub mldsa_87 : Sig W

module _ {W : Type 0} where
  abbrev named_kem : String → Kem W → Kem W
  named_kem name k = record k { name = name }

  abbrev named_sig : String → Sig W → Sig W
  named_sig name s = record s { name = name }

  -- `KEMS` and `SIGS`.
  abbrev pub kems : PqcLibs W → List (Kem W)
  kems libs =
      named_kem "ML-KEM-512" libs.mlkem_512
      ∷ named_kem "ML-KEM-768" libs.mlkem_768
      ∷ named_kem "ML-KEM-1024" libs.mlkem_1024
      ∷ []

  abbrev pub sigs : PqcLibs W → List (Sig W)
  sigs libs =
      named_sig "ML-DSA-44" libs.mldsa_44
      ∷ named_sig "ML-DSA-65" libs.mldsa_65
      ∷ named_sig "ML-DSA-87" libs.mldsa_87
      ∷ []

  -- `if (!k) continue;`, or the test and `ran++`.
  abbrev pub run_scheme : {S : Type 0} → Option S → (S → Round W) → ℕ → World W → Run (ℕ × World W)
  run_scheme none test ran w = next (ran, w)
  run_scheme (some s) test ran w = test s w >>= λ v. next (ran + 1, v)

  -- The loop over the table of KEMs, and the one over the table of signature schemes.
  unfoldable pub scheme_loop :
      {S : Type 0}
      → (S → String)
      → (String → Option S)
      → (S → S → Round W)
      → List S
      → ℕ
      → World W
      → Run (ℕ × World W)
  scheme_loop name new test [] ran w = next (ran, w)
  scheme_loop name new test (p ∷ table) ran w =
      run_scheme (new (name p)) (λ s. test s p) ran w >>= λ (n, v).
      scheme_loop name new test table n v

  -- Both loops of `main`, and its status.
  unfoldable pub schemes_main :
      PqcLibs W
      → (Kem W → Kem W → Round W)
      → (Sig W → Sig W → Round W)
      → World W
      → Run (ℕ × World W)
  unfolding scheme_loop
  schemes_main libs kem_test sig_test w =
      scheme_loop (λ p. p.name) libs.oqs_kem kem_test (kems libs) 0 w >>= λ (ran, v).
      scheme_loop (λ p. p.name) libs.oqs_sig sig_test (sigs libs) ran v >>= λ (total, u).
      next ((if total == 0 then 1 else 0), u)
