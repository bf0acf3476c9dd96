-- ===== src/Harness/Pqc/Silent.antt =====
-- Iterations and loops over the schemes that end without a violation.
use cmfuzz.Base.{
  ℕ, ◌+◌, ◌==◌, ◌≡◌, refl, ap, subst, arith, List, [], ◌∷◌, All, Option, none, some, not, bytes_eq,
  eq→bytes_eq, bytes_eq→eq, bytes_eq_false→ne, Bool-cases, inl, inr, ◌↔◌, ◌⊎◌, if◌then◌else◌,
}
use Prim.Native.String.{String}
use cmfuzz.Engine.Oracle.{Run, next, finish, violated, ◌>>=◌, IsViolation}
use cmfuzz.Harness.World.{World, Call, IsSilent}
use cmfuzz.Harness.Kem.{Kem}
use cmfuzz.Harness.Sig.{Sig}
use cmfuzz.Harness.Pqc.{
  Round, skip_unless, or_continue, stop_if, after, PqcLibs, kems, sigs, run_scheme, scheme_loop,
  schemes_main,
}

-- The run comes to an end with a value of which `P` holds.
abbrev pub Ends : {A : Type 0} → (A → Type 0) → Run A → Type 0
Ends P (next a) = P a
Ends P finish = ⊥
Ends P (violated r) = ⊥

abbrev pub IsDone : {A : Type 0} → Run A → Type 0
IsDone = Ends (λ _. Unit {0})

pub IsDone-IsSilent : {A : Type 0} (r : Run A) → IsDone r → IsSilent r
IsDone-IsSilent (next a) h = tt
IsDone-IsSilent finish h = tt
IsDone-IsSilent (violated r) h = elim h [ ]

pub not_both : {A : Type 0} (r : Run A) → IsDone r → IsViolation r → ⊥
not_both (next a) d v = v
not_both finish d v = d
not_both (violated x) d v = d

-- Whether a run comes to its end or aborts is decided by a condition.
abbrev pub Decides : {A : Type 0} → Run A → Type 0 → Type 0
Decides r P = (IsDone r × P) ⊎ (IsViolation r × ¬ P)

pub Decides_iff :
    {A : Type 0} (r : Run A) (P : Type 0) → Decides r P → (IsDone r ↔ P) × (IsViolation r ↔ ¬ P)
Decides_iff r P (inl (done, holds)) =
    ((λ _. holds, λ _. done), (λ v. absurd (not_both r done v), λ n. absurd (n holds)))
Decides_iff r P (inr (aborted, fails)) =
    ((λ d. absurd (not_both r d aborted), λ p. absurd (fails p)), (λ _. fails, λ _. aborted))

pub Ends-bind :
    {A B : Type 0} (P : A → Type 0) (Q : B → Type 0) (r : Run A) (f : A → Run B)
    → Ends P r
    → ((a : A) → P a → Ends Q (f a))
    → Ends Q (r >>= f)
Ends-bind P Q (next a) f h all = all a h
Ends-bind P Q finish f h all = elim h [ ]
Ends-bind P Q (violated r) f h all = elim h [ ]

-- The schemes of a table that liboqs has enabled.
abbrev count_if : {S : Type 0} → Option S → ℕ
count_if none = 0
count_if (some s) = 1

unfoldable pub enabled : {S : Type 0} → (S → String) → (String → Option S) → List S → ℕ
enabled name new [] = 0
enabled name new (p ∷ table) = count_if (new (name p)) + enabled name new table

pub All_map :
    {A : Type 0} (P Q : A → Type 0) (xs : List A) → ((x : A) → P x → Q x) → All P xs → All Q xs
All_map P Q [] f h = tt
All_map P Q (x ∷ xs) f h = (f x h.0, All_map P Q xs f h.1)

module _ {W : Type 0} where
  pub or_continue-IsDone :
      {A : Type 0} (f : Call W (Option A)) (g : A → Round W) (w : World W)
      → ((a : A) (v : World W) → f w ≡ (some a, v) → IsDone (g a v))
      → IsDone (or_continue f g w)
  or_continue-IsDone {A} f g w h = go (f w) refl
    where
      go : (r : Option A × World W) → f w ≡ r → IsDone (skip_unless r g)
      go (none, v) e = tt
      go (some a, v) e = h a v e

  pub or_continue_step :
      {A : Type 0} (f : Call W (Option A)) (g : A → Round W) (w v : World W) (a : A)
      → f w ≡ (some a, v)
      → or_continue f g w ≡ g a v
  or_continue_step {A} f g w v a e = ap (λ (r : Option A × World W). skip_unless r g) e

  pub stop_if-IsDone :
      (a b : List ℕ) (alg oracle msg : String) (f : Round W) (w : World W)
      → a ≡ b
      → IsDone (f w)
      → IsDone (stop_if (not (bytes_eq a b)) alg oracle msg f w)
  stop_if-IsDone a b alg oracle msg f w e h = rw (eq→bytes_eq a b e, IsDone) h

  -- Equal bytes go on, and others abort.
  pub stop_if-Decides :
      (a b : List ℕ) (alg oracle msg : String) (f : Round W) (w : World W) (P : Type 0)
      → Decides (f w) P
      → Decides (stop_if (not (bytes_eq a b)) alg oracle msg f w) ((a ≡ b) × P)
  stop_if-Decides a b alg oracle msg f w P d = elim (Bool-cases (bytes_eq a b)) [
    | inl same ↦
        rw (same, Decides)
          (elim d [
            | inl (done, holds) ↦ inl (done, (bytes_eq→eq a b same, holds))
            | inr (aborted, fails) ↦ inr (aborted, λ h. fails h.1)
          ])
    | inr other ↦ rw (other, Decides) (inr (tt, λ h. bytes_eq_false→ne a b other h.0))
  ]

  pub after-IsDone :
      (r : Run (World W)) (f : Round W)
      → IsDone r
      → ((w : World W) → IsDone (f w))
      → IsDone (after r f)
  after-IsDone (next w) f h all = all w
  after-IsDone finish f h all = elim h [ ]
  after-IsDone (violated x) f h all = elim h [ ]

  -- The exit status when no difference is found: 1 if liboqs has none of the schemes.
  abbrev pub quiet_status : PqcLibs W → ℕ
  quiet_status libs =
      if enabled (λ p. p.name) libs.oqs_kem (kems libs)
          + enabled (λ p. p.name) libs.oqs_sig (sigs libs)
        == 0
      then 1
      else 0

  run_scheme-Ends :
      {S : Type 0} (o : Option S) (test : S → Round W) (ran : ℕ) (w : World W)
      → ((s : S) → o ≡ some s → IsDone (test s w))
      → Ends (λ (r : ℕ × World W). r.0 ≡ ran + count_if o) (run_scheme o test ran w)
  run_scheme-Ends none test ran w h = omega arith
  run_scheme-Ends (some s) test ran w h =
      Ends-bind (λ _. Unit {0}) (λ (r : ℕ × World W). r.0 ≡ ran + 1) (test s w) _ (h s refl)
        (λ v _. refl)

  -- A scheme passes the test, from any state, if it is enabled.
  abbrev pub Passes :
      {S : Type 0} → (S → String) → (String → Option S) → (S → S → Round W) → S → Type 0
  Passes {S} name new test p = (s : S) → new (name p) ≡ some s → (w : World W) → IsDone (test s p w)

  scheme_loop-Ends :
      {S : Type 0} (name : S → String) (new : String → Option S) (test : S → S → Round W)
      (table : List S) (ran : ℕ) (w : World W)
      → All (Passes name new test) table
      → Ends
          (λ (r : ℕ × World W). r.0 ≡ ran + enabled name new table)
          (scheme_loop name new test table ran w)
  unfolding scheme_loop enabled
  scheme_loop-Ends name new test [] ran w h = omega arith
  scheme_loop-Ends name new test (p ∷ table) ran w h =
      Ends-bind (λ (r : ℕ × World W). r.0 ≡ ran + count_if (new (name p))) _
        (run_scheme (new (name p)) (λ s. test s p) ran w) _
        (run_scheme-Ends (new (name p)) (λ s. test s p) ran w (λ s e. h.0 s e w))
        (λ r e.
          let same : r.0 + enabled name new table ≡ ran + enabled name new (p ∷ table) =
            omega (arith, e) in
          subst
            (λ (n : ℕ).
              Ends (λ (x : ℕ × World W). x.0 ≡ n) (scheme_loop name new test table r.0 r.1))
            same (scheme_loop-Ends name new test table r.0 r.1 h.1))

  -- `main` when every enabled scheme passes.
  pub schemes_main-Ends :
      (libs : PqcLibs W) (kem_test : Kem W → Kem W → Round W) (sig_test : Sig W → Sig W → Round W)
      (w : World W)
      → All (Passes (λ p. p.name) libs.oqs_kem kem_test) (kems libs)
      → All (Passes (λ p. p.name) libs.oqs_sig sig_test) (sigs libs)
      → Ends (λ (r : ℕ × World W). r.0 ≡ quiet_status libs) (schemes_main libs kem_test sig_test w)
  unfolding schemes_main
  schemes_main-Ends libs kem_test sig_test w hk hs =
      let nk = enabled (λ p. p.name) libs.oqs_kem (kems libs) in
      let ns = enabled (λ p. p.name) libs.oqs_sig (sigs libs) in
      Ends-bind (λ (r : ℕ × World W). r.0 ≡ 0 + nk) _ _ _
        (scheme_loop-Ends (λ p. p.name) libs.oqs_kem kem_test (kems libs) 0 w hk)
        (λ r e.
          Ends-bind (λ (t : ℕ × World W). t.0 ≡ r.0 + ns) _ _ _
            (scheme_loop-Ends (λ p. p.name) libs.oqs_sig sig_test (sigs libs) r.0 r.1 hs)
            (λ t d.
              let total : t.0 ≡ nk + ns = omega (arith, e, d) in
              ap (λ (n : ℕ). if n == 0 then 1 else 0) total))
