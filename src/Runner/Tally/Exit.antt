-- ===== src/Runner/Tally/Exit.antt =====
-- The exit status is that of the whole run.
use cmfuzz.Base.{
  ℕ, ◌+◌, ◌≡◌, ◌↔◌, refl, ap, arith, List, [], ◌∷◌, ◌++◌, true, false, length, All, Bool-cases, inl,
  inr,
}
use cmfuzz.Runner.Vote.{
  Backend, Event, verify_mismatch, pair_mismatch, minority, no_consensus, is_verify_op,
  reference_voter, other_voters, judge,
}
use cmfuzz.Runner.Vote.Best.{AllGave}
use cmfuzz.Runner.Vote.Verdict.{Accepts, judge-silent_iff, judge-silent_verify_iff}
use cmfuzz.Runner.Tally.{
  Tally, blame, fail, count_event, count_events, Vector, events_from, fresh_tally, tally_run,
  exit_status,
}

-- What a vector has to show for the run to stay silent on it.
abbrev pub Agree : ℕ → List Backend → Vector → Type 0
Agree i backends v =
    (is_verify_op v.op ≡ false → AllGave v.ref_hex (other_voters i backends))
    × (is_verify_op v.op ≡ true
        → All (λ w. Accepts w ↔ Accepts (reference_voter v.ref_hex)) (other_voters i backends))

abbrev pub AllAgree : ℕ → List Backend → List Vector → Type 0
AllAgree i backends [] = Unit {0}
AllAgree i backends (v ∷ vs) = Agree i backends v × AllAgree (i + 1) backends vs

append-nil_parts : (xs ys : List Event) → xs ++ ys ≡ [] → (xs ≡ []) × (ys ≡ [])
append-nil_parts [] ys e = (refl, e)
append-nil_parts (x ∷ xs) ys e = cc

judge-Agree :
    (i : ℕ) (bs : List Backend) (v : Vector)
    → (judge v.op (reference_voter v.ref_hex) (other_voters i bs) ≡ []) ↔ Agree i bs v
unfolding reference_voter
judge-Agree i bs v =
    let ref = reference_voter v.ref_hex in
    let others = other_voters i bs in
    (
      λ e. (
        λ c. (judge-silent_iff v.op ref others c).0 e,
        λ c. (judge-silent_verify_iff v.op ref others c).0 e,
      ),
      λ h. elim (Bool-cases (is_verify_op v.op)) [
        | inl c ↦ (judge-silent_verify_iff v.op ref others c).1 (h.1 c)
        | inr c ↦ (judge-silent_iff v.op ref others c).1 (h.0 c)
      ],
    )

events_from-AllAgree :
    (i : ℕ) (bs : List Backend) (vs : List Vector) → (events_from i bs vs ≡ []) ↔ AllAgree i bs vs
unfolding events_from
events_from-AllAgree i bs [] = (λ _. tt, λ _. refl)
events_from-AllAgree i bs (v ∷ vs) =
    let here = judge-Agree i bs v in
    let later = events_from-AllAgree (i + 1) bs vs in
    (
      λ e.
          let (a, b) =
            append-nil_parts (judge v.op (reference_voter v.ref_hex) (other_voters i bs)) _ e in
          (here.0 a, later.0 b),
      λ h. rw (here.1 h.0) (later.1 h.1),
    )

failures-count_event : (t : Tally) (e : Event) → (count_event t e).failures ≡ t.failures + 1
unfolding count_event blame fail
failures-count_event t (verify_mismatch v) = ground arith
failures-count_event t (pair_mismatch v) = ground arith
failures-count_event t (minority v) = ground arith
failures-count_event t no_consensus = refl

pub failures-count_events :
    (t : Tally) (es : List Event) → (count_events t es).failures ≡ t.failures + length es
unfolding count_events
failures-count_events t [] = omega arith
failures-count_events t (e ∷ es) =
    omega (arith, failures-count_event t e, failures-count_events (count_event t e) es)

length-zero : (es : List Event) → length es ≡ 0 → es ≡ []
length-zero [] h = refl
length-zero (e ∷ es) h = absurd (omega arith)

-- The runner exits with 0 exactly if on every vector all that voted agree: byte for byte with the
-- reference on a compute op, and on whether to accept on a verify op.
pub exit_status_iff :
    (bs : List Backend) (vs : List Vector) → (exit_status bs vs ≡ 0) ↔ AllAgree 0 bs vs
unfolding exit_status tally_run
exit_status_iff bs vs =
    let n = failures-count_events (fresh_tally bs) (events_from 0 bs vs) in
    let agree = events_from-AllAgree 0 bs vs in
    (
      λ e. agree.0 (length-zero _ (ground (arith, n))),
      λ h. ground (arith, n, ap length (agree.1 h)),
    )
