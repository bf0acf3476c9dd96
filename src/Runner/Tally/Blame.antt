-- ===== src/Runner/Tally/Blame.antt =====
-- The counters account for every event: no report is lost and none is counted twice.
use cmfuzz.Base.{
  ℕ, zero, suc, ◌+◌, ◌-◌, ◌≤◌, ◌<◌, ◌≡◌, refl, sym, subst, arith, List, [], ◌∷◌, Bool, Option, none,
  some, get_or, set, length, length-replicate, length-set, replicate, All, All-append, Bool-cases,
  inl, inr,
}
use cmfuzz.Runner.Vote.{
  Voter, Backend, Event, verify_mismatch, pair_mismatch, minority, no_consensus, is_verify_op,
  reference_voter, backend_voters, other_voters, judge, accepts, verify_events, minority_events,
  decide_vote, vote_events, compute_events, best_loop, max_voters,
}
use cmfuzz.Runner.Tally.{
  Tally, blame, fail, count_event, count_events, Vector, events_from, fresh_tally, tally_run,
}
use cmfuzz.Runner.Tally.Exit.{failures-count_events}

pub sum : List ℕ → ℕ
sum [] = 0
sum (x ∷ xs) = x + sum xs

-- The reports that blame nobody.
pub unresolved : List Event → ℕ
unresolved [] = 0
unresolved (no_consensus ∷ es) = 1 + unresolved es
unresolved (e ∷ es) = unresolved es

sum-set : (xs : List ℕ) (b : ℕ) → b < length xs → sum (set xs b (get_or xs b 0 + 1)) ≡ sum xs + 1
unfolding sum
sum-set [] b h = absurd (omega arith)
sum-set (x ∷ xs) zero h = omega arith
sum-set (x ∷ xs) (suc b) h = omega (arith, sum-set xs b (omega arith))

-- The backend that an event blames is one of the `n`.
abbrev pub InRange : ℕ → Option ℕ → Type 0
InRange n none = Unit {0}
InRange n (some b) = b < n

abbrev BlamesInRange : ℕ → Event → Type 0
BlamesInRange n (verify_mismatch v) = InRange n v.backend
BlamesInRange n (pair_mismatch v) = InRange n v.backend
BlamesInRange n (minority v) = InRange n v.backend
BlamesInRange n no_consensus = Unit {0}

abbrev blamed : Tally → ℕ
blamed t = sum t.bdiv + t.ref_outlier

blamed-blame :
    (o : Option ℕ) (t : Tally)
    → InRange (length t.bdiv) o
    → (blamed (blame o t) ≡ blamed t + 1) × (length (blame o t).bdiv ≡ length t.bdiv)
unfolding blame
blamed-blame none t h = (omega arith, refl)
blamed-blame (some b) t h =
    (omega (arith, sum-set t.bdiv b h), length-set t.bdiv b (get_or t.bdiv b 0 + 1))

count_event-blamed :
    (t : Tally) (e : Event)
    → BlamesInRange (length t.bdiv) e
    → (blamed (count_event t e) + unresolved (e ∷ []) ≡ blamed t + 1)
      × (length (count_event t e).bdiv ≡ length t.bdiv)
unfolding count_event fail unresolved
count_event-blamed t (verify_mismatch v) h = omega (arith, blamed-blame v.backend t h)
count_event-blamed t (pair_mismatch v) h = omega (arith, blamed-blame v.backend t h)
count_event-blamed t (minority v) h = omega (arith, blamed-blame v.backend t h)
count_event-blamed t no_consensus h = omega arith

unresolved-cons :
    (e : Event) (es : List Event) → unresolved (e ∷ es) ≡ unresolved (e ∷ []) + unresolved es
unfolding unresolved
unresolved-cons (verify_mismatch v) es = omega arith
unresolved-cons (pair_mismatch v) es = omega arith
unresolved-cons (minority v) es = omega arith
unresolved-cons no_consensus es = omega arith

count_events-blamed :
    (t : Tally) (es : List Event)
    → All (BlamesInRange (length t.bdiv)) es
    → blamed (count_events t es) + unresolved es ≡ blamed t + length es
unfolding count_events
count_events-blamed t [] h = unfold unresolved in omega arith
count_events-blamed t (e ∷ es) h =
    let (one, size) = count_event-blamed t e h.0 in
    let in_range = subst (λ (n : ℕ). All (BlamesInRange n) es) (sym size) h.1 in
    omega (arith, one, unresolved-cons e es, count_events-blamed (count_event t e) es in_range)

abbrev VoterInRange : ℕ → Voter → Type 0
VoterInRange n v = InRange n v.backend

backend_voters-InRange :
    (n room b i : ℕ) (xs : List Backend)
    → b + length xs ≤ n
    → All (VoterInRange n) (backend_voters room b i xs)
unfolding backend_voters
backend_voters-InRange n zero b i [] h = tt
backend_voters-InRange n (suc room) b i [] h = tt
backend_voters-InRange n zero b i (x ∷ xs) h = tt
backend_voters-InRange n (suc room) b i (x ∷ xs) h = ground (
  arith,
  backend_voters-InRange n (suc room) (b + 1) i xs (omega arith),
  backend_voters-InRange n room (b + 1) i xs (omega arith),
)

verify_events-InRange :
    (n : ℕ) (a : Bool) (vs : List Voter)
    → All (VoterInRange n) vs
    → All (BlamesInRange n) (verify_events a vs)
unfolding verify_events
verify_events-InRange n a [] h = tt
verify_events-InRange n a (v ∷ vs) h = ground (arith, verify_events-InRange n a vs h.1)

minority_events-InRange :
    (n : ℕ) (m : List ℕ) (vs : List Voter)
    → All (VoterInRange n) vs
    → All (BlamesInRange n) (minority_events m vs)
unfolding minority_events
minority_events-InRange n m [] h = tt
minority_events-InRange n m (v ∷ vs) h = ground (arith, minority_events-InRange n m vs h.1)

decide_vote-InRange :
    (n c : ℕ) (m : List ℕ) (vs : List Voter)
    → All (VoterInRange n) vs
    → All (BlamesInRange n) (decide_vote (c, m) vs)
unfolding decide_vote
decide_vote-InRange n c m vs h = ground (arith, minority_events-InRange n m vs h)

compute_events-InRange :
    (n : ℕ) (ref : Voter) (vs : List Voter)
    → VoterInRange n ref
    → All (VoterInRange n) vs
    → All (BlamesInRange n) (compute_events ref vs)
unfolding compute_events vote_events
compute_events-InRange n ref [] r h = tt
compute_events-InRange n ref (v ∷ []) r h = ground arith
compute_events-InRange n ref (v ∷ w ∷ vs) r h =
    let all = ref ∷ v ∷ w ∷ vs in
    let best = best_loop all 0 ref.value all in decide_vote-InRange n best.0 best.1 all (r, h)

judge-InRange :
    (n op : ℕ) (ref : Voter) (vs : List Voter)
    → VoterInRange n ref
    → All (VoterInRange n) vs
    → All (BlamesInRange n) (judge op ref vs)
unfolding judge
judge-InRange n op ref vs r h = elim (Bool-cases (is_verify_op op)) [
  | inl c ↦ rw c (verify_events-InRange n (accepts ref) vs h)
  | inr c ↦ rw c (compute_events-InRange n ref vs r h)
]

events_from-InRange :
    (i : ℕ) (bs : List Backend) (vs : List Vector)
    → All (BlamesInRange (length bs)) (events_from i bs vs)
unfolding events_from other_voters reference_voter
events_from-InRange i bs [] = tt
events_from-InRange i bs (v ∷ vs) =
    All-append (BlamesInRange (length bs))
      (judge v.op (reference_voter v.ref_hex) (other_voters i bs)) _
      (judge-InRange (length bs) v.op _ _ tt
        (backend_voters-InRange (length bs) (max_voters - 1) 0 i bs (omega arith)))
      (events_from-InRange (i + 1) bs vs)

sum-replicate : (n : ℕ) → sum (replicate n 0) ≡ 0
unfolding sum
sum-replicate zero = refl
sum-replicate (suc n) = omega (arith, sum-replicate n)

-- After any run `failures` is the number of reports, and each of them is accounted for once: in
-- the divergences of one backend, in the count of vectors on which the reference was outvoted, or
-- as a vector with no majority, which blames nobody.
pub tally_run-accounts :
    (bs : List Backend) (vs : List Vector)
    → let t = tally_run bs vs in
      (t.failures ≡ length (events_from 0 bs vs))
      × (t.failures ≡ sum t.bdiv + t.ref_outlier + unresolved (events_from 0 bs vs))
unfolding tally_run
tally_run-accounts bs vs =
    let es = events_from 0 bs vs in
    let t = fresh_tally bs in
    let size : length t.bdiv ≡ length bs = length-replicate (length bs) 0 in
    let in_range =
      subst (λ (n : ℕ). All (BlamesInRange n) es) (sym size) (events_from-InRange 0 bs vs) in
    let f = failures-count_events t es in
    let b = count_events-blamed t es in_range in
    (omega (arith, f), omega (arith, f, b, sum-replicate (length bs)))
