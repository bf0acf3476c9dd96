-- ===== src/Runner/Vote/Verdict.antt =====
-- What the events of one vector say.
use cmfuzz.Base.{
  ℕ, ◌*◌, ◌≤◌, ◌<◌, ◌≡◌, ◌↔◌, refl, sym, ap, ◌∙◌, arith, List, [], ◌∷◌, Bool, true, false, leb,
  ◌==◌, if◌then◌else◌, bytes_eq, bytes_eq→eq, eq→bytes_eq, bytes_eq_false→ne, length, ==_iff, All,
  Bool-cases, inl, inr, map,
}
use native.Mathlib.Decide.{dec_lt}
use cmfuzz.Runner.Vote.{
  accept_reply, Voter, minority, no_consensus, is_verify_op, accepts, verify_events, count_value,
  minority_events, decide_vote, vote_events, compute_events, judge, bool_eq,
}
use cmfuzz.Runner.Vote.Best.{
  AllGave, count_value-length_iff, electorate, winner, winner-counted, winner-most, majority-wins,
}

-- The voters whose value is not `m`, in order.
pub dissenters : List ℕ → List Voter → List Voter
dissenters m [] = []
dissenters m (v ∷ vs) =
    let later = dissenters m vs in if bytes_eq v.value m then later else v ∷ later

minority_events-dissenters :
    (m : List ℕ) (vs : List Voter) → minority_events m vs ≡ map minority (dissenters m vs)
unfolding minority_events dissenters
minority_events-dissenters m [] = refl
minority_events-dissenters m (v ∷ vs) = ground (arith, minority_events-dissenters m vs)

-- A strict majority for `m`.
abbrev pub HasMajority : List ℕ → List Voter → Type 0
HasMajority m vs = length vs < count_value m vs * 2

dissenters_none : (m : List ℕ) (vs : List Voter) → AllGave m vs → dissenters m vs ≡ []
unfolding dissenters
dissenters_none m [] h = refl
dissenters_none m (v ∷ vs) h = ground (arith, eq→bytes_eq v.value m h.0, dissenters_none m vs h.1)

none-dissenters : (m : List ℕ) (vs : List Voter) → dissenters m vs ≡ [] → AllGave m vs
unfolding dissenters
none-dissenters m [] e = tt
none-dissenters m (v ∷ vs) e = elim (Bool-cases (bytes_eq v.value m)) [
  | inl same ↦ (bytes_eq→eq v.value m same, none-dissenters m vs (rw same at e))
  | inr other ↦ cc (sym (rw other at e))
]

map-nil : (vs : List Voter) → map minority vs ≡ [] → vs ≡ []
map-nil [] e = refl
map-nil (v ∷ vs) e = cc

decide_majority :
    (n : ℕ) (m : List ℕ) (all : List Voter)
    → n ≡ count_value m all
    → length all < n * 2
    → decide_vote (n, m) all ≡ map minority (dissenters m all)
unfolding decide_vote
decide_majority n m all e h = elim (Bool-cases (n == length all)) [
  | inl same ↦
      let unanimous = (count_value-length_iff m all).0 (sym e ∙ (==_iff n (length all)).0 same) in
      rw same (sym (ap (map minority) (dissenters_none m all unanimous)))
  | inr other ↦
      let more : leb (n * 2) (length all) ≡ false = ground arith in
      rw (other, more) (minority_events-dissenters m all)
]

decide_split :
    (n : ℕ) (m : List ℕ) (v : Voter) (vs : List Voter)
    → n * 2 ≤ length (v ∷ vs)
    → decide_vote (n, m) (v ∷ vs) ≡ no_consensus ∷ []
unfolding decide_vote
decide_split n m v vs h = ground arith

module _ (ref : Voter) (others : List Voter) where
  -- Where more than half of the voters gave `m`, the vote blames exactly the voters who gave
  -- another value, in order, whether the reference is among them or not.
  pub vote_events_majority :
      (m : List ℕ)
      → HasMajority m (electorate ref others)
      → vote_events ref others ≡ map minority (dissenters m (electorate ref others))
  unfolding vote_events
  vote_events_majority m h =
      let wins : (winner ref others).1 ≡ m = majority-wins ref others m h in
      let counted = winner-counted ref others in
      let most = winner-most ref others m in
      decide_majority (winner ref others).0 (winner ref others).1 (electorate ref others) counted
        (omega arith)
      ∙ ap (λ (x : List ℕ). map minority (dissenters x (electorate ref others))) wins

  -- Where no value has more than half of the votes, the vote reports one unresolved divergence
  -- and blames nobody.
  pub vote_events_split :
      ((m : List ℕ) → ¬ HasMajority m (electorate ref others))
      → vote_events ref others ≡ no_consensus ∷ []
  unfolding vote_events
  vote_events_split h =
      let none_wins : ¬ HasMajority (winner ref others).1 (electorate ref others) =
        h (winner ref others).1 in
      decide_split (winner ref others).0 (winner ref others).1 ref others
        (omega (arith, winner-counted ref others))

  vote_events_silent : vote_events ref others ≡ [] → AllGave ref.value others
  unfolding vote_events
  vote_events_silent e =
      let n : ℕ = (winner ref others).0 in
      let m = (winner ref others).1 in
      elim (dec_lt (length (electorate ref others)) (n * 2)) [
        | yes more ↦
            let majority =
              decide_majority n m (electorate ref others) (winner-counted ref others) more in
            let all_gave =
              none-dissenters m (electorate ref others) (map-nil _ (sym majority ∙ e)) in
            rw all_gave.0 all_gave.1
        | no less ↦ cc (decide_split n m ref others (omega arith), e)
      ]

  vote_events_unanimous : AllGave ref.value others → vote_events ref others ≡ []
  vote_events_unanimous h =
      let all_gave : AllGave ref.value (electorate ref others) = (refl, h) in
      let counted = (count_value-length_iff ref.value (electorate ref others)).1 all_gave in
      vote_events_majority ref.value (omega (arith, counted))
      ∙ ap (map minority) (dissenters_none ref.value (electorate ref others) all_gave)

compute_events-silent_iff :
    (ref : Voter) (others : List Voter)
    → (compute_events ref others ≡ []) ↔ AllGave ref.value others
unfolding compute_events
compute_events-silent_iff ref [] = (λ _. tt, λ _. refl)
compute_events-silent_iff ref (v ∷ []) = elim (Bool-cases (bytes_eq v.value ref.value)) [
  | inl same ↦ rw same (λ _. (bytes_eq→eq v.value ref.value same, tt), λ _. refl)
  | inr other ↦ rw other (λ e. cc, λ h. absurd (bytes_eq_false→ne v.value ref.value other h.0))
]
compute_events-silent_iff ref (v ∷ w ∷ vs) =
    (vote_events_silent ref (v ∷ w ∷ vs), vote_events_unanimous ref (v ∷ w ∷ vs))

-- On a compute op a vector is reported exactly if some voter's reply differs from the reference's:
-- no divergence is missed, whoever the outlier is, and agreement is never reported.
pub judge-silent_iff :
    (op : ℕ) (ref : Voter) (others : List Voter)
    → is_verify_op op ≡ false
    → (judge op ref others ≡ []) ↔ AllGave ref.value others
unfolding judge
judge-silent_iff op ref others h = rw h (compute_events-silent_iff ref others)

-- A reply that accepts: "01". Any other, "00" and "ERR" among them, does not.
abbrev pub Accepts : Voter → Type 0
Accepts v = v.value ≡ accept_reply

accepts_iff : (v : Voter) → (accepts v ≡ true) ↔ Accepts v
unfolding accepts
accepts_iff v = (bytes_eq→eq v.value accept_reply, eq→bytes_eq v.value accept_reply)

bool_eq_iff : (a b : Bool) → (bool_eq a b ≡ true) ↔ ((a ≡ true) ↔ (b ≡ true))
bool_eq_iff true true = (λ _. (λ e. refl, λ e. refl), λ _. refl)
bool_eq_iff true false = (λ e. cc, λ f. cc (f.0 refl))
bool_eq_iff false true = (λ e. cc, λ f. cc (f.1 refl))
bool_eq_iff false false = (λ _. (λ e. e, λ e. e), λ _. refl)

same_verdict_iff :
    (v ref : Voter) → (bool_eq (accepts v) (accepts ref) ≡ true) ↔ (Accepts v ↔ Accepts ref)
same_verdict_iff v ref =
    let (there, back) = bool_eq_iff (accepts v) (accepts ref) in
    let (v_to, v_of) = accepts_iff v in
    let (r_to, r_of) = accepts_iff ref in
    (
      λ e. (λ a. r_to ((there e).0 (v_of a)), λ a. v_to ((there e).1 (r_of a))),
      λ f. back (λ a. r_of (f.0 (v_to a)), λ a. v_of (f.1 (r_to a))),
    )

verify_events-silent_iff :
    (ref : Voter) (others : List Voter)
    → (verify_events (accepts ref) others ≡ []) ↔ All (λ v. Accepts v ↔ Accepts ref) others
unfolding verify_events
verify_events-silent_iff ref [] = (λ _. tt, λ _. refl)
verify_events-silent_iff ref (v ∷ vs) =
    let ih = verify_events-silent_iff ref vs in
    let same_iff = same_verdict_iff v ref in
    elim (Bool-cases (bool_eq (accepts v) (accepts ref))) [
      | inl same ↦ rw same (λ e. (same_iff.0 same, ih.0 e), λ h. ih.1 h.1)
      | inr other ↦ rw other (λ e. cc, λ h. cc (same_iff.1 h.0))
    ]

-- On a verify op a vector is reported exactly if some voter accepts where the reference does not,
-- or the other way round; how a reply that does not accept is spelled makes no difference.
pub judge-silent_verify_iff :
    (op : ℕ) (ref : Voter) (others : List Voter)
    → is_verify_op op ≡ true
    → (judge op ref others ≡ []) ↔ All (λ v. Accepts v ↔ Accepts ref) others
unfolding judge
judge-silent_verify_iff op ref others h = rw h (verify_events-silent_iff ref others)
