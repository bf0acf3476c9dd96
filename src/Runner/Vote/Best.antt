-- ===== src/Runner/Vote/Best.antt =====
-- The best value has the most voters, and a strict majority is unique.
use cmfuzz.Base.{
  ℕ, ◌+◌, ◌*◌, ◌≤◌, ◌<◌, ◌≡◌, ◌≢◌, ◌↔◌, refl, sym, arith, List, [], ◌∷◌, ltb, if◌then◌else◌,
  bytes_eq, bytes_eq_refl, bytes_eq→eq, bytes_eq_false→ne, length, All, Bool-cases, inl, inr, ◌⊎◌,
}
use cmfuzz.Runner.Vote.{Voter, count_value, best_loop}

count_value-le-length : (x : List ℕ) (vs : List Voter) → count_value x vs ≤ length vs
unfolding count_value
count_value-le-length x [] = omega arith
count_value-le-length x (v ∷ vs) = ground (arith, count_value-le-length x vs)

-- Every voter gave the value `x`.
abbrev pub AllGave : List ℕ → List Voter → Type 0
AllGave x = All (λ v. v.value ≡ x)

pub count_value-length_iff :
    (x : List ℕ) (vs : List Voter) → (count_value x vs ≡ length vs) ↔ AllGave x vs
unfolding count_value
count_value-length_iff x [] = (λ _. tt, λ _. refl)
count_value-length_iff x (v ∷ vs) =
    let ih = count_value-length_iff x vs in
    let bound = count_value-le-length x vs in
    elim (Bool-cases (bytes_eq x v.value)) [
      | inl same ↦ rw same (
        λ e. (sym (bytes_eq→eq x v.value same), ih.0 (omega arith)),
        λ h. omega (arith, ih.1 h.1),
      )
      | inr other ↦ rw other (
        λ e. absurd (omega (arith, bound)),
        λ h. absurd (bytes_eq_false→ne x v.value other (sym h.0)),
      )
    ]

-- Two different values have no more votes together than there are voters.
pub count_value_disjoint :
    (x y : List ℕ) (vs : List Voter) → x ≢ y → count_value x vs + count_value y vs ≤ length vs
unfolding count_value
count_value_disjoint x y [] h = omega arith
count_value_disjoint x y (v ∷ vs) h =
    ground (arith, count_value_disjoint x y vs h, bytes_eq→eq x v.value, bytes_eq→eq y v.value)

-- What the loop leaves, from the count `c` on: nothing seen has more votes than `best`.
abbrev IsBest : List Voter → List Voter → ℕ → ℕ × List ℕ → Type 0
IsBest all seen c r =
    ((r.0 ≡ 0) ⊎ (r.0 ≡ count_value r.1 all))
    × (c ≤ r.0)
    × All (λ v. count_value v.value all ≤ r.0) seen

best_loop-IsBest :
    (all : List Voter) (c : ℕ) (best : List ℕ) (vs : List Voter)
    → (c ≡ 0) ⊎ (c ≡ count_value best all)
    → IsBest all vs c (best_loop all c best vs)
unfolding best_loop
best_loop-IsBest all c best [] h = (h, omega arith, tt)
best_loop-IsBest all c best (v ∷ vs) h =
    let n : ℕ = count_value v.value all in
    let c' : ℕ = if ltb c n then n else c in
    let best' : List ℕ = if ltb c n then v.value else best in
    let kept : (c' ≡ 0) ⊎ (c' ≡ count_value best' all) = ground arith in
    let grows : (c ≤ c') × (n ≤ c') = ground arith in
    let ih = best_loop-IsBest all c' best' vs kept in (ih.0, omega arith, (omega arith, ih.2))

-- A value that somebody gave is among those compared.
given-le :
    (all : List Voter) (m : List ℕ) (n : ℕ) (vs : List Voter)
    → All (λ v. count_value v.value all ≤ n) vs
    → 0 < count_value m vs
    → count_value m all ≤ n
unfolding count_value
given-le all m n [] h p = absurd (omega arith)
given-le all m n (v ∷ vs) h p = elim (Bool-cases (bytes_eq m v.value)) [
  | inl same ↦ rw (bytes_eq→eq m v.value same) h.0
  | inr other ↦
      let later : 0 < 0 + count_value m vs = rw other at p in given-le all m n vs h.1 (omega arith)
]

module _ (ref : Voter) (others : List Voter) where
  abbrev pub electorate : List Voter
  electorate = ref ∷ others

  abbrev pub winner : ℕ × List ℕ
  winner = best_loop electorate 0 ref.value electorate

  winner-IsBest : IsBest electorate electorate 0 winner
  winner-IsBest = best_loop-IsBest electorate 0 ref.value electorate (inl refl)

  own_vote : 0 < count_value ref.value electorate
  unfolding count_value
  own_vote = ground (arith, bytes_eq_refl ref.value)

  -- The winner's count is the number of its votes, and no value has more.
  pub winner-counted : winner.0 ≡ count_value winner.1 electorate
  winner-counted = ground (arith, winner-IsBest, own_vote)

  pub winner-most : (m : List ℕ) → count_value m electorate ≤ winner.0
  winner-most m = ground (arith, given-le electorate m winner.0 electorate winner-IsBest.2)

  -- A value with a strict majority wins.
  pub majority-wins : (m : List ℕ) → length electorate < count_value m electorate * 2 → winner.1 ≡ m
  majority-wins m h = elim (Bool-cases (bytes_eq winner.1 m)) [
    | inl same ↦ bytes_eq→eq winner.1 m same
    | inr other ↦ absurd (
        omega (
          arith,
          winner-counted,
          winner-most m,
          count_value_disjoint winner.1 m electorate (bytes_eq_false→ne winner.1 m other),
        ))
  ]
