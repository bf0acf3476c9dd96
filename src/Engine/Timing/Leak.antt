-- ===== src/Engine/Timing/Leak.antt =====
-- The verdict looks at every percentile.
use cmfuzz.Base.{
  ap, leb, ltb, not, ◌&&◌, ◌==◌, ◌-◌, ◌^◌, get_or, if◌then◌else◌, ℕ, zero, suc, ◌+◌, ◌≤◌, ◌<◌, ◌↔◌,
  sym, subst, arith, map, ◌≡◌, refl, ◌∙◌, List, [], ◌∷◌, Bool, true, false, ◌||◌, Bool-cases, inl,
  inr,
}
use cmfuzz.Engine.Timing.{
  Tstat, fresh, t_push, welch_t, accumulate, cut_at, Doubles, Sample, max_loop, percentiles,
  statistic, statistics, leaked,
}

-- Some statistic exceeds the threshold.
any_above : (d : Doubles) → List (Doubles.Double d) → Bool
any_above d [] = false
any_above d (t ∷ ts) = d.less d.threshold t || any_above d ts

-- The measurements of a class that are not cropped.
kept : ℕ → Bool → List Sample → List ℕ
kept cut class [] = []
kept cut class (s ∷ ss) =
    let rest = kept cut class ss in
    if leb s.cycles cut && (if s.class then class else not class) then s.cycles ∷ rest else rest

-- The statistics of some measurements, pushed one after the other.
pushed : (d : Doubles) → Tstat d → List ℕ → Tstat d
pushed d t [] = t
pushed d t (x ∷ xs) = pushed d (t_push d t (d.of_u64 x)) xs

-- Welch's t between the two classes, cropped at a percentile.
pub cropped_t : (d : Doubles) → List ℕ → List Sample → ℕ → Doubles.Double d
cropped_t d sorted samples p =
    let cut = if p == 100 then 2 ^ 64 - 1 else get_or sorted (d.index p) 0 in
    d.fabs (
      welch_t d (pushed d (fresh d) (kept cut false samples))
        (pushed d (fresh d) (kept cut true samples)))

accumulate_lem :
    (d : Doubles) (cut : ℕ) (a b : Tstat d) (ss : List Sample)
    → accumulate d cut a b ss ≡ (pushed d a (kept cut false ss), pushed d b (kept cut true ss))
unfolding accumulate kept pushed
accumulate_lem d cut a b [] = refl
accumulate_lem d cut a b (s ∷ ss) = elim (Bool-cases (ltb cut s.cycles)) [
  | inl above ↦
      let out : leb s.cycles cut ≡ false = ground (arith, above) in
      rw (above, out) (accumulate_lem d cut a b ss)
  | inr below ↦
      let inside : leb s.cycles cut ≡ true = ground (arith, below) in
      elim (Bool-cases s.class) [
        | inl one ↦ rw (below, inside, one) (accumulate_lem d cut a _ ss)
        | inr zero_class ↦ rw (below, inside, zero_class) (accumulate_lem d cut _ b ss)
      ]
]

statistic_lem :
    (d : Doubles) (sorted : List ℕ) (samples : List Sample) (p : ℕ)
    → statistic d sorted samples p ≡ cropped_t d sorted samples p
unfolding statistic cropped_t cut_at
statistic_lem d sorted samples p =
    ap (λ (r : Tstat d × Tstat d). d.fabs (welch_t d r.0 r.1))
      (accumulate_lem d (cut_at d sorted p) (fresh d) (fresh d) samples)

-- What IEEE comparisons give: `IsNumber` excludes NaN, which compares as false.
pub record IsOrdered (d : Doubles) (IsNumber : Doubles.Double d → Type 0) : Type 0 where
  pub zero_number : IsNumber (d.of_u64 0)
  pub zero_low : d.less d.threshold (d.of_u64 0) ≡ false
  pub greater_number : (a b : Doubles.Double d) → d.less a b ≡ true → IsNumber b
  pub trans : (a b c : Doubles.Double d) → d.less a b ≡ true → d.less b c ≡ true → d.less a c ≡ true
  pub total :
      (a b c : Doubles.Double d)
      → IsNumber b
      → d.less b c ≡ false
      → d.less a c ≡ true
      → d.less a b ≡ true

module _ (d : Doubles) (IsNumber : Doubles.Double d → Type 0) (o : IsOrdered d IsNumber) where
  max_loop_above :
      (m : Doubles.Double d) (ts : List (Doubles.Double d))
      → IsNumber m
      → d.less d.threshold (max_loop d m ts) ≡ (d.less d.threshold m || any_above d ts)
  unfolding max_loop any_above
  max_loop_above m [] h = elim (Bool-cases (d.less d.threshold m)) [ inl e ↦ rw e | inr e ↦ rw e ]
  max_loop_above m (t ∷ ts) h = elim (Bool-cases (d.less m t)) [
    | inl up ↦ rw up (
        max_loop_above t ts (o.greater_number m t up)
        ∙ raised (d.less d.threshold m) (d.less d.threshold t) (any_above d ts)
            (λ e. o.trans d.threshold m t e up))
    | inr down ↦ rw down (
        max_loop_above m ts h
        ∙ kept (d.less d.threshold m) (d.less d.threshold t) (any_above d ts)
            (λ e. o.total d.threshold m t h down e))
  ]
    where
      raised : (a b c : Bool) → (a ≡ true → b ≡ true) → (b || c) ≡ (a || (b || c))
      raised true true c f = refl
      raised true false c f = absurd (cc (f refl))
      raised false b c f = refl

      kept : (a b c : Bool) → (b ≡ true → a ≡ true) → (a || c) ≡ (a || (b || c))
      kept true b c f = refl
      kept false true c f = cc (f refl)
      kept false false c f = refl

  -- Some percentile of those from `from` on.
  abbrev Above : (ℕ → Doubles.Double d) → ℕ → ℕ → Type 0
  Above f from to = (p : ℕ) × (from ≤ p) × (p < to) × (d.less d.threshold (f p) ≡ true)

  any_above-percentiles :
      (f : ℕ → Doubles.Double d) (n from : ℕ)
      → (any_above d (map f (percentiles d n from)) ≡ true) ↔ Above f from (from + n)
  unfolding any_above
  any_above-percentiles f zero from = (λ e. cc, λ h. absurd (omega (arith, h.1, h.2)))
  any_above-percentiles f (suc n) from =
      let later = any_above-percentiles f n (from + 1) in
      elim (Bool-cases (d.less d.threshold (f from))) [
        | inl here ↦ rw here (λ _. (from, omega arith, omega arith, here), λ _. refl)
        | inr low ↦ rw low (
          λ e. let (p, above, below, high) = later.0 e in (p, omega arith, omega arith, high),
          λ h. later.1 (
            h.0,
            past (h.0) from h.1 (λ same.
                not_high (f from) low
                  (subst (λ (q : ℕ). d.less d.threshold (f q) ≡ true) same h.3)),
            omega (arith, h.2),
            h.3,
          ),
        )
      ]
    where
      past : (p from : ℕ) → from ≤ p → ¬ (p ≡ from) → from + 1 ≤ p
      past p from h other = ground (arith, other)

      not_high :
          (t : Doubles.Double d) → d.less d.threshold t ≡ false → ¬ (d.less d.threshold t ≡ true)
      not_high t low high = absurd (cc)

  -- With comparisons that order all numbers, a leak is reported exactly if for one of the 101
  -- percentiles from 0 to 100 Welch's t exceeds the threshold, taken between the measurements of the
  -- two classes that are not above the percentile's cut, in their order; the cut is the sorted
  -- measurement at the percentile's index, and 2^64 - 1 for the percentile 100.
  pub leaked_iff :
      (samples : List Sample)
      → (leaked d samples ≡ true) ↔ (
          (p : ℕ) × (p ≤ 100)
          × (d.less d.threshold
                (cropped_t d (d.sort (map (λ (s : Sample). s.cycles) samples)) samples p)
              ≡ true))
  unfolding leaked statistics
  leaked_iff samples =
      let f = statistic d (d.sort (map (λ (s : Sample). s.cycles) samples)) samples in
      let every = any_above-percentiles f 101 0 in
      let same = λ (p : ℕ).
        ap (d.less d.threshold)
          (statistic_lem d (d.sort (map (λ (s : Sample). s.cycles) samples)) samples p) in
      let largest : d.less d.threshold (max_loop d (d.of_u64 0) (statistics d samples))
          ≡ any_above d (statistics d samples) =
        max_loop_above (d.of_u64 0) (statistics d samples) o.zero_number ∙ rw o.zero_low refl in
      (
        λ e.
            let (p, _, below, high) = every.0 (sym largest ∙ e) in
            (p, omega arith, sym (same p) ∙ high),
        λ h. largest ∙ every.1 (h.0, omega arith, omega (arith, h.1), same h.0 ∙ h.2),
      )
