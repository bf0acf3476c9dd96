-- ===== src/Tests/Timing.antt =====
-- Runs of the statistics of the timing tests, over natural numbers in place of floats.
use cmfuzz.Base.{
  ℕ, ◌+◌, ◌-◌, ◌*◌, ◌/◌, ◌≡◌, ◌↔◌, ◌≤◌, refl, arith, List, [], ◌∷◌, ◌++◌, true, false, ltb, ◌==◌,
  replicate,
}
use cmfuzz.Engine.Timing.{Doubles, Sample, leaked}
use cmfuzz.Engine.Timing.Leak.{IsOrdered, cropped_t, leaked_iff}

abbrev naturals : Doubles
naturals = record {
  Double = ℕ;
  of_u64 = λ n. n;
  add = λ a b. a + b;
  sub = λ a b. a - b;
  mul = λ a b. a * b;
  div = λ a b. a / b;
  sqrt = λ a. a;
  fabs = λ a. a;
  less = ltb;
  equal = λ a b. a == b;
  threshold = 4;
  index = λ p. p;
  sort = λ l. l;
}

naturals-IsOrdered : IsOrdered naturals (λ n. Unit {0})
naturals-IsOrdered = record {
  zero_number = tt;
  zero_low = refl;
  greater_number = λ a b e. tt;
  trans = λ a b c e f. ground arith;
  total = λ a b c n e f. ground arith;
}

abbrev samples : List Sample
samples = record { class = true; cycles = 9 } ∷ record { class = false; cycles = 4 } ∷ []

leaked_iff_example :
    (leaked naturals samples ≡ true)
    ↔ ((p : ℕ) × (p ≤ 100) × (ltb 4 (cropped_t naturals (9 ∷ 4 ∷ []) samples p) ≡ true))
leaked_iff_example = leaked_iff naturals (λ n. Unit {0}) naturals-IsOrdered samples

abbrev bytes : List ℕ
bytes = replicate 14 7 ++ (2 ∷ 2 ∷ [])
