-- ===== src/Engine/Timing.antt =====
-- The statistics of engine/ct_dudect.c and engine/ct_dudect_trad.c, which share them, and the two
-- comparisons of the latter that leak on purpose.
pub mod Leak
pub mod Naive
use Prim.Native.String.{String}
use cmfuzz.Base.{
  ℕ, zero, suc, ◌+◌, ◌-◌, ◌^◌, List, [], ◌∷◌, Bool, true, false, ◌||◌, ltb, ◌==◌, if◌then◌else◌,
  get_or, map,
}

-- The `double` arithmetic that the code uses; there are no floats here, so it is a parameter. `index`
-- is `(size_t)((1.0 - pow(0.5, 10.0 * (p + 1) / 100)) * 200000)`, and `sort` is `qsort`.
pub record Doubles : Type 1 where
  pub Double : Type 0
  pub of_u64 : ℕ → Double
  pub add : Double → Double → Double
  pub sub : Double → Double → Double
  pub mul : Double → Double → Double
  pub div : Double → Double → Double
  pub sqrt : Double → Double
  pub fabs : Double → Double
  pub less : Double → Double → Bool
  pub equal : Double → Double → Bool
  pub threshold : Double
  pub index : ℕ → ℕ
  pub sort : List ℕ → List ℕ

-- One measurement: its class, and its cycles.
pub record Sample : Type 0 where
  pub class : Bool
  pub cycles : ℕ

module _ (d : Doubles) where
  -- `tstat_t`.
  pub record Tstat : Type 0 where
    pub n : d.Double
    pub mean : d.Double
    pub m2 : d.Double

  abbrev pub fresh : Tstat
  fresh = record { n = d.of_u64 0; mean = d.of_u64 0; m2 = d.of_u64 0 }

  pub t_push : Tstat → d.Double → Tstat
  t_push t x =
      let n = d.add t.n (d.of_u64 1) in
      let delta = d.sub x t.mean in
      let mean = d.add t.mean (d.div delta n) in
      record { n = n; mean = mean; m2 = d.add t.m2 (d.mul delta (d.sub x mean)) }

  pub welch_t : Tstat → Tstat → d.Double
  welch_t a b =
      let va = d.div a.m2 (d.sub a.n (d.of_u64 1)) in
      let vb = d.div b.m2 (d.sub b.n (d.of_u64 1)) in
      let denom = d.sqrt (d.add (d.div va a.n) (d.div vb b.n)) in
      if d.less a.n (d.of_u64 2) || d.less b.n (d.of_u64 2)
      then d.of_u64 0
      else if d.equal denom (d.of_u64 0)
      then d.of_u64 0
      else d.div (d.sub a.mean b.mean) denom

  -- The inner loop: samples above `cut` are left out.
  pub accumulate : ℕ → Tstat → Tstat → List Sample → Tstat × Tstat
  unfolding t_push
  accumulate cut a b [] = (a, b)
  accumulate cut a b (s ∷ ss) =
      let x = d.of_u64 s.cycles in
      let kept = if ltb cut s.cycles then false else true in
      accumulate cut (if kept then (if s.class then a else t_push a x) else a)
        (if kept then (if s.class then t_push b x else b) else b) ss

  pub cut_at : List ℕ → ℕ → ℕ
  cut_at sorted p = if p == 100 then 2 ^ 64 - 1 else get_or sorted (d.index p) 0

  -- `fabs(t)` at one percentile.
  pub statistic : List ℕ → List Sample → ℕ → d.Double
  unfolding accumulate welch_t cut_at
  statistic sorted samples p =
      let r = accumulate (cut_at sorted p) fresh fresh samples in d.fabs (welch_t r.0 r.1)

  -- The outer loop over the percentiles: the largest statistic.
  pub max_loop : d.Double → List d.Double → d.Double
  max_loop best [] = best
  max_loop best (t ∷ ts) = max_loop (if d.less best t then t else best) ts

  -- 0 to 100.
  abbrev pub percentiles : ℕ → ℕ → List ℕ
  percentiles zero p = []
  percentiles (suc left) p = p ∷ percentiles left (p + 1)

  pub statistics : List Sample → List d.Double
  unfolding statistic
  statistics samples =
      map (statistic (d.sort (map (λ (s : Sample). s.cycles) samples)) samples) (percentiles 101 0)

  pub leaked : List Sample → Bool
  unfolding statistics max_loop
  leaked samples = d.less d.threshold (max_loop (d.of_u64 0) (statistics samples))

  -- The verdict for an operation that is expected to be constant-time, or not.
  pub verdict : Bool → List Sample → String
  unfolding leaked
  verdict true samples = if leaked samples then "FINDING" else "OK"
  verdict false samples = if leaked samples then "EXPECTED_VARTIME" else "OK_UNEXPECTEDLY_CT"

-- `naive_memcmp`: the loop over the `left` bytes from `i` on.
pub memcmp_loop : ℕ → ℕ → List ℕ → List ℕ → ℕ
memcmp_loop zero i a b = 0
memcmp_loop (suc left) i a b =
    let later = memcmp_loop left (i + 1) a b in if get_or a i 0 == get_or b i 0 then later else 1

pub naive_memcmp : List ℕ → List ℕ → ℕ → ℕ
unfolding memcmp_loop
naive_memcmp a b n = memcmp_loop n 0 a b

-- `naive_pkcs7_ok` without the busy work that feeds `g_sink`.
pub pkcs7_loop : ℕ → ℕ → ℕ → List ℕ → ℕ
pkcs7_loop pad zero i blk = 1
pkcs7_loop pad (suc left) i blk =
    let later = pkcs7_loop pad left (i + 1) blk in if get_or blk (15 - i) 0 == pad then later else 0

pub naive_pkcs7_ok : List ℕ → ℕ
unfolding pkcs7_loop
naive_pkcs7_ok blk =
    let pad = get_or blk 15 0 in if ltb pad 1 || ltb 16 pad then 0 else pkcs7_loop pad pad 0 blk
