-- ===== src/Engine/Prng/Stream.antt =====
-- What `cmf_randombytes` and `cmf_prng_seed` promise: the bytes asked for, and a usable state.
use cmfuzz.Base.{
  ℕ, zero, suc, ◌+◌, ◌-◌, ◌*◌, ◌/◌, ◌%◌, ◌≤◌, ◌≡◌, ◌≢◌, refl, ap, arith, bit_xor, List, [], ◌∷◌,
  ◌++◌, ltb, if◌then◌else◌, take, length, length-append, length-take, All, All-append, All-take,
  min,
}
use cmfuzz.Engine.Prng.{
  u64_mod, IsU64, IsByte, gamma, next_state, splitmix64, seed_loop, prng_seed, le_bytes, fill_loop,
  randombytes,
}

length-le_bytes : (k r : ℕ) → length (le_bytes k r) ≡ k
unfolding le_bytes
length-le_bytes zero r = refl
length-le_bytes (suc k) r = ap suc (length-le_bytes k (r / 256))

le_bytes-IsByte : (k r : ℕ) → All IsByte (le_bytes k r)
unfolding le_bytes
le_bytes-IsByte zero r = tt
le_bytes-IsByte (suc k) r = (omega arith, le_bytes-IsByte k (r / 256))

-- The rounds that `n` bytes take.
abbrev pub rounds : ℕ → ℕ
rounds n = (n + 7) / 8

-- The bytes that one round takes.
abbrev chunk : ℕ → ℕ
chunk left = if ltb left 8 then left else 8

chunk-min : (left : ℕ) → chunk left ≡ min left 8
chunk-min left = ground arith

later : ℕ → ℕ → ℕ → List ℕ × ℕ
later fuel left s = fill_loop fuel (left - chunk left) (next_state s)

fill_loop-suc :
    (fuel left s : ℕ)
    → left ≢ 0
    → fill_loop (suc fuel) left s ≡ (
      take (chunk left) (le_bytes 8 (splitmix64 s).0) ++ (later fuel left s).0,
      (later fuel left s).1,
    )
unfolding fill_loop splitmix64 later
fill_loop-suc fuel left s h = ground arith

fill_loop-zero : (fuel s : ℕ) → fill_loop fuel 0 s ≡ ([], s)
unfolding fill_loop
fill_loop-zero zero s = refl
fill_loop-zero (suc fuel) s = refl

length-chunk : (left r : ℕ) → length (take (chunk left) (le_bytes 8 r)) ≡ min left 8
length-chunk left r =
    omega (arith, chunk-min left, length-take (chunk left) (le_bytes 8 r), length-le_bytes 8 r)

-- What a fill of `left` bytes from the state `s` has to give.
abbrev Fills : ℕ → ℕ → List ℕ × ℕ → Type 0
Fills left s r = (length r.0 ≡ left) × All IsByte r.0 × (r.1 ≡ (s + rounds left * gamma) % u64_mod)

fill_loop-Fills : (fuel left s : ℕ) → left ≤ fuel → IsU64 s → Fills left s (fill_loop fuel left s)
unfolding later next_state
fill_loop-Fills fuel zero s h w = rw (fill_loop-zero fuel s) (refl, tt, omega arith)
fill_loop-Fills zero (suc left) s h w = absurd (omega arith)
fill_loop-Fills (suc fuel) (suc left) s h w =
    let n : ℕ = suc left in
    let v : ℕ = (splitmix64 s).0 in
    let m = chunk-min n in
    let ih : Fills (n - chunk n) (next_state s) (later fuel n s) =
      fill_loop-Fills fuel (n - chunk n) (next_state s) (omega (arith, m)) (omega arith) in
    let first = take (chunk n) (le_bytes 8 v) in
    let size : length first ≡ min n 8 = length-chunk n v in
    rw (fill_loop-suc fuel n s (omega arith)) (
      omega (arith, m, ih.0, size, length-append first (later fuel n s).0),
      All-append IsByte first _ (All-take IsByte (chunk n) _ (le_bytes-IsByte 8 v)) ih.1,
      omega (arith, m, ih.2),
    )

-- `cmf_randombytes(out, n)` writes exactly `n` bytes, and moves a 64-bit state on by one step for
-- each eight bytes begun: `s + ⌈n / 8⌉ * gamma` modulo 2 ^ 64.
pub randombytes_lem :
    (n s : ℕ)
    → IsU64 s
    → (length (randombytes n s).0 ≡ n)
      × All IsByte (randombytes n s).0
      × ((randombytes n s).1 ≡ (s + rounds n * gamma) % u64_mod)
unfolding randombytes
randombytes_lem n s w = fill_loop-Fills n n s (omega arith) w

seed_loop-IsU64 : (s : ℕ) (buf : List ℕ) → IsU64 s → IsU64 (seed_loop s buf)
unfolding seed_loop
seed_loop-IsU64 s [] w = w
seed_loop-IsU64 s (b ∷ buf) w =
    seed_loop-IsU64 (bit_xor s b * 0x100000001b3 % u64_mod) buf (omega arith)

-- Whatever the input, the generator starts from a 64-bit state that is not zero.
pub prng_seed_range : (buf : List ℕ) → (prng_seed buf ≢ 0) × IsU64 (prng_seed buf)
unfolding prng_seed
prng_seed_range buf = ground (arith, seed_loop-IsU64 0xcbf29ce484222325 buf)
