-- ===== src/Engine/Prng.antt =====
-- The SplitMix64 generator of engine/cmfuzz_common.h. A `uint64_t` is a number below 2 ^ 64, and
-- the global `g_cmf_prng` is passed in and out of each call.
pub mod Stream
pub mod Inject
use cmfuzz.Base.{
  ℕ, zero, suc, ◌+◌, ◌-◌, ◌*◌, ◌/◌, ◌%◌, ◌^◌, ◌<◌, bit_xor, List, [], ◌∷◌, ◌++◌, ltb, ◌==◌,
  if◌then◌else◌, take, length,
}

abbrev pub u64_mod : ℕ
u64_mod = 2 ^ 64

abbrev pub IsU64 : ℕ → Type 0
IsU64 x = x < 2 ^ 64

abbrev pub IsByte : ℕ → Type 0
IsByte b = b < 256

abbrev pub gamma : ℕ
gamma = 0x9E3779B97F4A7C15

-- The first and the second round of the mixer, and its last line.
unfoldable pub mix_first : ℕ → ℕ
mix_first z = bit_xor z (z / 2 ^ 30) * 0xBF58476D1CE4E5B9 % u64_mod

unfoldable pub mix_second : ℕ → ℕ
mix_second z = bit_xor z (z / 2 ^ 27) * 0x94D049BB133111EB % u64_mod

unfoldable pub mix_last : ℕ → ℕ
mix_last z = bit_xor z (z / 2 ^ 31)

unfoldable pub next_state : ℕ → ℕ
next_state s = (s + gamma) % u64_mod

-- `cmf_splitmix64(&s)`: the value and the new state.
unfoldable pub splitmix64 : ℕ → ℕ × ℕ
unfolding mix_first mix_second mix_last next_state
splitmix64 s = (mix_last (mix_second (mix_first (next_state s))), next_state s)

fnv_prime : ℕ
fnv_prime = 0x100000001b3

seed_loop : ℕ → List ℕ → ℕ
unfolding fnv_prime
seed_loop s [] = s
seed_loop s (b ∷ buf) = seed_loop (bit_xor s b * fnv_prime % u64_mod) buf

-- `cmf_prng_seed`: the new state; zero is replaced.
unfoldable pub prng_seed : List ℕ → ℕ
unfolding seed_loop
prng_seed buf = let s = seed_loop 0xcbf29ce484222325 buf in if s == 0 then 0x1234567890abcdef else s

-- The eight bytes of a `uint64_t` as `memcpy` takes them on a little-endian machine.
le_bytes : ℕ → ℕ → List ℕ
le_bytes zero r = []
le_bytes (suc k) r = (r % 256) ∷ le_bytes k (r / 256)

-- The loop of `cmf_randombytes` over the `left = n - i` bytes still wanted. Each round takes a
-- byte at least, so `n` rounds are enough.
fill_loop : ℕ → ℕ → ℕ → List ℕ × ℕ
unfolding splitmix64 le_bytes
fill_loop zero left s = ([], s)
fill_loop (suc fuel) left s =
    let (r, s') = splitmix64 s in
    let chunk = if ltb left 8 then left else 8 in
    let rest = fill_loop fuel (left - chunk) s' in
    if left == 0 then ([], s) else (take chunk (le_bytes 8 r) ++ rest.0, rest.1)

-- `cmf_randombytes(out, n)`: the bytes written and the new state.
unfoldable pub randombytes : ℕ → ℕ → List ℕ × ℕ
unfolding fill_loop
randombytes n s = fill_loop n n s
