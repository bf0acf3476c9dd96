-- ===== src/Tests/Engine.antt =====
-- Runs of engine/cmfuzz_common.h.
use cmfuzz.Base.{ℕ, ◌+◌, ◌*◌, ◌%◌, ◌≡◌, refl, arith, All, length}
use cmfuzz.Engine.Prng.{splitmix64, randombytes, IsByte, gamma, u64_mod}
use cmfuzz.Engine.Prng.Stream.{rounds, randombytes_lem}
use cmfuzz.Engine.Prng.Inject.{splitmix64-injective}

-- The first value of the reference implementation of SplitMix64 from the state 0.
first_value : (splitmix64 0).0 ≡ 0xE220A8397B1DCDAF
unfolding splitmix64
first_value = refl

randombytes_lem_example :
    (length (randombytes 11 7).0 ≡ 11)
    × All IsByte (randombytes 11 7).0
    × ((randombytes 11 7).1 ≡ (7 + rounds 11 * gamma) % u64_mod)
randombytes_lem_example = randombytes_lem 11 7 (omega arith)

splitmix64-injective_example : ◌≡◌ {A = ℕ} 5 5
splitmix64-injective_example = splitmix64-injective 5 5 (omega arith) (omega arith) refl
