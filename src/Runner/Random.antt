-- ===== src/Runner/Random.antt =====
-- `rnd` and `rnd_bytes`: the runner's own SplitMix64 over the global `g_state`, as a state monad.
use cmfuzz.Base.{ℕ, zero, suc, ◌≡◌, refl, ap, arith, List, [], ◌∷◌, length, All, bit_and}
use cmfuzz.Base.Bits.{and_255}
use cmfuzz.Engine.Prng.{IsByte, mix_first, mix_second, mix_last, next_state}

abbrev pub M : Type 0 → Type 0
M A = ℕ → A × ℕ

infixl 5 ◌>>=◌
abbrev pub ◌>>=◌ : {A B : Type 0} → M A → (A → M B) → M B
◌>>=◌ m f s = let (a, t) = m s in f a t

abbrev pub give : {A : Type 0} → A → M A
give a s = (a, s)

unfoldable pub rnd : M ℕ
unfolding mix_first mix_second mix_last next_state
rnd s = (mix_last (mix_second (mix_first (next_state s))), next_state s)

unfoldable pub rnd_bytes : ℕ → M (List ℕ)
rnd_bytes zero = give []
rnd_bytes (suc n) = do r ← rnd; rest ← rnd_bytes n; give (bit_and r 0xFF ∷ rest)

pub length-rnd_bytes : (n s : ℕ) → length (rnd_bytes n s).0 ≡ n
unfolding rnd_bytes
length-rnd_bytes zero s = refl
length-rnd_bytes (suc n) s = ap suc (length-rnd_bytes n (rnd s).1)

pub rnd_bytes-IsByte : (n s : ℕ) → All IsByte (rnd_bytes n s).0
unfolding rnd_bytes
rnd_bytes-IsByte zero s = tt
rnd_bytes-IsByte (suc n) s = (omega (arith, and_255 (rnd s).0), rnd_bytes-IsByte n (rnd s).1)
