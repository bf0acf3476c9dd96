-- ===== src/Base/Tables.antt =====
-- Tests of all numbers below a bound by evaluation.
use Prim.Native.Nat.{ℕ, zero, suc, ◌+◌, ◌≤◌, ◌<◌}
use mathlib.Core.Path.{◌≡◌, subst}
use mathlib.Core.Bool.{Bool, true, ◌&&◌}
use native.Mathlib.Decide.{dec_lt}
use native.Mathlib.Omega.{arith}

unfoldable pub passes_below : (ℕ → Bool) → ℕ → Bool
passes_below test zero = true
passes_below test (suc bound) = passes_below test bound && test bound

pub test_below :
    (test : ℕ → Bool) (bound : ℕ)
    → passes_below test bound ≡ true
    → (v : ℕ) → v < bound
    → test v ≡ true
unfolding passes_below
test_below test zero all v below = absurd (omega arith)
test_below test (suc bound) all v below = ground (arith, test_below test bound _ v)

-- A property of the `n` numbers from `i` on, as a product.
abbrev pub FromTo : (ℕ → Type 0) → ℕ → ℕ → Type 0
FromTo P i zero = Unit
FromTo P i (suc n) = P i × FromTo P (suc i) n

-- A row of such a product.
infixr 3 ◌&◌
abbrev pub ◌&◌ : {A B : Type 0} → A → B → A × B
a & b = (a, b)

pub FromTo-at : (P : ℕ → Type 0) (i n k : ℕ) → i ≤ k → k < i + n → FromTo P i n → P k
FromTo-at P i zero k h j all = absurd (omega arith)
FromTo-at P i (suc n) k h j all = elim (dec_lt i k) [
  | yes less ↦ FromTo-at P (suc i) n k (omega arith) (omega arith) all.1
  | no same ↦ subst P (omega arith) all.0
]

-- A property of all numbers: of those below a bound one by one, and of the others.
pub by_table :
    (P : ℕ → Type 0) (bound : ℕ) → FromTo P 0 bound → ((k : ℕ) → bound ≤ k → P k) → (k : ℕ) → P k
by_table P bound all above k = elim (dec_lt k bound) [
  | yes below ↦ FromTo-at P 0 bound k (omega arith) (omega arith) all
  | no other ↦ above k (omega arith)
]
