-- ===== src/Engine/Oracle.antt =====
-- How a harness run goes on or ends: `CMF_VIOLATION` and `CMF_ASSERT`, and `return 0`.
use Prim.Native.String.{String}
use cmfuzz.Base.{Bool, true, false}

-- The line that `CMF_VIOLATION` prints before it calls `abort()`.
pub record Report : Type 0 where
  pub alg : String
  pub oracle : String
  pub msg : String

-- `next` goes on with a value, `finish` is `return 0`, `violated` is the abort.
pub data Run {ℓ} (A : Type ℓ) : Type ℓ where
  next : A → Run A
  finish : Run A
  violated : Report → Run A

infixl 5 ◌>>=◌ ◌>>◌
abbrev pub ◌>>=◌ {ℓ κ} : {A : Type ℓ} {B : Type κ} → Run A → (A → Run B) → Run B
next a >>= f = f a
finish >>= f = finish
violated r >>= f = violated r

abbrev pub ◌>>◌ {ℓ κ} : {A : Type ℓ} {B : Type κ} → Run A → Run B → Run B
m >> k = m >>= λ _. k

-- `CMF_ASSERT(cond, alg, oracle, msg)`.
abbrev pub assert : Bool → String → String → String → Run (Unit {0})
assert true alg oracle msg = next tt
assert false alg oracle msg = violated (record { alg = alg; oracle = oracle; msg = msg })

-- The process aborted.
abbrev pub IsViolation {ℓ} : {A : Type ℓ} → Run A → Type 0
IsViolation (next a) = ⊥
IsViolation finish = ⊥
IsViolation (violated r) = Unit {0}
