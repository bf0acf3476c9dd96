-- ===== src/Base/Chain.antt =====
-- Calls that may fail, one after another.
use mathlib.Core.Option.{Option, none, some}
use mathlib.Core.Path.{◌≡◌, refl}
use mathlib.Core.Bool.{Bool, false}

infixl 5 ◌>>=◌
abbrev pub ◌>>=◌ {ℓ κ} : {A : Type ℓ} {B : Type κ} → Option A → (A → Option B) → Option B
none >>= f = none
some a >>= f = f a

-- A test behind calls that may fail.
abbrev pub holds : Option Bool → Bool
holds none = false
holds (some b) = b

pub bind_assoc :
    {A B C : Type 0} (m : Option A) (f : A → Option B) (g : B → Option C)
    → (m >>= f) >>= g ≡ m >>= (λ a. f a >>= g)
bind_assoc none f g = refl
bind_assoc (some a) f g = refl
