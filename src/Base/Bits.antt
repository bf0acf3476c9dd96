-- ===== src/Base/Bits.antt =====
-- Laws of the bit operations at variables, from their binary digits.
use Prim.Native.Nat.{
  ℕ, zero, suc, ◌+◌, ◌-◌, ◌*◌, ◌/◌, ◌%◌, ◌^◌, ◌≤◌, ◌<◌, min, max, digits, bitwise, differ,
}
use Prim.Native.Nat.{bit_and, bit_or, bit_xor, bit_and-bitwise, bit_or-bitwise, bit_xor-bitwise}
use mathlib.Core.Path.{◌≡◌, refl, sym, ◌∙◌, ap, ap₂}
use mathlib.Core.Logic.{◌≢◌}
use native.Mathlib.Nat.{le_refl, pow-suc, div-div-eq-div-mul}
use native.Mathlib.Omega.{arith}

module _ (last : ℕ → ℕ) (op : ℕ → ℕ → ℕ) where
  -- One round more than the argument needs changes nothing.
  spare_round : (fuel x y : ℕ) → x ≤ fuel → digits last op (suc fuel) x y ≡ digits last op fuel x y
  spare_round fuel zero y room = last_round fuel
    where
      last_round : (k : ℕ) → digits last op (suc k) 0 y ≡ digits last op k 0 y
      last_round zero = refl
      last_round (suc k) = refl
  spare_round zero (suc x) y room = absurd (omega arith)
  spare_round (suc fuel) (suc x) y room =
      ap (λ (t : ℕ). t * 2 + op (suc x % 2) (y % 2))
        (spare_round fuel (suc x / 2) (y / 2) (omega arith))

  spare_rounds : (extra x y : ℕ) → digits last op (x + extra) x y ≡ digits last op x x y
  spare_rounds zero x y = ap (λ (k : ℕ). digits last op k x y) (omega arith)
  spare_rounds (suc extra) x y =
      let next : x + suc extra ≡ suc (x + extra) = omega arith in
      ap (λ (k : ℕ). digits last op k x y) next
      ∙ spare_round (x + extra) x y (omega arith)
      ∙ spare_rounds extra x y

  -- An operation on digits, by the lowest digit; `last` is what it does to the other number once
  -- one of the two is zero.
  by_digit :
      (x y : ℕ)
      → ((v : ℕ) → last v ≡ last (v / 2) * 2 + op 0 (v % 2))
      → bitwise last op x y ≡ bitwise last op (x / 2) (y / 2) * 2 + op (x % 2) (y % 2)
  by_digit zero y h = h y
  by_digit (suc x) y h =
      let fuel : x ≡ suc x / 2 + (x - suc x / 2) = omega arith in
      ap (λ (t : ℕ). t * 2 + op (suc x % 2) (y % 2))
        (ap (λ (k : ℕ). digits last op k (suc x / 2) (y / 2)) fuel
          ∙ spare_rounds (x - suc x / 2) (suc x / 2) (y / 2))

pub bit_or_step : (a b : ℕ) → bit_or a b ≡ bit_or (a / 2) (b / 2) * 2 + max (a % 2) (b % 2)
bit_or_step a b =
    let digit = by_digit (λ v. v) max a b (λ v. omega arith) in
    omega (arith, digit, bit_or-bitwise a b, bit_or-bitwise (a / 2) (b / 2))

pub bit_and_step : (a b : ℕ) → bit_and a b ≡ bit_and (a / 2) (b / 2) * 2 + min (a % 2) (b % 2)
bit_and_step a b =
    let digit = by_digit (λ v. 0) min a b (λ v. omega arith) in
    omega (arith, digit, bit_and-bitwise a b, bit_and-bitwise (a / 2) (b / 2))

-- The sum of two bits without its carry.
differ_bits : (a b : ℕ) → a < 2 → b < 2 → differ a b ≡ (a + b) % 2
differ_bits zero b p q = omega arith
differ_bits (suc zero) zero p q = omega arith
differ_bits (suc zero) (suc b) p q = omega arith
differ_bits (suc (suc a)) b p q = absurd (omega arith)

pub bit_xor_step : (a b : ℕ) → bit_xor a b ≡ bit_xor (a / 2) (b / 2) * 2 + (a + b) % 2
bit_xor_step a b =
    let top : (v : ℕ) → v ≡ v / 2 * 2 + differ 0 (v % 2) =
      λ v. omega (arith, differ_bits 0 (v % 2) (omega arith) (omega arith)) in
    omega (
      arith,
      by_digit (λ v. v) differ a b top,
      bit_xor-bitwise a b,
      bit_xor-bitwise (a / 2) (b / 2),
      differ_bits (a % 2) (b % 2) (omega arith) (omega arith),
    )

zero-bit_xor : (b : ℕ) → bit_xor 0 b ≡ b
zero-bit_xor b = bit_xor-bitwise 0 b

-- Laws of `bit_xor`, by recursion on a bound of the arguments.
xor_comm_fuel : (n a b : ℕ) → a ≤ n → b ≤ n → bit_xor a b ≡ bit_xor b a
xor_comm_fuel zero zero zero p q = refl
xor_comm_fuel zero (suc a) b p q = absurd (omega arith)
xor_comm_fuel zero zero (suc b) p q = absurd (omega arith)
xor_comm_fuel (suc n) a b p q = omega (
  arith,
  bit_xor_step a b,
  bit_xor_step b a,
  xor_comm_fuel n (a / 2) (b / 2) (omega arith) (omega arith),
)

pub xor_comm : (a b : ℕ) → bit_xor a b ≡ bit_xor b a
xor_comm a b = xor_comm_fuel (a + b) a b (omega arith) (omega arith)

xor_self_fuel : (n a : ℕ) → a ≤ n → bit_xor a a ≡ 0
xor_self_fuel zero zero p = refl
xor_self_fuel zero (suc a) p = absurd (omega arith)
xor_self_fuel (suc n) a p = omega (arith, bit_xor_step a a, xor_self_fuel n (a / 2) (omega arith))

pub xor_self : (a : ℕ) → bit_xor a a ≡ 0
xor_self a = xor_self_fuel a a (le_refl _)

pub xor-zero : (a : ℕ) → bit_xor a 0 ≡ a
xor-zero a = xor_comm a 0 ∙ zero-bit_xor a

xor_assoc_fuel :
    (n a b c : ℕ) → a ≤ n → b ≤ n → c ≤ n → bit_xor (bit_xor a b) c ≡ bit_xor a (bit_xor b c)
xor_assoc_fuel zero zero zero zero p q r = refl
xor_assoc_fuel zero (suc a) b c p q r = absurd (omega arith)
xor_assoc_fuel zero zero (suc b) c p q r = absurd (omega arith)
xor_assoc_fuel zero zero zero (suc c) p q r = absurd (omega arith)
xor_assoc_fuel (suc n) a b c p q r =
    let half_ab : bit_xor a b / 2 ≡ bit_xor (a / 2) (b / 2) = omega (arith, bit_xor_step a b) in
    let half_bc : bit_xor b c / 2 ≡ bit_xor (b / 2) (c / 2) = omega (arith, bit_xor_step b c) in
    let ih = xor_assoc_fuel n (a / 2) (b / 2) (c / 2) (omega arith) (omega arith) (omega arith) in
    omega (
      arith,
      bit_xor_step (bit_xor a b) c,
      bit_xor_step a (bit_xor b c),
      bit_xor_step a b,
      bit_xor_step b c,
      ap (λ (t : ℕ). bit_xor t (c / 2)) half_ab,
      ap (bit_xor (a / 2)) half_bc,
      ih,
    )

pub xor_assoc : (a b c : ℕ) → bit_xor (bit_xor a b) c ≡ bit_xor a (bit_xor b c)
xor_assoc a b c = xor_assoc_fuel (a + b + c) a b c (omega arith) (omega arith) (omega arith)

-- An xor undoes itself.
pub xor_undo : (a b : ℕ) → bit_xor a (bit_xor a b) ≡ b
xor_undo a b = sym (xor_assoc a a b) ∙ ap (λ (t : ℕ). bit_xor t b) (xor_self a) ∙ zero-bit_xor b

pub xor_ne : (a b : ℕ) → b ≢ 0 → bit_xor a b ≢ a
xor_ne a b h e = h (sym (xor_undo a b) ∙ ap (bit_xor a) e ∙ xor_self a)

-- Two words of `k` bits have an xor of `k` bits.
pub xor_lt : (k a b : ℕ) → a < 2 ^ k → b < 2 ^ k → bit_xor a b < 2 ^ k
xor_lt zero zero zero p q = omega arith
xor_lt zero zero (suc b) p q = absurd (omega arith)
xor_lt zero (suc a) b p q = absurd (omega arith)
xor_lt (suc k) a b p q =
    let twice : 2 ^ suc k ≡ 2 ^ k * 2 = pow-suc 2 k in
    omega (
      arith,
      twice,
      bit_xor_step a b,
      xor_lt k (a / 2) (b / 2) (omega (arith, twice)) (omega (arith, twice)),
    )

-- A shift to the right goes through an xor.
pub xor_shift : (k a b : ℕ) → bit_xor a b / 2 ^ k ≡ bit_xor (a / 2 ^ k) (b / 2 ^ k)
xor_shift zero a b = omega (arith, ap₂ bit_xor (div_one a) (div_one b))
  where
    div_one : (x : ℕ) → x / 2 ^ 0 ≡ x
    div_one x = omega arith
xor_shift (suc k) a b =
    let down : (x : ℕ) → x / 2 ^ suc k ≡ x / 2 ^ k / 2 =
      λ x. rw (pow-suc 2 k) (sym (div-div-eq-div-mul x (2 ^ k) 2)) in
    let halves = ap₂ bit_xor (down a) (down b) in
    omega (arith, down (bit_xor a b), xor_shift k a b, bit_xor_step (a / 2 ^ k) (b / 2 ^ k), halves)

or-zero_fuel : (n x : ℕ) → x ≤ n → bit_or x 0 ≡ x
or-zero_fuel zero zero h = refl
or-zero_fuel zero (suc x) h = absurd (omega arith)
or-zero_fuel (suc n) x h = omega (arith, bit_or_step x 0, or-zero_fuel n (x / 2) (omega arith))

-- `(x << k) | b` for a `b` of `k` bits.
pub or_shift : (k x b : ℕ) → b < 2 ^ k → bit_or (x * 2 ^ k) b ≡ x * 2 ^ k + b
or_shift zero x zero p =
    let same : x * 2 ^ 0 ≡ x = omega arith in
    omega (arith, ap (λ (t : ℕ). bit_or t 0) same, or-zero_fuel x x (le_refl _))
or_shift zero x (suc b) p = absurd (omega arith)
or_shift (suc k) x b p =
    let twice : 2 ^ suc k ≡ 2 ^ k * 2 = pow-suc 2 k in
    let step = bit_or_step (x * 2 ^ suc k) b in
    let half : x * 2 ^ suc k / 2 ≡ x * 2 ^ k = omega (arith, ap (λ (t : ℕ). x * t) twice) in
    let ih = or_shift k x (b / 2) (omega (arith, twice)) in
    omega (arith, ap (λ (t : ℕ). x * t) twice, step, ap (λ (t : ℕ). bit_or t (b / 2)) half, ih)

and-zero_fuel : (n x : ℕ) → x ≤ n → bit_and x 0 ≡ 0
and-zero_fuel zero zero h = refl
and-zero_fuel zero (suc x) h = absurd (omega arith)
and-zero_fuel (suc n) x h = omega (arith, bit_and_step x 0, and-zero_fuel n (x / 2) (omega arith))

-- A mask of ones takes one step for each of its bits.
pub and_one : (a : ℕ) → bit_and a 1 ≡ a % 2
and_one a = omega (arith, bit_and_step a 1, and-zero_fuel (a / 2) (a / 2) (le_refl _))

pub and_three : (a : ℕ) → bit_and a 3 ≡ a % 4
and_three a = omega (arith, bit_and_step a 3, and_one (a / 2))

pub and_seven : (a : ℕ) → bit_and a 7 ≡ a % 8
and_seven a = omega (arith, bit_and_step a 7, and_three (a / 2))

pub and_15 : (a : ℕ) → bit_and a 15 ≡ a % 16
and_15 a = omega (arith, bit_and_step a 15, and_seven (a / 2))

and_63 : (a : ℕ) → bit_and a 63 ≡ a % 64
and_63 a = omega (arith, bit_and_step a 63, bit_and_step (a / 2) 31, and_15 (a / 2 / 2))

pub and_127 : (a : ℕ) → bit_and a 127 ≡ a % 128
and_127 a = omega (arith, bit_and_step a 127, and_63 (a / 2))

pub and_255 : (a : ℕ) → bit_and a 255 ≡ a % 256
and_255 a = omega (arith, bit_and_step a 255, and_127 (a / 2))
