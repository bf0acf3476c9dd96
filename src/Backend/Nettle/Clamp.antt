-- ===== src/Backend/Nettle/Clamp.antt =====
-- The clamped scalar of `x25519_` is the one that RFC 7748 decodes.
use cmfuzz.Base.{
  ℕ, zero, suc, ◌+◌, ◌*◌, ◌/◌, ◌%◌, ◌^◌, ◌<◌, ◌≡◌, refl, arith, List, [], ◌∷◌, Bool, true, ◌==◌,
  bit_and, bit_or, length, get_or, set, take, All, ==_iff, All-get_or, get_or-set_self, ap, ap₂,
  ◌∙◌,
}
use cmfuzz.Base.Tables.{passes_below, test_below}
use cmfuzz.Engine.Prng.{IsByte}
use cmfuzz.Protocol.Ops.{le_number, decode_scalar}
use cmfuzz.Backend.Nettle.{clamp}

-- The weight of byte `n`.
abbrev weigh : ℕ → ℕ → ℕ
weigh zero y = y
weigh (suc n) y = 256 * weigh n y

-- A number of `n + 1` bytes, by its last byte.
abbrev Splits : ℕ → List ℕ → ℕ → Type 0
Splits n t y =
    (le_number t ≡ le_number (take n t) + weigh n (get_or t n 0))
    × (le_number (set t n y) ≡ le_number (take n t) + weigh n y)
    × (le_number (take n t) < weigh n 1)

le_number-last : (n : ℕ) (t : List ℕ) (y : ℕ) → length t ≡ suc n → All IsByte t → Splits n t y
unfolding le_number
le_number-last n [] y h b = absurd (omega arith)
le_number-last zero (x ∷ []) y h b = (omega arith, omega arith, omega arith)
le_number-last zero (x ∷ z ∷ t) y h b = absurd (omega arith)
le_number-last (suc n) (x ∷ t) y h b =
    let (whole, changed, low) = le_number-last n t y (omega arith) b.1 in
    let x_small = b.0 in (omega arith, omega arith, omega arith)

low_bits : ℕ → Bool
low_bits a = bit_and a 248 == 8 * (a / 8)

high_bits : ℕ → Bool
high_bits b = bit_or (bit_and b 127) 64 == 64 + b % 64

low_bits_table : passes_below low_bits 256 ≡ true
unfolding passes_below low_bits
low_bits_table = refl

high_bits_table : passes_below high_bits 256 ≡ true
unfolding passes_below high_bits
high_bits_table = refl

low_bits-eq : (a : ℕ) → a < 256 → bit_and a 248 ≡ 8 * (a / 8)
unfolding low_bits
low_bits-eq a h = (==_iff _ _).0 (test_below low_bits 256 low_bits_table a h)

high_bits-eq : (b : ℕ) → b < 256 → bit_or (bit_and b 127) 64 ≡ 64 + b % 64
unfolding high_bits
high_bits-eq b h = (==_iff _ _).0 (test_below high_bits 256 high_bits_table b h)

set-set : (xs : List ℕ) (i u v : ℕ) → set (set xs i u) i v ≡ set xs i v
set-set [] i u v = refl
set-set (x ∷ xs) zero u v = refl
set-set (x ∷ xs) (suc i) u v = ap (◌∷◌ x) (set-set xs i u v)

-- The scalar with its first byte apart.
clamp-cons :
    (a : ℕ) (t : List ℕ)
    → length t ≡ 31
    → All IsByte t
    → a < 256
    → clamp (a ∷ t) ≡ (8 * (a / 8)) ∷ set t 30 (64 + get_or t 30 0 % 64)
unfolding clamp
clamp-cons a t h b small =
    let y : ℕ = bit_and (get_or t 30 0) 127 in
    let last : get_or t 30 0 < 256 = All-get_or IsByte t 30 0 b (omega arith) in
    let kept : get_or (set t 30 y) 30 0 ≡ y = get_or-set_self t 30 y 0 (omega arith) in
    let high : bit_or (get_or (set t 30 y) 30 0) 64 ≡ 64 + get_or t 30 0 % 64 =
      ap (λ (z : ℕ). bit_or z 64) kept ∙ high_bits-eq (get_or t 30 0) last in
    ap₂ ◌∷◌ (low_bits-eq a small) (ap (set (set t 30 y) 30) high ∙ set-set t 30 y _)

-- The sum, over the weights written out.
scalar_sum :
    (a : ℕ) (t : List ℕ) (l b : ℕ)
    → a < 256
    → b < 256
    → l < weigh 30 1
    → le_number t ≡ l + weigh 30 b
    → le_number (set t 30 (64 + b % 64)) ≡ l + weigh 30 (64 + b % 64)
    → le_number ((8 * (a / 8)) ∷ set t 30 (64 + b % 64))
      ≡ 2 ^ 254 + 8 * (le_number (a ∷ t) % 2 ^ 254 / 8)
unfolding le_number
scalar_sum a t l b ha hb hl whole changed = omega arith

-- The scalar that `x25519_` multiplies by is, as a little-endian number, the one that RFC 7748
-- decodes the key to.
pub le_number-clamp :
    (k : List ℕ) → length k ≡ 32 → All IsByte k → le_number (clamp k) ≡ decode_scalar k
unfolding decode_scalar
le_number-clamp [] h b = absurd (omega arith)
le_number-clamp (a ∷ t) h b =
    let y : ℕ = 64 + get_or t 30 0 % 64 in
    let last : get_or t 30 0 < 256 = All-get_or IsByte t 30 0 b.1 (omega arith) in
    let (whole, changed, low) = le_number-last 30 t y (omega arith) b.1 in
    ap le_number (clamp-cons a t (omega arith) b.1 b.0)
    ∙ scalar_sum a t (le_number (take 30 t)) (get_or t 30 0) b.0 last low whole changed
