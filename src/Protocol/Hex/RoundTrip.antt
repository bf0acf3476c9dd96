-- ===== src/Protocol/Hex/RoundTrip.antt =====
-- What one side prints, the other side reads back.
use cmfuzz.Base.{
  ℕ, ◌*◌, ◌<◌, ◌≡◌, refl, ap, subst, arith, Bool, true, false, List, [], ◌∷◌, ◌++◌, Option, none,
  some, ==_iff, ◌==◌, if◌then◌else◌, length, All,
}
use cmfuzz.Base.Tables.{passes_below, test_below}
use cmfuzz.Engine.Prng.{IsByte}
use cmfuzz.Protocol.Hex.{
  newline, is_trailing, strip_end, hex_byte, hex_pairs, hexdecode, high_digit, low_digit, tohex,
}

-- The two digits of a byte read back as the byte, and neither is cut off at the end of a line.
digits_read : ℕ → Bool
digits_read b = elim (hex_byte (high_digit b) (low_digit b)) [ none ↦ false | some x ↦ x == b ]

digits_kept : ℕ → Bool
digits_kept b = if is_trailing (low_digit b) then false else true

digits_read_table : passes_below digits_read 256 ≡ true
unfolding passes_below digits_read hex_byte
digits_read_table = refl

digits_kept_table : passes_below digits_kept 256 ≡ true
unfolding passes_below digits_kept is_trailing
digits_kept_table = refl

reads-eq : (o : Option ℕ) (b : ℕ) → elim o [ none ↦ false | some x ↦ x == b ] ≡ true → o ≡ some b
reads-eq none b h = cc
reads-eq (some x) b h = ap some ((==_iff x b).0 h)

keeps-eq : (t : Bool) → (if t then false else true) ≡ true → t ≡ false
keeps-eq true h = cc
keeps-eq false h = refl

pub hex_byte-digits : (b : ℕ) → b < 256 → hex_byte (high_digit b) (low_digit b) ≡ some b
unfolding digits_read
hex_byte-digits b h = reads-eq _ b (test_below digits_read 256 digits_read_table b h)

is_trailing-low_digit : (b : ℕ) → b < 256 → is_trailing (low_digit b) ≡ false
unfolding digits_kept
is_trailing-low_digit b h = keeps-eq _ (test_below digits_kept 256 digits_kept_table b h)

-- The characters that the reader cuts off at the end of a line.
abbrev pub IsTrailing : List ℕ → Type 0
IsTrailing = All (λ c. is_trailing c ≡ true)

strip_end_all : (t : List ℕ) → IsTrailing t → strip_end t ≡ []
unfolding strip_end
strip_end_all [] h = refl
strip_end_all (c ∷ cs) h = ground (arith, strip_end_all cs h.1)

-- Nothing of the digits is cut off.
strip_end-tohex :
    (bs t : List ℕ) → All IsByte bs → IsTrailing t → strip_end (tohex bs ++ t) ≡ tohex bs
unfolding strip_end tohex
strip_end-tohex [] t h k = strip_end_all t k
strip_end-tohex (b ∷ bs) t h k =
    ground (arith, is_trailing-low_digit b h.0, strip_end-tohex bs t h.1 k)

hex_pairs-tohex : (bs : List ℕ) → All IsByte bs → hex_pairs (tohex bs) ≡ some bs
unfolding hex_pairs tohex
hex_pairs-tohex [] h = refl
hex_pairs-tohex (b ∷ bs) h = ground (arith, hex_byte-digits b h.0, hex_pairs-tohex bs h.1)

-- `cmf_hexdecode` reads back the bytes that were printed as hex digits, whatever newlines,
-- carriage returns and spaces stand behind them.
pub hexdecode-tohex :
    (bs t : List ℕ) → All IsByte bs → IsTrailing t → hexdecode (tohex bs ++ t) ≡ some bs
unfolding hexdecode
hexdecode-tohex bs t h k = rw (strip_end-tohex bs t h k) (hex_pairs-tohex bs h)

pub length-tohex : (bs : List ℕ) → length (tohex bs) ≡ 2 * length bs
unfolding tohex
length-tohex [] = refl
length-tohex (b ∷ bs) = omega (arith, length-tohex bs)

hex_byte-IsByte : (a b : ℕ) {x : ℕ} → hex_byte a b ≡ some x → x < 256
unfolding hex_byte
hex_byte-IsByte a b e = ground arith

-- A property of the result, if there is one.
abbrev pub OnSome : (List ℕ → Type 0) → Option (List ℕ) → Type 0
OnSome P none = Unit {0}
OnSome P (some xs) = P xs

prepend-IsByte :
    (x : Option ℕ) (later : Option (List ℕ))
    → ((v : ℕ) → x ≡ some v → v < 256)
    → OnSome (All IsByte) later
    → OnSome
        (All IsByte)
        (elim x [ none ↦ none | some v ↦ elim later [ none ↦ none | some vs ↦ some (v ∷ vs) ] ])
prepend-IsByte none later h k = tt
prepend-IsByte (some v) none h k = tt
prepend-IsByte (some v) (some vs) h k = (h v refl, k)

hex_pairs-IsByte : (s : List ℕ) → OnSome (All IsByte) (hex_pairs s)
unfolding hex_pairs
hex_pairs-IsByte [] = tt
hex_pairs-IsByte (a ∷ []) = tt
hex_pairs-IsByte (a ∷ b ∷ rest) =
    prepend-IsByte (hex_byte a b) (hex_pairs rest) (λ v e. hex_byte-IsByte a b e)
      (hex_pairs-IsByte rest)

-- What the decoder accepts is bytes.
pub hexdecode-IsByte : (s : List ℕ) {bs : List ℕ} → hexdecode s ≡ some bs → All IsByte bs
unfolding hexdecode
hexdecode-IsByte s e = subst (OnSome (All IsByte)) e (hex_pairs-IsByte (strip_end s))

pub newline-IsTrailing : IsTrailing (newline ∷ [])
unfolding is_trailing
newline-IsTrailing = (refl, tt)
