-- ===== src/Protocol/Hex.antt =====
-- Hex text: `cmf_hexval`, `cmf_hexdecode`, `cmf_hexprint`, and `tohex` of the runner.
pub mod RoundTrip
use cmfuzz.Base.{
  ℕ, zero, suc, ◌+◌, ◌-◌, ◌*◌, ◌/◌, ◌%◌, ◌^◌, bit_and, bit_or, Bool, true, false, ◌&&◌, ◌||◌, List,
  [], ◌∷◌, ◌++◌, Option, none, some, ltb, leb, ◌==◌, if◌then◌else◌, get_or,
}
use cmfuzz.Base.Text.{codes}

abbrev pub newline : ℕ
newline = 10

abbrev pub carriage_return : ℕ
carriage_return = 13

-- `cmf_hexval`; `none` is the -1 of a character that is no hex digit.
unfoldable pub hexval : ℕ → Option ℕ
hexval c =
    if leb b'0' c && leb c b'9'
    then some (c - b'0')
    else if leb b'a' c && leb c b'f'
    then some (c - b'a' + 10)
    else if leb b'A' c && leb c b'F'
    then some (c - b'A' + 10)
    else none

-- What the first loop of `cmf_hexdecode` cuts off at the end of the line.
unfoldable pub is_trailing : ℕ → Bool
is_trailing c = c == newline || c == carriage_return || c == b' '

abbrev pub is_nil : List ℕ → Bool
is_nil [] = true
is_nil (x ∷ xs) = false

pub strip_end : List ℕ → List ℕ
unfolding is_trailing
strip_end [] = []
strip_end (c ∷ cs) = let cut = strip_end cs in if is_nil cut && is_trailing c then [] else c ∷ cut

-- Both digits of a byte, if they are digits: `(uint8_t)((hi << 4) | lo)`.
pub hex_byte : ℕ → ℕ → Option ℕ
unfolding hexval
hex_byte a b = elim (hexval a) [
  | none ↦ none
  | some hi ↦ elim (hexval b) [ none ↦ none | some lo ↦ some (bit_or (hi * 2 ^ 4) lo % 256) ]
]

-- The second loop, over `hl / 2` pairs: a last odd digit is left out.
pub hex_pairs : List ℕ → Option (List ℕ)
unfolding hex_byte
hex_pairs [] = some []
hex_pairs (a ∷ []) = some []
hex_pairs (a ∷ b ∷ rest) =
    let later = hex_pairs rest in
    elim (hex_byte a b) [
      | none ↦ none
      | some x ↦ elim later [ none ↦ none | some xs ↦ some (x ∷ xs) ]
    ]

-- `cmf_hexdecode`; `none` is NULL.
unfoldable pub hexdecode : List ℕ → Option (List ℕ)
unfolding hex_pairs strip_end
hexdecode hex = hex_pairs (strip_end hex)

abbrev pub hex_digits : List ℕ
hex_digits = codes "0123456789abcdef"

abbrev pub high_digit : ℕ → ℕ
high_digit b = get_or hex_digits (b / 2 ^ 4) 0

abbrev pub low_digit : ℕ → ℕ
low_digit b = get_or hex_digits (bit_and b 15) 0

-- `tohex` of the runner, and what its `fprintf` loops write.
unfoldable pub tohex : List ℕ → List ℕ
tohex [] = []
tohex (b ∷ bs) = high_digit b ∷ low_digit b ∷ tohex bs

-- `cmf_hexprint`: the reply line of a compute program.
unfoldable pub hexprint : List ℕ → List ℕ
unfolding tohex
hexprint b = tohex b ++ newline ∷ []
