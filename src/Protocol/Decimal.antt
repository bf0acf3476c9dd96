-- ===== src/Protocol/Decimal.antt =====
-- The decimal op number: `fprintf("%d ")` on the runner's side, `atoi` on the other.
pub mod RoundTrip
use cmfuzz.Base.{
  ℕ, zero, suc, ◌+◌, ◌-◌, ◌*◌, ◌/◌, ◌%◌, ◌^◌, ◌≤◌, ◌<◌, ◌≡◌, refl, ap, ◌∙◌, arith, Bool, true,
  false, ◌&&◌, ◌||◌, List, [], ◌∷◌, ◌++◌, ltb, leb, ◌==◌, if◌then◌else◌, All,
}
use cmfuzz.Base.Int.{ℤ, pos, negsuc, neg}

unfoldable pub is_digit : ℕ → Bool
is_digit c = leb b'0' c && leb c b'9'

is_space : ℕ → Bool
is_space c = c == b' ' || (leb 9 c && leb c 13)

-- The digits that the text begins with, as a number. Beyond the range of `int` C says nothing.
atoi_digits : ℕ → List ℕ → ℕ
unfolding is_digit
atoi_digits acc [] = acc
atoi_digits acc (c ∷ cs) =
    let more = atoi_digits (acc * 10 + (c - b'0')) cs in if is_digit c then more else acc

atoi_sign : List ℕ → ℤ
unfolding atoi_digits
atoi_sign [] = pos 0
atoi_sign (c ∷ cs) =
    if c == b'-'
    then neg (atoi_digits 0 cs)
    else if c == b'+'
    then pos (atoi_digits 0 cs)
    else pos (atoi_digits 0 (c ∷ cs))

unfoldable pub atoi : List ℕ → ℤ
unfolding atoi_sign is_space
atoi [] = pos 0
atoi (c ∷ cs) = let skipped = atoi cs in if is_space c then skipped else atoi_sign (c ∷ cs)

-- `%d` of a number that is not negative, with a digit of fuel for each digit.
decimal_digits : ℕ → ℕ → List ℕ
decimal_digits zero n = (b'0' + n % 10) ∷ []
decimal_digits (suc k) n =
    let front = decimal_digits k (n / 10) in
    if ltb n 10 then (b'0' + n) ∷ [] else front ++ (b'0' + n % 10) ∷ []

pub show_decimal : ℕ → List ℕ
unfolding decimal_digits
show_decimal n = decimal_digits n n
