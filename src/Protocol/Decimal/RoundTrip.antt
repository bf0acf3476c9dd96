-- ===== src/Protocol/Decimal/RoundTrip.antt =====
-- A number printed by `%d` is read back by `atoi`.
use cmfuzz.Base.{
  ℕ, zero, suc, ◌+◌, ◌*◌, ◌/◌, ◌%◌, ◌≤◌, ◌<◌, ◌≡◌, refl, sym, ap, ◌∙◌, arith, true, List, [], ◌∷◌,
  ◌++◌, ltb, All, All-append, append-nil, append_assoc, Bool-cases, inl, inr, ltb→lt,
}
use cmfuzz.Base.Int.{pos}
use cmfuzz.Protocol.Decimal.{is_digit, atoi_digits, atoi, decimal_digits, show_decimal}

abbrev pub IsDigit : ℕ → Type 0
IsDigit c = is_digit c ≡ true

shifted-IsDigit : (d : ℕ) → d < 10 → IsDigit (b'0' + d)
unfolding is_digit
shifted-IsDigit d h = ground arith

decimal_digits-IsDigit : (k n : ℕ) → All IsDigit (decimal_digits k n)
unfolding decimal_digits
decimal_digits-IsDigit zero n = (shifted-IsDigit (n % 10) (omega arith), tt)
decimal_digits-IsDigit (suc k) n = elim (Bool-cases (ltb n 10)) [
  | inl small ↦ rw small (shifted-IsDigit n (ltb→lt n 10 small), tt)
  | inr large ↦ rw large (
      All-append IsDigit (decimal_digits k (n / 10)) _ (decimal_digits-IsDigit k (n / 10))
        (shifted-IsDigit (n % 10) (omega arith), tt))
]

atoi_digits-cons :
    (acc d : ℕ) (cs : List ℕ)
    → d < 10
    → atoi_digits acc ((b'0' + d) ∷ cs) ≡ atoi_digits (acc * 10 + d) cs
unfolding atoi_digits
atoi_digits-cons acc d cs h =
    rw (shifted-IsDigit d h) (ap (λ (v : ℕ). atoi_digits v cs) (omega arith))

-- `k` digits of fuel are enough for a number of at most `k`.
atoi_digits-decimal_digits :
    (k n : ℕ) (cs : List ℕ) → n ≤ k → atoi_digits 0 (decimal_digits k n ++ cs) ≡ atoi_digits n cs
unfolding decimal_digits
atoi_digits-decimal_digits zero n cs h =
    atoi_digits-cons 0 (n % 10) cs (omega arith) ∙ ap (λ (v : ℕ). atoi_digits v cs) (omega arith)
atoi_digits-decimal_digits (suc k) n cs h = elim (Bool-cases (ltb n 10)) [
  | inl small ↦
      rw small (
        atoi_digits-cons 0 n cs (ltb→lt n 10 small)
        ∙ ap (λ (v : ℕ). atoi_digits v cs) (omega arith))
  | inr large ↦
      rw (large, append_assoc)
        (atoi_digits-decimal_digits k (n / 10) _ (omega arith)
          ∙ atoi_digits-cons (n / 10) (n % 10) cs (omega arith)
          ∙ ap (λ (v : ℕ). atoi_digits v cs) (omega arith))
]

-- A text that begins with a digit has neither space nor sign in front.
atoi_plain : (c : ℕ) (cs : List ℕ) → IsDigit c → atoi (c ∷ cs) ≡ pos (atoi_digits 0 (c ∷ cs))
unfolding atoi is_digit
atoi_plain c cs h = ground arith

atoi_of_digits : (xs : List ℕ) → All IsDigit xs → atoi xs ≡ pos (atoi_digits 0 xs)
unfolding atoi atoi_digits
atoi_of_digits [] h = refl
atoi_of_digits (c ∷ cs) h = atoi_plain c cs h.0

-- `atoi` reads back every number that `%d` printed.
pub atoi-show_decimal : (n : ℕ) → atoi (show_decimal n) ≡ pos n
unfolding show_decimal atoi_digits
atoi-show_decimal n =
    atoi_of_digits (decimal_digits n n) (decimal_digits-IsDigit n n)
    ∙ ap pos (
        ap (atoi_digits 0) (sym (append-nil (decimal_digits n n)))
        ∙ atoi_digits-decimal_digits n n [] (omega arith))

pub show_decimal-IsDigit : (n : ℕ) → All IsDigit (show_decimal n)
unfolding show_decimal
show_decimal-IsDigit n = decimal_digits-IsDigit n n
