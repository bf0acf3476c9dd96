-- ===== src/Runner/Normalize.antt =====
-- `x25519_normalize`: an all-zero shared secret and an error are one verdict.
use cmfuzz.Base.{
  ◌≤◌, Bool-cases, ℕ, ◌*◌, ◌≡◌, ◌≢◌, ◌↔◌, refl, sym, ap, ◌∙◌, arith, List, [], ◌∷◌, Bool, true,
  false, ◌&&◌, ◌==◌, if◌then◌else◌, length, replicate, inl, inr, ◌⊎◌, ==_iff,
}
use cmfuzz.Base.Text.{codes}

abbrev pub err_reply : List ℕ
err_reply = codes "ERR"

unfoldable pub all_zero_digits : List ℕ → Bool
all_zero_digits [] = true
all_zero_digits (c ∷ cs) = c == b'0' && all_zero_digits cs

unfoldable pub x25519_normalize : List ℕ → List ℕ
unfolding all_zero_digits
x25519_normalize hex =
    if length hex == 2 * 32 then (if all_zero_digits hex then err_reply else hex) else hex

-- The hex of the all-zero secret.
abbrev pub zero_secret : List ℕ
zero_secret = replicate 64 b'0'

all_zero_digits-replicate :
    (hex : List ℕ) → all_zero_digits hex ≡ true → hex ≡ replicate (length hex) b'0'
unfolding all_zero_digits
all_zero_digits-replicate [] h = refl
all_zero_digits-replicate (c ∷ cs) h = ground (arith, all_zero_digits-replicate cs)

-- The two replies that RFC 7748 permits for a degenerate peer key.
abbrev pub IsDegenerate : List ℕ → Type 0
IsDegenerate hex = (hex ≡ zero_secret) ⊎ (hex ≡ err_reply)

abbrev Folds : List ℕ → Type 0
Folds hex =
    ((hex ≡ zero_secret) × (x25519_normalize hex ≡ err_reply))
    ⊎ ((hex ≢ zero_secret) × (x25519_normalize hex ≡ hex))

fold_cases :
    (hex : List ℕ) (l z : Bool) → (length hex == 2 * 32) ≡ l → all_zero_digits hex ≡ z → Folds hex
unfolding x25519_normalize
fold_cases hex true true hl hz = inl (
  all_zero_digits-replicate hex hz
      ∙ ap (λ (n : ℕ). replicate n b'0') ((==_iff (length hex) 64).0 hl),
  rw (hl, hz),
)
fold_cases hex true false hl hz = inr (λ e. cc (sym hz ∙ ap all_zero_digits e), rw (hl, hz))
fold_cases hex false z hl hz =
    inr (λ e. cc (sym hl ∙ ap (λ (xs : List ℕ). length xs == 64) e), rw hl)

x25519_normalize-Folds : (hex : List ℕ) → Folds hex
x25519_normalize-Folds hex = fold_cases hex _ _ refl refl

-- A degenerate reply becomes ERR.
degenerate-err : (hex : List ℕ) → IsDegenerate hex → x25519_normalize hex ≡ err_reply
degenerate-err hex d = go (x25519_normalize-Folds hex) d
  where
    go : Folds hex → IsDegenerate hex → x25519_normalize hex ≡ err_reply
    go (inl (_, e)) d = e
    go (inr (ne, e)) (inl z) = absurd (ne z)
    go (inr (ne, e)) (inr r) = e ∙ r

-- After normalisation two X25519 replies compare equal exactly if they were equal, or both were
-- one of the two degenerate replies, the all-zero secret and ERR. No other difference is hidden.
pub x25519_normalize_iff :
    (a b : List ℕ)
    → (x25519_normalize a ≡ x25519_normalize b) ↔ ((a ≡ b) ⊎ (IsDegenerate a × IsDegenerate b))
x25519_normalize_iff a b = (apart (x25519_normalize-Folds a) (x25519_normalize-Folds b), together)
  where
    together : (a ≡ b) ⊎ (IsDegenerate a × IsDegenerate b) → x25519_normalize a ≡ x25519_normalize b
    together (inl e) = ap x25519_normalize e
    together (inr (da, db)) = degenerate-err a da ∙ sym (degenerate-err b db)

    apart :
        Folds a
        → Folds b
        → x25519_normalize a ≡ x25519_normalize b
        → (a ≡ b) ⊎ (IsDegenerate a × IsDegenerate b)
    apart (inl (za, ea)) (inl (zb, eb)) e = inl (za ∙ sym zb)
    apart (inl (za, ea)) (inr (nb, eb)) e = inr (inl za, inr (sym eb ∙ sym e ∙ ea))
    apart (inr (na, ea)) (inl (zb, eb)) e = inr (inr (sym ea ∙ e ∙ eb), inl zb)
    apart (inr (na, ea)) (inr (nb, eb)) e = inl (sym ea ∙ e ∙ eb)

pub length-x25519_normalize : (t : List ℕ) → length (x25519_normalize t) ≤ length t
unfolding x25519_normalize
length-x25519_normalize t = elim (Bool-cases (length t == 64)) [
  | inr other ↦ rw other (omega arith)
  | inl same ↦ elim (Bool-cases (all_zero_digits t)) [
    | inl zero ↦
        let size : length t ≡ 64 = (==_iff (length t) 64).0 same in rw (same, zero) (omega arith)
    | inr some_digit ↦ rw (same, some_digit) (omega arith)
  ]
]
