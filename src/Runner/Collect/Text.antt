-- ===== src/Runner/Collect/Text.antt =====
-- What a backend prints is what the runner reads.
use cmfuzz.Base.{
  ℕ, ◌≤◌, ◌<◌, ◌≡◌, refl, ap, ◌∙◌, arith, List, [], ◌∷◌, ◌++◌, Bool, true, false, ◌==◌, ◌&&◌, leb,
  length, All, map,
}
use cmfuzz.Base.Tables.{passes_below, test_below}
use cmfuzz.Base.Text.{codes}
use cmfuzz.Engine.Prng.{IsByte}
use cmfuzz.Protocol.Hex.{newline, high_digit, low_digit, tohex, hexprint}
use cmfuzz.Protocol.Stream.{c_string, getline}
use cmfuzz.Backend.Serve.{Outcome, abstain, failed, computed, reply_line}
use cmfuzz.Runner.Collect.{cut_line, reply_text, collect, stored}

-- Characters that can stand in a reply: from '0' on.
abbrev pub IsText : List ℕ → Type 0
IsText = All (λ c. 48 ≤ c)

digit_text : ℕ → Bool
digit_text b = leb 48 (high_digit b) && leb 48 (low_digit b)

digit_text_table : passes_below digit_text 256 ≡ true
unfolding passes_below digit_text
digit_text_table = refl

digit_text-above : (b : ℕ) → b < 256 → (48 ≤ high_digit b) × (48 ≤ low_digit b)
unfolding digit_text
digit_text-above b h = ground (arith, test_below digit_text 256 digit_text_table b h)

pub tohex-IsText : (bs : List ℕ) → All IsByte bs → IsText (tohex bs)
unfolding tohex
tohex-IsText [] h = tt
tohex-IsText (b ∷ bs) h =
    let (high, low) = digit_text-above b h.0 in (high, (low, tohex-IsText bs h.1))

c_string-text : (t : List ℕ) → IsText t → c_string (t ++ newline ∷ []) ≡ t ++ newline ∷ []
unfolding c_string
c_string-text [] h = refl
c_string-text (c ∷ cs) h = ground (arith, c_string-text cs h.1)

cut_line-text : (t : List ℕ) → IsText t → cut_line (t ++ newline ∷ []) ≡ t
unfolding cut_line
cut_line-text [] h = refl
cut_line-text (c ∷ cs) h = ground (arith, cut_line-text cs h.1)

reply_text-line : (t : List ℕ) → IsText t → reply_text (t ++ newline ∷ []) ≡ t
reply_text-line t h = ap cut_line (c_string-text t h) ∙ cut_line-text t h

getline-text :
    (t rest : List ℕ) → IsText t → getline ((t ++ newline ∷ []) ++ rest) ≡ (t ++ newline ∷ [], rest)
unfolding getline
getline-text [] rest h = refl
getline-text (c ∷ cs) rest h =
    let other : (c == newline) ≡ false = ground arith in rw (other, getline-text cs rest h.1) refl

-- What a reply says, without its newline.
abbrev pub text_of : Outcome → List ℕ
text_of abstain = codes "NA"
text_of failed = codes "ERR"
text_of (computed out) = tohex out

abbrev pub IsPrintable : Outcome → Type 0
IsPrintable abstain = Unit {0}
IsPrintable failed = Unit {0}
IsPrintable (computed out) = All IsByte out

text_of-IsText : (o : Outcome) → IsPrintable o → IsText (text_of o)
text_of-IsText abstain h = omega arith
text_of-IsText failed h = omega arith
text_of-IsText (computed out) h = tohex-IsText out h

reply_line-text_of : (o : Outcome) → reply_line false o ≡ text_of o ++ newline ∷ []
unfolding reply_line hexprint
reply_line-text_of abstain = refl
reply_line-text_of failed = refl
reply_line-text_of (computed out) = refl

length-text_line : (t : List ℕ) → (length (t ++ newline ∷ []) == 0) ≡ false
length-text_line [] = ground arith
length-text_line (c ∷ cs) = ground arith

-- The replies to requests with these ops.
unfoldable pub printed : List (ℕ × Outcome) → List ℕ
printed [] = []
printed (x ∷ xs) = reply_line false x.1 ++ printed xs

abbrev pub stored_reply : ℕ × Outcome → List ℕ
stored_reply x = stored x.0 (text_of x.1)

pub replies-printed :
    (xs : List (ℕ × Outcome))
    → All (λ x. IsPrintable x.1) xs
    → (collect (map (λ x. x.0) xs) (printed xs)).replies ≡ map stored_reply xs
unfolding collect printed
replies-printed [] h = refl
replies-printed ((op, o) ∷ xs) (here, h) =
    let t = text_of o in
    let is_text = text_of-IsText o here in
    rw
      (
        reply_line-text_of o,
        getline-text t (printed xs) is_text,
        length-text_line t,
        reply_text-line t is_text,
        replies-printed xs h,
      )
      refl
