-- ===== src/Protocol/Stream/Lines.antt =====
-- A stream and its lines.
use cmfuzz.Base.{
  ℕ, ◌≤◌, ◌<◌, ◌≡◌, ◌≢◌, refl, sym, ap, ◌∙◌, arith, List, [], ◌∷◌, ◌++◌, false, ◌==◌, if◌then◌else◌,
  length, Bool-cases, inl, inr, append_assoc, All, map,
}
use cmfuzz.Protocol.Hex.{newline}
use cmfuzz.Protocol.Stream.{getline}

-- A text cut behind each newline.
unfoldable pub lines : List ℕ → List (List ℕ)
lines [] = []
lines (c ∷ cs) =
    let later = lines cs in
    if c == newline
    then (c ∷ []) ∷ later
    else elim later [ [] ↦ (c ∷ []) ∷ [] | line ∷ more ↦ (c ∷ line) ∷ more ]

unfoldable pub join_map : (List ℕ → List ℕ) → List (List ℕ) → List ℕ
join_map f [] = []
join_map f (l ∷ ls) = f l ++ join_map f ls

-- A line is never empty, and what it leaves is shorter.
pub getline-shorter :
    (c : ℕ) (cs : List ℕ)
    → (0 < length (getline (c ∷ cs)).0) × (length (getline (c ∷ cs)).1 ≤ length cs)
unfolding getline
getline-shorter c [] = ground arith
getline-shorter c (d ∷ cs) = ground (arith, getline-shorter d cs)

pub lines-getline :
    (c : ℕ) (cs : List ℕ) → lines (c ∷ cs) ≡ (getline (c ∷ cs)).0 ∷ lines (getline (c ∷ cs)).1
unfolding lines getline
lines-getline c [] = ground arith
lines-getline c (d ∷ cs) = elim (Bool-cases (c == newline)) [
  | inl e ↦ rw e refl
  | inr e ↦ rw (e, lines-getline d cs) refl
]

-- A text without a newline.
abbrev pub IsPlain : List ℕ → Type 0
IsPlain = All (λ c. c ≢ newline)

pub lines-plain :
    (body rest : List ℕ)
    → IsPlain body
    → lines (body ++ (newline ∷ rest)) ≡ (body ++ newline ∷ []) ∷ lines rest
unfolding lines
lines-plain [] rest h = refl
lines-plain (c ∷ cs) rest h =
    let other : (c == newline) ≡ false = ground (arith, h.0) in
    rw (other, lines-plain cs rest h.1) refl

abbrev pub IsLine : List ℕ → Type 0
IsLine l = (body : List ℕ) × (l ≡ body ++ newline ∷ []) × IsPlain body

pub lines-IsLine : (l rest : List ℕ) → IsLine l → lines (l ++ rest) ≡ l ∷ lines rest
lines-IsLine l rest (body, whole, plain) =
    ap (λ (t : List ℕ). lines (t ++ rest)) whole
    ∙ ap lines (append_assoc body (newline ∷ []) rest)
    ∙ lines-plain body rest plain
    ∙ ap (λ (t : List ℕ). t ∷ lines rest) (sym whole)

pub lines-join_map :
    (f : List ℕ → List ℕ)
    → ((l : List ℕ) → IsLine (f l))
    → (ls : List (List ℕ)) → lines (join_map f ls) ≡ map f ls
unfolding join_map
lines-join_map f h [] = unfold lines in refl
lines-join_map f h (l ∷ ls) =
    lines-IsLine (f l) (join_map f ls) (h l) ∙ ap (◌∷◌ (f l)) (lines-join_map f h ls)
