-- ===== src/Backend/Serve/Loop.antt =====
-- The loop ends, and prints one line for each line that it reads.
use cmfuzz.Base.{
  none, ◌↔◌, Bool-cases, Option-cases, inl, inr, some_inj, sym, ◌∙◌, All, subst, ℕ, zero, suc, ◌<◌,
  ◌≡◌, refl, arith, List, [], ◌∷◌, some, Bool, false, ◌==◌, length, All-get_or, get_or, map, ◌≢◌,
  ◌/◌, ◌^◌, bit_and,
}
use cmfuzz.Base.Text.{codes}
use cmfuzz.Protocol.Stream.{getline}
use cmfuzz.Protocol.Stream.Lines.{
  lines, join_map, getline-shorter, lines-getline, IsPlain, IsLine, lines-join_map,
}
use cmfuzz.Protocol.Hex.{newline, hex_digits, tohex, hexprint}
use cmfuzz.Protocol.Vec.{Vec}
use cmfuzz.Backend.Serve.{
  Outcome, abstain, failed, computed, overflows, reply_line, outcome_line, serve_line, getline,
  serve_loop, serve,
}

-- No line has a result that is longer than `out`.
abbrev pub AllFit : ℕ → (Vec → Outcome) → List (List ℕ) → Type 0
AllFit room answer = All (λ l. overflows room (outcome_line answer l) ≡ false)

-- Enough fuel is one more than the bytes left: every line of the input is served, in order.
serve_loop-lines :
    (fuel room : ℕ) (fault : Bool) (answer : Vec → Outcome) (stdin : List ℕ)
    → length stdin < fuel
    → AllFit room answer (lines stdin)
    → serve_loop fuel room fault answer stdin
      ≡ some (join_map (serve_line fault answer) (lines stdin))
unfolding serve_loop join_map
serve_loop-lines zero room fault answer stdin h fits = absurd (omega arith)
serve_loop-lines (suc fuel) room fault answer [] h fits = unfold getline lines in refl
serve_loop-lines (suc fuel) room fault answer (c ∷ cs) h fits =
    let (some_read, fewer) = getline-shorter c cs in
    let more : (length (getline (c ∷ cs)).0 == 0) ≡ false = ground arith in
    let each = subst (AllFit room answer) (lines-getline c cs) fits in
    let ih = serve_loop-lines fuel room fault answer (getline (c ∷ cs)).1 (omega arith) each.1 in
    rw (more, each.0, ih, lines-getline c cs) refl

digit-plain : (i : ℕ) → get_or hex_digits i 0 ≢ newline
digit-plain i = All-get_or (λ c. c ≢ newline) hex_digits i 0 (ground arith) (ground arith)

pub tohex-IsPlain : (bs : List ℕ) → IsPlain (tohex bs)
unfolding tohex
tohex-IsPlain [] = tt
tohex-IsPlain (b ∷ bs) = (digit-plain (b / 2 ^ 4), (digit-plain (bit_and b 15), tohex-IsPlain bs))

pub reply_line-IsLine : (fault : Bool) (o : Outcome) → IsLine (reply_line fault o)
unfolding reply_line hexprint
reply_line-IsLine fault abstain = (codes "NA", refl, ground arith)
reply_line-IsLine fault failed = (codes "ERR", refl, ground arith)
reply_line-IsLine fault (computed out) = (_, refl, tohex-IsPlain _)

serve_line-IsLine :
    (fault : Bool) (answer : Vec → Outcome) (l : List ℕ) → IsLine (serve_line fault answer l)
unfolding serve_line
serve_line-IsLine fault answer l = reply_line-IsLine fault (outcome_line answer l)

-- What is printed is the replies to the lines of the input.
pub serve-lines :
    (room : ℕ) (fault : Bool) (answer : Vec → Outcome) (stdin : List ℕ)
    → AllFit room answer (lines stdin)
    → serve room fault answer stdin ≡ some (join_map (serve_line fault answer) (lines stdin))
unfolding serve
serve-lines room fault answer stdin fits =
    serve_loop-lines (suc (length stdin)) room fault answer stdin (omega arith) fits

none-some : (out : List ℕ) → ¬ (none ≡ some out)
none-some out e = absurd (cc)

-- A loop that comes to its end has passed no result that does not fit.
serve_loop-printed :
    (fuel room : ℕ) (fault : Bool) (answer : Vec → Outcome) (stdin out : List ℕ)
    → length stdin < fuel
    → serve_loop fuel room fault answer stdin ≡ some out
    → AllFit room answer (lines stdin)
unfolding serve_loop
serve_loop-printed zero room fault answer stdin out h e = absurd (omega arith)
serve_loop-printed (suc fuel) room fault answer [] out h e = unfold lines in tt
serve_loop-printed (suc fuel) room fault answer (c ∷ cs) out h e =
    let (some_read, fewer) = getline-shorter c cs in
    let more : (length (getline (c ∷ cs)).0 == 0) ≡ false = ground arith in
    let read = getline (c ∷ cs) in
    elim (Bool-cases (overflows room (outcome_line answer read.0))) [
      | inl over ↦ absurd (none-some out (sym (rw (more, over) refl) ∙ e))
      | inr few ↦ elim (Option-cases (serve_loop fuel room fault answer read.1)) [
        | inl nothing ↦ absurd (none-some out (sym (rw (more, few, nothing) refl) ∙ e))
        | inr (later, printed) ↦
            subst (AllFit room answer) (sym (lines-getline c cs))
              (few, serve_loop-printed fuel room fault answer read.1 later (omega arith) printed)
      ]
    ]

-- What a loop that has come to its end printed is the replies.
pub serve-printed :
    (room : ℕ) (fault : Bool) (answer : Vec → Outcome) (stdin out : List ℕ)
    → serve room fault answer stdin ≡ some out
    → join_map (serve_line fault answer) (lines stdin) ≡ out
unfolding serve
serve-printed room fault answer stdin out e =
    let fits =
      serve_loop-printed (suc (length stdin)) room fault answer stdin out (omega arith) e in
    some_inj _ _ (sym (serve-lines room fault answer stdin fits) ∙ e)

-- The loop of a compute program comes to its end exactly if no line of the input has a result that is
-- longer than the array `out`. What it prints is then one reply line for each line of the input, in
-- the same order, each the reply to that line alone: replies stay in step with requests also where a
-- line does not parse, an op is not offered or a computation fails.
pub serve-lockstep :
    (room : ℕ) (fault : Bool) (answer : Vec → Outcome) (stdin : List ℕ)
    → AllFit room answer (lines stdin) ↔ (
        (out : List ℕ) × (serve room fault answer stdin ≡ some out)
        × (lines out ≡ map (serve_line fault answer) (lines stdin)))
unfolding serve
serve-lockstep room fault answer stdin = (
  λ fits. (
    join_map (serve_line fault answer) (lines stdin),
    serve-lines room fault answer stdin fits,
    lines-join_map (serve_line fault answer) (serve_line-IsLine fault answer) (lines stdin),
  ),
  λ ended.
      serve_loop-printed (suc (length stdin)) room fault answer stdin ended.0 (omega arith) ended.1,
)
