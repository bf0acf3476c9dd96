-- ===== src/Backend/Serve.antt =====
-- What the `main` functions of harness/subproc/compute_*.c share: a request line is parsed,
-- computed and answered with one reply line, until standard input ends.
pub mod Loop
use cmfuzz.Base.{
  ℕ, zero, suc, List, [], ◌∷◌, ◌++◌, Option, none, some, Bool, true, false, ◌==◌, if◌then◌else◌,
  length, bit_xor, ltb,
}
use cmfuzz.Base.Text.{codes}
use cmfuzz.Base.Int.{ℤ, pos, negsuc}
use cmfuzz.Protocol.Stream.{c_string, getline}
use cmfuzz.Protocol.Hex.{newline, hexprint}
use cmfuzz.Protocol.Vec.{Vec, vec_parse}
use cmfuzz.Protocol.Payload.{Views, verify_parse}

-- `rc` and `na` after the switch: not implemented here, -1, or 0 with `out[0 .. n)`.
pub data Outcome : Type 0 where
  abstain : Outcome
  failed : Outcome
  computed : List ℕ → Outcome

abbrev pub outcome_of : Option (List ℕ) → Outcome
outcome_of none = failed
outcome_of (some out) = computed out

-- The reply of a verify op: `out[0] = (uint8_t)verdict; *n = 1; return 0;`.
abbrev pub verdict_reply : Bool → Outcome
verdict_reply ok = computed ((if ok then 1 else 0) ∷ [])

-- A verify op: 0 for a payload that cannot be parsed, and otherwise what the library says.
abbrev pub verify_outcome : (Views → Bool) → Vec → Outcome
verify_outcome verdict v = elim (verify_parse v.msg) [
  | none ↦ verdict_reply false
  | some p ↦ verdict_reply (verdict p)
]

-- `switch (v.op)`: no case stands for a negative op.
abbrev pub switch_op : (ℕ → Vec → Outcome) → Vec → Outcome
switch_op cases v = elim v.op [ pos op ↦ cases op v | negsuc op ↦ abstain ]

-- `if (n) out[0] ^= 0xFF;`, which a build with CMF_DIFF_FAULT does.
pub inject_fault : Bool → List ℕ → List ℕ
inject_fault true [] = []
inject_fault true (b ∷ out) = bit_xor b 0xFF ∷ out
inject_fault false out = out

-- A result that is longer than `out`: the functions above write it there without a test.
abbrev pub overflows : ℕ → Outcome → Bool
overflows room abstain = false
overflows room failed = false
overflows room (computed out) = ltb room (length out)

-- The line that is printed.
unfoldable pub reply_line : Bool → Outcome → List ℕ
unfolding inject_fault hexprint
reply_line fault abstain = codes "NA" ++ newline ∷ []
reply_line fault failed = codes "ERR" ++ newline ∷ []
reply_line fault (computed out) = hexprint (inject_fault fault out)

-- `rc` is still -1 after a line that does not parse.
abbrev pub outcome_line : (Vec → Outcome) → List ℕ → Outcome
outcome_line answer line = elim (vec_parse (c_string line)) [ none ↦ failed | some v ↦ answer v ]

-- The body of the loop.
unfoldable pub serve_line : Bool → (Vec → Outcome) → List ℕ → List ℕ
unfolding c_string reply_line
serve_line fault answer line = reply_line fault (outcome_line answer line)

-- `while ((len = getline(&line, &cap, stdin)) > 0)`, on fuel, with `room` bytes in `out`. `none` is
-- a run without fuel, or one that writes behind `out`, of which nothing is known.
unfoldable pub serve_loop : ℕ → ℕ → Bool → (Vec → Outcome) → List ℕ → Option (List ℕ)
unfolding getline serve_line
serve_loop zero room fault answer stdin = none
serve_loop (suc fuel) room fault answer stdin =
    let read = getline stdin in
    let later = serve_loop fuel room fault answer read.1 in
    if length read.0 == 0
    then some []
    else if overflows room (outcome_line answer read.0)
    then none
    else elim later [ none ↦ none | some out ↦ some (serve_line fault answer read.0 ++ out) ]

-- The whole loop: each round reads at least one byte.
unfoldable pub serve : ℕ → Bool → (Vec → Outcome) → List ℕ → Option (List ℕ)
unfolding serve_loop
serve room fault answer stdin = serve_loop (suc (length stdin)) room fault answer stdin
