-- ===== src/Runner/Campaign/Served.antt =====
-- What a backend that follows the protocol prints for the runner's requests.
use cmfuzz.Base.{
  subst, ℕ, ◌≤◌, ◌≡◌, ◌≢◌, refl, sym, ap, ap₂, ◌∙◌, arith, List, [], ◌∷◌, ◌++◌, Option, none, some,
  false, All, All-append, append_assoc, map,
}
use cmfuzz.Base.Int.{ℤ, pos, negsuc}
use cmfuzz.Engine.Prng.{IsByte}
use cmfuzz.Protocol.Hex.{newline, tohex}
use cmfuzz.Protocol.Decimal.{is_digit, show_decimal}
use cmfuzz.Protocol.Decimal.RoundTrip.{IsDigit, show_decimal-IsDigit}
use cmfuzz.Protocol.Stream.{c_string}
use cmfuzz.Protocol.Stream.Lines.{lines, join_map, IsLine, lines-IsLine}
use cmfuzz.Protocol.Vec.{Vec, vec_parse}
use cmfuzz.Protocol.Vec.Request.{request_line}
use cmfuzz.Backend.Serve.{
  Outcome, abstain, failed, overflows, outcome_line, reply_line, serve_line, switch_op, serve,
}
use cmfuzz.Backend.Serve.Loop.{AllFit, serve-lines}
use cmfuzz.Runner.Collect.Text.{tohex-IsText, printed}
use cmfuzz.Runner.Campaign.{Made, requests}

abbrev IsShown : ℕ → Type 0
IsShown c = (c ≢ 0) × (c ≢ newline)

All-weaken : (P Q : ℕ → Type 0) → ((c : ℕ) → P c → Q c) → (xs : List ℕ) → All P xs → All Q xs
All-weaken P Q f [] h = tt
All-weaken P Q f (x ∷ xs) h = (f x h.0, All-weaken P Q f xs h.1)

-- A request line without its newline.
abbrev request_body : ℕ → List ℕ → List ℕ
request_body op blob = show_decimal op ++ (b' ' ∷ tohex blob)

request_line-body :
    (op : ℕ) (blob : List ℕ) → request_line op blob ≡ request_body op blob ++ newline ∷ []
unfolding request_line
request_line-body op blob = sym (append_assoc (show_decimal op) (b' ' ∷ tohex blob) (newline ∷ []))

request_body-IsShown :
    (op : ℕ) (blob : List ℕ) → All IsByte blob → All IsShown (request_body op blob)
unfolding is_digit
request_body-IsShown op blob h =
    All-append IsShown (show_decimal op) (b' ' ∷ tohex blob)
      (All-weaken IsDigit IsShown (λ c d. ground arith) (show_decimal op) (show_decimal-IsDigit op))
      (
        ground arith,
        All-weaken (λ c. 48 ≤ c) IsShown (λ c d. ground arith) (tohex blob) (tohex-IsText blob h),
      )

c_string-shown : (t : List ℕ) → All IsShown t → c_string (t ++ newline ∷ []) ≡ t ++ newline ∷ []
unfolding c_string
c_string-shown [] h = refl
c_string-shown (c ∷ cs) h = ground (arith, h.0.0, c_string-shown cs h.1)

request_line-IsLine : (op : ℕ) (blob : List ℕ) → All IsByte blob → IsLine (request_line op blob)
request_line-IsLine op blob h = (
  request_body op blob,
  request_line-body op blob,
  All-weaken IsShown (λ c. c ≢ newline) (λ c d. d.1) (request_body op blob)
      (request_body-IsShown op blob h),
)

request_line-c_string :
    (op : ℕ) (blob : List ℕ)
    → All IsByte blob
    → c_string (request_line op blob) ≡ request_line op blob
request_line-c_string op blob h =
    ap c_string (request_line-body op blob)
    ∙ c_string-shown (request_body op blob) (request_body-IsShown op blob h)
    ∙ sym (request_line-body op blob)

-- The requests as lines, and the replies to them.
lines-requests :
    (ms : List Made)
    → All (λ m. All IsByte m.blob) ms
    → lines (requests ms) ≡ map (λ m. request_line m.op m.blob) ms
unfolding requests
lines-requests [] h = unfold lines in refl
lines-requests (m ∷ ms) h =
    lines-IsLine (request_line m.op m.blob) (requests ms) (request_line-IsLine m.op m.blob h.0)
    ∙ ap (◌∷◌ (request_line m.op m.blob)) (lines-requests ms h.1)

-- The fields that a request carries.
abbrev pub Carries : Made → Vec → Type 0
Carries m v =
    (vec_parse (request_line m.op m.blob) ≡ some v) × (v.op ≡ pos m.op) × All IsByte m.blob

module _ (cases : ℕ → Vec → Outcome) where
  outcome_line-request :
      (m : Made) (v : Vec)
      → Carries m v
      → outcome_line (switch_op cases) (request_line m.op m.blob) ≡ cases m.op v
  outcome_line-request m v (parses, op, bytes) =
      ap (λ (o : Option Vec). elim o [ none ↦ failed | some w ↦ switch_op cases w ])
        (ap vec_parse (request_line-c_string m.op m.blob bytes) ∙ parses)
      ∙ ap (λ (z : ℤ). elim z [ pos n ↦ cases n v | negsuc n ↦ abstain ]) op

  serve_line-request :
      (m : Made) (v : Vec)
      → Carries m v
      → serve_line false (switch_op cases) (request_line m.op m.blob)
        ≡ reply_line false (cases m.op v)
  unfolding serve_line
  serve_line-request m v carries = ap (reply_line false) (outcome_line-request m v carries)

  -- The requests for some vectors, each with the fields that it carries: what is printed is the
  -- reply to each, on its own line and in order, if the results fit.
  pub serve-requests :
      (room : ℕ) (xs : List (Made × Vec))
      → All (λ x. Carries x.0 x.1) xs
      → All (λ x. overflows room (cases x.0.op x.1) ≡ false) xs
      → serve room false (switch_op cases) (requests (map (λ x. x.0) xs))
        ≡ some (printed (map (λ x. (x.0.op, cases x.0.op x.1)) xs))
  unfolding join_map printed
  serve-requests room xs h few =
      serve-lines room false (switch_op cases) (requests (map (λ x. x.0) xs)) (
        subst (AllFit room (switch_op cases))
          (sym (lines-requests (map (λ x. x.0) xs) (bytes_of xs h))) (all_fit xs h few))
      ∙ ap (λ (ls : List (List ℕ)). some (join_map (serve_line false (switch_op cases)) ls))
          (lines-requests (map (λ x. x.0) xs) (bytes_of xs h))
      ∙ ap some (each xs h)
    where
      bytes_of :
          (ys : List (Made × Vec))
          → All (λ x. Carries x.0 x.1) ys
          → All (λ m. All IsByte m.blob) (map (λ x. x.0) ys)
      bytes_of [] k = tt
      bytes_of (y ∷ ys) k = (k.0.2, bytes_of ys k.1)

      all_fit :
          (ys : List (Made × Vec))
          → All (λ x. Carries x.0 x.1) ys
          → All (λ x. overflows room (cases x.0.op x.1) ≡ false) ys
          → AllFit room (switch_op cases) (map (λ m. request_line m.op m.blob) (map (λ x. x.0) ys))
      all_fit [] k f = tt
      all_fit (y ∷ ys) k f =
          (ap (overflows room) (outcome_line-request y.0 y.1 k.0) ∙ f.0, all_fit ys k.1 f.1)

      each :
          (ys : List (Made × Vec))
          → All (λ x. Carries x.0 x.1) ys
          → join_map
              (serve_line false (switch_op cases))
              (map (λ m. request_line m.op m.blob) (map (λ x. x.0) ys))
            ≡ printed (map (λ x. (x.0.op, cases x.0.op x.1)) ys)
      each [] k = refl
      each (y ∷ ys) k = ap₂ ◌++◌ (serve_line-request y.0 y.1 k.0) (each ys k.1)
