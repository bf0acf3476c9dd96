-- ===== src/Runner/Campaign/Agreement.antt =====
-- Backends that keep the contract are never reported.
use cmfuzz.Base.{
  ℕ, zero, suc, ◌+◌, ◌≤◌, ◌≡◌, ◌≢◌, inl, inr, refl, sym, ap, ◌∙◌, arith, List, [], ◌∷◌, some, false,
  get_or, drop, All, map, subst, ◌⊎◌,
}
use cmfuzz.Protocol.Vec.{Vec}
use cmfuzz.Protocol.Ops.{Primitives, promised}
use cmfuzz.Backend.Serve.{Outcome, overflows, switch_op, serve}
use cmfuzz.Backend.Contract.{Owes, IsSent, offers}
use cmfuzz.Runner.Vote.{Backend, na_reply}
use cmfuzz.Runner.Tally.Exit.{exit_status_iff}
use cmfuzz.Runner.Collect.{collect}
use cmfuzz.Runner.Collect.Text.{IsPrintable, printed, stored_reply, replies-printed}
use cmfuzz.Runner.Campaign.{Made, requests, vector_of, Program, run_backend, run_status}
use cmfuzz.Runner.Campaign.Served.{Carries, serve-requests}
use cmfuzz.Runner.Campaign.Stored.{expected, FitsReply, stored-Owes, Owes-IsPrintable, Owes-fits}
use cmfuzz.Runner.Campaign.Silent.{Concurs, AllConcur, AllConcur-AllAgree}

-- A vector whose request carries the fields that the reference's reply is about.
pub record IsSound (p : Primitives) (m : Made) (v : Vec) : Type 0 where
  pub carries : Carries m v
  pub sent : IsSent m.op v
  pub fits : FitsReply (promised p m.op v)
  pub reference : m.ref_hex ≡ expected p m.op v

-- A backend that runs the shared loop over a switch that keeps the contract. What it does after
-- writing behind `out` is left open.
pub record Follows (p : Primitives) (b : Program) : Type 0 where
  pub missing : List ℕ
  pub cases : ℕ → Vec → Outcome
  pub room : ℕ
  pub enough : 4149 ≤ room
  pub serves :
      (stdin out : List ℕ)
      → serve room false (switch_op cases) stdin ≡ some out
      → b.process stdin ≡ out
  pub owes : (v : Vec) (op : ℕ) → IsSent op v → Owes (offers missing op) p op v (cases op v)

abbrev pub Sounds : Primitives → List (Made × Vec) → Type 0
Sounds p = All (λ x. IsSound p x.0 x.1)

abbrev outcomes : (ℕ → Vec → Outcome) → List (Made × Vec) → List (ℕ × Outcome)
outcomes cases = map (λ x. (x.0.op, cases x.0.op x.1))

-- Each stored reply is NA or the reference's.
abbrev IsAnswer : List ℕ → List ℕ → Type 0
IsAnswer hex reply = (reply ≡ na_reply) ⊎ (reply ≡ hex)

abbrev Answers : List (Made × Vec) → List (List ℕ) → Type 0
Answers [] [] = Unit {0}
Answers [] (r ∷ rs) = ⊥
Answers (x ∷ xs) [] = ⊥
Answers (x ∷ xs) (r ∷ rs) = IsAnswer x.0.ref_hex r × Answers xs rs

module _ (p : Primitives) (b : Program) (follows : Follows p b) where
  abbrev outcome : Made × Vec → ℕ × Outcome
  outcome x = (x.0.op, follows.cases x.0.op x.1)

  printable : (xs : List (Made × Vec)) → Sounds p xs → All (λ y. IsPrintable y.1) (map outcome xs)
  printable [] h = tt
  printable ((m, v) ∷ xs) h = (
    Owes-IsPrintable (offers follows.missing m.op) p m.op v (follows.cases m.op v) h.0.fits
        (follows.owes v m.op h.0.sent),
    printable xs h.1,
  )

  replies-Answers :
      (xs : List (Made × Vec)) → Sounds p xs → Answers xs (map stored_reply (map outcome xs))
  replies-Answers [] h = tt
  replies-Answers ((m, v) ∷ xs) h =
      let cases =
        stored-Owes (offers follows.missing m.op) p m.op v (follows.cases m.op v) h.0.fits
          (follows.owes v m.op h.0.sent) in
      (
        elim cases [ inl na ↦ inl na | inr same ↦ inr (same ∙ sym h.0.reference) ],
        replies-Answers xs h.1,
      )

  carried : (xs : List (Made × Vec)) → Sounds p xs → All (λ x. Carries x.0 x.1) xs
  carried [] h = tt
  carried (x ∷ xs) h = (h.0.carries, carried xs h.1)

  all_fit :
      (xs : List (Made × Vec))
      → Sounds p xs
      → All (λ x. overflows follows.room (follows.cases x.0.op x.1) ≡ false) xs
  all_fit [] h = tt
  all_fit ((m, v) ∷ xs) h = (
    Owes-fits follows.room (offers follows.missing m.op) p m.op v (follows.cases m.op v)
        follows.enough h.0.fits (follows.owes v m.op h.0.sent),
    all_fit xs h.1,
  )

  ops_of :
      (xs : List (Made × Vec))
      → map (λ m. m.op) (map (λ x. x.0) xs) ≡ map (λ y. y.0) (map outcome xs)
  ops_of [] = refl
  ops_of (x ∷ xs) = ap (◌∷◌ x.0.op) (ops_of xs)

  replies_of :
      (xs : List (Made × Vec))
      → Sounds p xs
      → (run_backend (map (λ x. x.0) xs) b).replies ≡ map stored_reply (map outcome xs)
  replies_of xs h =
      let made = map (λ x. x.0) xs in
      let prints : b.process (requests made) ≡ printed (map outcome xs) =
        follows.serves (requests made) _
          (serve-requests follows.cases follows.room xs (carried xs h) (all_fit xs h)) in
      ap (λ (out : List ℕ). (collect (map (λ m. m.op) made) out).replies) prints
      ∙ ap (λ (ops : List ℕ). (collect ops (printed (map outcome xs))).replies) (ops_of xs)
      ∙ replies-printed (map outcome xs) (printable xs h)

-- The replies of a backend from number `i` on.
Answers-Concurs :
    (x : Made × Vec) (xs : List (Made × Vec)) (i : ℕ) (rs : List (List ℕ))
    → Answers (x ∷ xs) (drop i rs)
    → get_or rs i [] ≢ na_reply
    → get_or rs i [] ≡ x.0.ref_hex
Answers-Concurs x xs zero (r ∷ rs) h other = elim h.0 [
  | inl na ↦ absurd (other na)
  | inr same ↦ same
]
Answers-Concurs x xs zero [] h other = elim h [ ]
Answers-Concurs x xs (suc i) [] h other = elim h [ ]
Answers-Concurs x xs (suc i) (r ∷ rs) h other = Answers-Concurs x xs i rs h other

Answers-later :
    (x : Made × Vec) (xs : List (Made × Vec)) (i : ℕ) (rs : List (List ℕ))
    → Answers (x ∷ xs) (drop i rs)
    → Answers xs (drop (suc i) rs)
Answers-later x xs zero (r ∷ rs) h = h.1
Answers-later x xs zero [] h = elim h [ ]
Answers-later x xs (suc i) [] h = elim h [ ]
Answers-later x xs (suc i) (r ∷ rs) h = Answers-later x xs i rs h

abbrev AllAnswer : ℕ → List (Made × Vec) → List Backend → Type 0
AllAnswer i xs = All (λ b. Answers xs (drop i b.replies))

all-Concurs :
    (x : Made × Vec) (xs : List (Made × Vec)) (i : ℕ) (bs : List Backend)
    → AllAnswer i (x ∷ xs) bs
    → All (Concurs i x.0.ref_hex) bs
all-Concurs x xs i [] h = tt
all-Concurs x xs i (b ∷ bs) h =
    (λ _ other. Answers-Concurs x xs i b.replies h.0 other, all-Concurs x xs i bs h.1)

all-later :
    (x : Made × Vec) (xs : List (Made × Vec)) (i : ℕ) (bs : List Backend)
    → AllAnswer i (x ∷ xs) bs
    → AllAnswer (i + 1) xs bs
all-later x xs i [] h = tt
all-later x xs i (b ∷ bs) h =
    let next : suc i ≡ i + 1 = omega arith in
    (
      subst (λ (j : ℕ). Answers xs (drop j b.replies)) next (Answers-later x xs i b.replies h.0),
      all-later x xs i bs h.1,
    )

answer-AllConcur :
    (i : ℕ) (xs : List (Made × Vec)) (bs : List Backend)
    → AllAnswer i xs bs
    → AllConcur i bs (map vector_of (map (λ x. x.0) xs))
answer-AllConcur i [] bs h = tt
answer-AllConcur i (x ∷ xs) bs h =
    (all-Concurs x xs i bs h, answer-AllConcur (i + 1) xs bs (all-later x xs i bs h))

all-answer :
    (p : Primitives) (xs : List (Made × Vec)) (programs : List Program)
    → Sounds p xs
    → All (Follows p) programs
    → AllAnswer 0 xs (map (run_backend (map (λ x. x.0) xs)) programs)
all-answer p xs [] h k = tt
all-answer p xs (b ∷ bs) h k = (
  subst (Answers xs) (sym (replies_of p b k.0 xs h)) (replies-Answers p b k.0 xs h),
  all-answer p xs bs h k.1,
)

-- On sound vectors, whatever the backends are that keep the contract, and however many, the runner
-- exits with 0.
pub run_status-zero :
    (p : Primitives) (xs : List (Made × Vec)) (programs : List Program)
    → Sounds p xs
    → All (Follows p) programs
    → run_status (map (λ x. x.0) xs) programs ≡ 0
run_status-zero p xs programs h k =
    let bs = map (run_backend (map (λ x. x.0) xs)) programs in
    let vs = map vector_of (map (λ x. x.0) xs) in
    (exit_status_iff bs vs).1
      (AllConcur-AllAgree 0 bs vs (answer-AllConcur 0 xs bs (all-answer p xs programs h k)))
