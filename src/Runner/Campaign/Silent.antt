-- ===== src/Runner/Campaign/Silent.antt =====
-- Backends that gave NA or the reference's reply on every vector are not reported.
use cmfuzz.Base.{
  ℕ, zero, suc, ◌+◌, ◌<◌, ◌≡◌, ◌↔◌, inl, inr, sym, ◌∙◌, arith, List, [], ◌∷◌, leb, bytes_eq,
  bytes_eq_false→ne, ◌≢◌, length, get_or, All, Bool-cases,
}
use cmfuzz.Runner.Vote.{Voter, Backend, na_reply, reference_voter, backend_voters, other_voters}
use cmfuzz.Runner.Vote.Verdict.{Accepts}
use cmfuzz.Runner.Tally.{Vector}
use cmfuzz.Runner.Tally.Exit.{AllAgree}

-- A backend's reply on vector `i`, if it has one that is not NA, is `hex`.
abbrev pub Concurs : ℕ → List ℕ → Backend → Type 0
Concurs i hex b =
    i < length b.replies → get_or b.replies i [] ≢ na_reply → get_or b.replies i [] ≡ hex

backend_voters-gave :
    (hex : List ℕ) (room b i : ℕ) (xs : List Backend)
    → All (Concurs i hex) xs
    → All (λ w. w.value ≡ hex) (backend_voters room b i xs)
unfolding backend_voters
backend_voters-gave hex zero b i [] h = tt
backend_voters-gave hex (suc room) b i [] h = tt
backend_voters-gave hex zero b i (x ∷ xs) h = tt
backend_voters-gave hex (suc room) b i (x ∷ xs) h = elim (Bool-cases (leb (length x.replies) i)) [
  | inl short ↦ rw short (backend_voters-gave hex (suc room) (b + 1) i xs h.1)
  | inr long ↦ elim (Bool-cases (bytes_eq (get_or x.replies i []) na_reply)) [
    | inl na ↦ rw (long, na) (backend_voters-gave hex (suc room) (b + 1) i xs h.1)
    | inr other ↦
        rw (long, other)
          (
            h.0 (ground arith) (bytes_eq_false→ne _ _ other),
            backend_voters-gave hex room (b + 1) i xs h.1,
          )
  ]
]

gave-Accepts :
    (hex : List ℕ) (ws : List Voter)
    → All (λ w. w.value ≡ hex) ws
    → All (λ w. Accepts w ↔ Accepts (reference_voter hex)) ws
unfolding reference_voter
gave-Accepts hex [] h = tt
gave-Accepts hex (w ∷ ws) h = ((λ a. sym h.0 ∙ a, λ a. h.0 ∙ a), gave-Accepts hex ws h.1)

-- All backends concur on the vectors from number `i` on.
abbrev pub AllConcur : ℕ → List Backend → List Vector → Type 0
AllConcur i bs [] = Unit {0}
AllConcur i bs (v ∷ vs) = All (Concurs i v.ref_hex) bs × AllConcur (i + 1) bs vs

pub AllConcur-AllAgree :
    (i : ℕ) (bs : List Backend) (vs : List Vector) → AllConcur i bs vs → AllAgree i bs vs
unfolding other_voters
AllConcur-AllAgree i bs [] h = tt
AllConcur-AllAgree i bs (v ∷ vs) h =
    let gave = backend_voters-gave v.ref_hex 15 0 i bs h.0 in
    ((λ _. gave, λ _. gave-Accepts v.ref_hex _ gave), AllConcur-AllAgree (i + 1) bs vs h.1)
