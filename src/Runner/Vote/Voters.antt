-- ===== src/Runner/Vote/Voters.antt =====
-- Who votes on a vector.
use cmfuzz.Base.{
  ℕ, zero, suc, ◌+◌, ◌≡◌, refl, arith, List, [], ◌∷◌, ◌||◌, leb, if◌then◌else◌, bytes_eq, get_or,
  take, length, some,
}
use cmfuzz.Runner.Vote.{Voter, Backend, na_reply, backend_voters, other_voters}

-- The backends that answered vector `i` with something other than NA, from index `b` on.
pub answering : ℕ → ℕ → List Backend → List Voter
answering b i [] = []
answering b i (x ∷ xs) =
    let later = answering (b + 1) i xs in
    let reply = get_or x.replies i [] in
    if leb (length x.replies) i || bytes_eq reply na_reply
    then later
    else record { value = reply; name = x.name; backend = some b } ∷ later

backend_voters-take :
    (room b i : ℕ) (xs : List Backend) → backend_voters room b i xs ≡ take room (answering b i xs)
unfolding backend_voters answering
backend_voters-take zero b i [] = refl
backend_voters-take (suc room) b i [] = refl
backend_voters-take zero b i (x ∷ xs) = refl
backend_voters-take (suc room) b i (x ∷ xs) =
    ground
      (arith, backend_voters-take (suc room) (b + 1) i xs, backend_voters-take room (b + 1) i xs)

-- The voters beside the reference are the first fifteen backends that answered the vector with
-- something other than NA: all of them if there are no more, and the sixteenth and later ones are
-- not compared.
pub other_voters-take : (i : ℕ) (xs : List Backend) → other_voters i xs ≡ take 15 (answering 0 i xs)
unfolding other_voters
other_voters-take i xs = backend_voters-take 15 0 i xs
