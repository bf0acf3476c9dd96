-- ===== src/Runner/Vote.antt =====
-- The oracle on one vector: who votes, who is blamed. A reply is a C string, so a list of codes.
pub mod Best
pub mod Verdict
pub mod Voters
use Prim.Native.String.{String}
use cmfuzz.Base.{
  ℕ, zero, suc, ◌+◌, ◌*◌, ◌-◌, List, [], ◌∷◌, ◌++◌, Option, none, some, Bool, true, false, not,
  ◌||◌, ltb, leb, ◌==◌, if◌then◌else◌, bytes_eq, length, get_or,
}
use cmfuzz.Base.Text.{codes}

abbrev pub na_reply : List ℕ
na_reply = codes "NA"

abbrev pub accept_reply : List ℕ
accept_reply = codes "01"

-- One entry of `vv`, `vn` and `vb`: `none` is the -1 of the reference.
pub record Voter : Type 0 where
  pub value : List ℕ
  pub name : String
  pub backend : Option ℕ

-- A backend after its output was read: `replies` has `bprod` entries, `na` is `bna`.
pub record Backend : Type 0 where
  pub name : String
  pub replies : List (List ℕ)
  pub na : ℕ

abbrev pub max_voters : ℕ
max_voters = 16

-- The loop `for (b = 0; b < nb && nv < 16; b++)`: `room` is `16 - nv`, `b` the backend's index.
unfoldable pub backend_voters : ℕ → ℕ → ℕ → List Backend → List Voter
backend_voters room b i [] = []
backend_voters zero b i (x ∷ xs) = []
backend_voters (suc room) b i (x ∷ xs) =
    let reply = get_or x.replies i [] in
    let passed_over = backend_voters (suc room) (b + 1) i xs in
    let counted = backend_voters room (b + 1) i xs in
    if leb (length x.replies) i
    then passed_over
    else if bytes_eq reply na_reply
    then passed_over
    else record { value = reply; name = x.name; backend = some b } ∷ counted

unfoldable pub reference_voter : List ℕ → Voter
reference_voter hex = record { value = hex; name = "openssl"; backend = none }

-- The voters behind the reference on vector `i`.
unfoldable pub other_voters : ℕ → List Backend → List Voter
unfolding backend_voters
other_voters i backends = backend_voters (max_voters - 1) 0 i backends

-- The `CMF_VIOLATION` lines of this file: its oracle, and the voter that is named.
pub data Event : Type 0 where
  verify_mismatch : Voter → Event
  pair_mismatch : Voter → Event
  minority : Voter → Event
  no_consensus : Event

abbrev pub is_verify_op : ℕ → Bool
is_verify_op op = op == 13 || op == 14

pub accepts : Voter → Bool
accepts v = bytes_eq v.value accept_reply

abbrev pub bool_eq : Bool → Bool → Bool
bool_eq true b = b
bool_eq false b = not b

-- The verify ops: everyone whose accept bit is not the reference's.
unfoldable pub verify_events : Bool → List Voter → List Event
unfolding accepts
verify_events ref_acc [] = []
verify_events ref_acc (v ∷ vs) =
    let later = verify_events ref_acc vs in
    if bool_eq (accepts v) ref_acc then later else verify_mismatch v ∷ later

-- How many voters gave this value.
unfoldable pub count_value : List ℕ → List Voter → ℕ
count_value x [] = 0
count_value x (v ∷ vs) = (if bytes_eq x v.value then 1 else 0) + count_value x vs

-- The loop that finds `bestcount` and `vv[bestj]`; `all` are all the voters.
pub best_loop : List Voter → ℕ → List ℕ → List Voter → ℕ × List ℕ
unfolding count_value
best_loop all best_count best [] = (best_count, best)
best_loop all best_count best (v ∷ vs) =
    let c = count_value v.value all in
    let better = ltb best_count c in
    best_loop all (if better then c else best_count) (if better then v.value else best) vs

unfoldable pub minority_events : List ℕ → List Voter → List Event
minority_events maj [] = []
minority_events maj (v ∷ vs) =
    let later = minority_events maj vs in if bytes_eq v.value maj then later else minority v ∷ later

-- What follows from `bestcount` and the best value.
unfoldable pub decide_vote : ℕ × List ℕ → List Voter → List Event
decide_vote (best_count, maj) all =
    if best_count == length all
    then []
    else if leb (best_count * 2) (length all)
    then no_consensus ∷ []
    else minority_events maj all

-- Three voters or more: the majority vote.
unfoldable pub vote_events : Voter → List Voter → List Event
vote_events ref others = let all = ref ∷ others in decide_vote (best_loop all 0 ref.value all) all

-- A compute op: alone, in a pair, or by vote.
unfoldable pub compute_events : Voter → List Voter → List Event
unfolding vote_events
compute_events ref [] = []
compute_events ref (v ∷ []) = if bytes_eq v.value ref.value then [] else pair_mismatch v ∷ []
compute_events ref (v ∷ w ∷ vs) = vote_events ref (v ∷ w ∷ vs)

-- The body of the loop over the vectors.
unfoldable pub judge : ℕ → Voter → List Voter → List Event
unfolding verify_events compute_events accepts
judge op ref others =
    if is_verify_op op then verify_events (accepts ref) others else compute_events ref others
