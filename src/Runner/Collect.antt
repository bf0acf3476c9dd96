-- ===== src/Runner/Collect.antt =====
-- How the runner reads what a backend printed.
pub mod Text
use cmfuzz.Base.{
  ℕ, ◌+◌, List, [], ◌∷◌, Bool, ◌||◌, ◌&&◌, ◌==◌, if◌then◌else◌, bytes_eq, length, take,
}
use cmfuzz.Protocol.Hex.{newline, carriage_return, is_nil}
use cmfuzz.Protocol.Stream.{c_string, getline}
use cmfuzz.Runner.Normalize.{x25519_normalize}
use cmfuzz.Runner.Vote.{na_reply}

abbrev pub ends_line : ℕ → Bool
ends_line c = c == newline || c == carriage_return

-- `while (ll && (line[ll-1]=='\n' || line[ll-1]=='\r')) line[--ll] = '\0';`
unfoldable pub cut_line : List ℕ → List ℕ
cut_line [] = []
cut_line (c ∷ cs) = let cut = cut_line cs in if is_nil cut && ends_line c then [] else c ∷ cut

abbrev pub reply_text : List ℕ → List ℕ
reply_text line = cut_line (c_string line)

-- An entry of `bo` holds 8299 characters and a NUL.
abbrev pub reply_room : ℕ
reply_room = 8299

-- What is stored for a line: NA as it is, and on op 12 the normalised reply.
unfoldable pub stored : ℕ → List ℕ → List ℕ
stored op text =
    if bytes_eq text na_reply
    then na_reply
    else take reply_room (if op == 12 then x25519_normalize text else text)

-- `bo[b]` up to `bprod[b]`, and `bna[b]`.
pub record Collected : Type 0 where
  pub replies : List (List ℕ)
  pub na : ℕ

abbrev pub nothing : Collected
nothing = record { replies = []; na = 0 }

abbrev pub add_reply : ℕ → List ℕ → Collected → Collected
add_reply op text later = record {
  replies = stored op text ∷ later.replies;
  na = (if bytes_eq text na_reply then 1 else 0) + later.na;
}

-- `while (i < N && getline(&line, &cap, p) > 0)`, over the ops of the vectors left.
unfoldable pub collect : List ℕ → List ℕ → Collected
unfolding cut_line stored
collect [] pipe = nothing
collect (op ∷ ops) pipe =
    let read = getline pipe in
    let later = collect ops read.1 in
    if length read.0 == 0 then nothing else add_reply op (reply_text read.0) later
