-- ===== src/Runner/Campaign.antt =====
-- `main` from its arguments to its exit status: the vectors, the backends' output, the vote. What a
-- backend prints for its input is a function here: processes and files are not modelled.
pub mod Served
pub mod Stored
pub mod Silent
pub mod Agreement
pub mod Sound
pub mod Vectors
use Prim.Native.String.{String}
use cmfuzz.Base.{
  ℕ, zero, suc, ◌+◌, ◌%◌, List, [], ◌∷◌, ◌++◌, Option, none, some, Bool, ◌==◌, if◌then◌else◌, map,
}
use cmfuzz.Protocol.Vec.Request.{request_line}
use cmfuzz.Runner.OpenSsl.{OpenSsl}
use cmfuzz.Runner.Random.{M, ◌>>=◌, give, rnd}
use cmfuzz.Runner.Request.{num_ops, Drawn, draw_vector, verify_blob, verify_reply, reference_reply}
use cmfuzz.Runner.Payload.{Keys, ecdsa_make_payload, rsa_make_payload}
use cmfuzz.Runner.Vote.{Backend}
use cmfuzz.Runner.Tally.{Vector, exit_status}
use cmfuzz.Runner.Collect.{collect}

-- One vector: `ops[i]`, the blob of its request line, and `refhex[i]`.
pub record Made : Type 0 where
  pub op : ℕ
  pub blob : List ℕ
  pub ref_hex : List ℕ

abbrev pub verify_vector : ℕ → Option (List ℕ × Bool) → Made
verify_vector op made = record { op = op; blob = verify_blob made; ref_hex = verify_reply made }

module _ (ssl : OpenSsl) where
  abbrev pub compute_vector : ssl.Entropy → ℕ → Drawn → Made
  compute_vector e op d = record {
    op = op;
    blob = d.blob;
    ref_hex = reference_reply ssl e op d.input;
  }

  abbrev pub make_ecdsa : ssl.Entropy → Keys ssl → M (Made × Keys ssl)
  make_ecdsa e keys = do r ← ecdsa_make_payload ssl e keys; give (verify_vector 13 r.0, r.1)

  abbrev pub make_rsa : ssl.Entropy → Keys ssl → M (Made × Keys ssl)
  make_rsa e keys = do r ← rsa_make_payload ssl e keys; give (verify_vector 14 r.0, r.1)

  abbrev pub make_compute : ssl.Entropy → ℕ → Keys ssl → M (Made × Keys ssl)
  make_compute e op keys = do d ← draw_vector op; give (compute_vector e op d, keys)

  -- The body of the loop, once the op is drawn.
  unfoldable pub make_op : ssl.Entropy → ℕ → Keys ssl → M (Made × Keys ssl)
  make_op e op keys =
      if op == 13
      then make_ecdsa e keys
      else if op == 14
      then make_rsa e keys
      else make_compute e op keys

  unfoldable pub make_vector : ssl.Entropy → Keys ssl → M (Made × Keys ssl)
  unfolding make_op
  make_vector e keys = do r ← rnd; make_op e (r % num_ops) keys

  -- `for (long i = 0; i < N; i++)`: `es i` is what the library draws for vector `i`.
  unfoldable pub make_vectors : (ℕ → ssl.Entropy) → ℕ → ℕ → Keys ssl → M (List Made)
  unfolding make_vector
  make_vectors es i zero keys = give []
  make_vectors es i (suc n) keys = do
    made ← make_vector (es i) keys
    later ← make_vectors es (i + 1) n made.1
    give (made.0 ∷ later)

-- The request file.
unfoldable pub requests : List Made → List ℕ
requests [] = []
requests (m ∷ ms) = request_line m.op m.blob ++ requests ms

abbrev pub vector_of : Made → Vector
vector_of m = record { op = m.op; ref_hex = m.ref_hex }

-- A backend: its name, and what it prints for its input.
pub record Program : Type 0 where
  pub name : String
  pub process : List ℕ → List ℕ

abbrev pub run_backend : List Made → Program → Backend
run_backend made b =
    let read = collect (map (λ m. m.op) made) (b.process (requests made)) in
    record { name = b.name; replies = read.replies; na = read.na }

abbrev pub run_status : List Made → List Program → ℕ
run_status made programs = exit_status (map (run_backend made) programs) (map vector_of made)

-- `main` for a number of vectors, a seed and the backends.
module _ (ssl : OpenSsl) where
  abbrev pub no_keys : Keys ssl
  no_keys = record { ecdsa_key = none; rsa_key = none }

  unfoldable pub runner_main : (ℕ → ssl.Entropy) → ℕ → ℕ → List Program → ℕ
  unfolding make_vectors requests
  runner_main es n seed programs = run_status (make_vectors ssl es 0 n no_keys seed).0 programs
