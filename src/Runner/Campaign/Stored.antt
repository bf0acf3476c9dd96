-- ===== src/Runner/Campaign/Stored.antt =====
-- What is stored for a backend that keeps the contract is NA or the reference's reply.
use cmfuzz.Base.{
  ℕ, ◌≤◌, ◌<◌, ◌≡◌, ◌⊎◌, inl, inr, refl, sym, ap, ◌∙◌, arith, List, [], ◌∷◌, Bool, true, false,
  ◌==◌, not, if◌then◌else◌, bytes_eq, length, take_all, replicate, All, Bool-cases,
}
use cmfuzz.Base.Tables.{passes_below, test_below}
use cmfuzz.Engine.Prng.{IsByte}
use cmfuzz.Protocol.Hex.{high_digit, tohex}
use cmfuzz.Protocol.Hex.RoundTrip.{length-tohex}
use cmfuzz.Protocol.Vec.{Vec}
use cmfuzz.Protocol.Ops.{Primitives, promised}
use cmfuzz.Backend.Serve.{Outcome, overflows}
use cmfuzz.Backend.Contract.{Fulfils, Owes}
use cmfuzz.Runner.Normalize.{x25519_normalize, length-x25519_normalize, all_zero_digits, err_reply}
use cmfuzz.Runner.Vote.{na_reply}
use cmfuzz.Runner.Collect.{stored, reply_room}
use cmfuzz.Runner.Collect.Text.{text_of, IsPrintable}

abbrev pub folded : ℕ → List ℕ → List ℕ
folded op text = if op == 12 then x25519_normalize text else text

-- The reply that everyone who computes the op has to give.
abbrev pub expected : Primitives → ℕ → Vec → List ℕ
expected p op v = folded op (tohex (promised p op v))

-- A result that fits an entry of `bo` as hex.
abbrev pub FitsReply : List ℕ → Type 0
FitsReply out = All IsByte out × (length out ≤ 4149)

no_n : ℕ → Bool
no_n b = not (high_digit b == b'N')

no_n_table : passes_below no_n 256 ≡ true
unfolding passes_below no_n
no_n_table = refl

high_digit-no_n : (b : ℕ) → b < 256 → (high_digit b == b'N') ≡ false
unfolding no_n
high_digit-no_n b h = ground (arith, test_below no_n 256 no_n_table b h)

tohex-no_na : (out : List ℕ) → All IsByte out → bytes_eq (tohex out) na_reply ≡ false
unfolding bytes_eq tohex
tohex-no_na [] h = refl
tohex-no_na (b ∷ bs) h = rw (high_digit-no_n b h.0) refl

length-folded : (op : ℕ) (t : List ℕ) → length t ≤ 8298 → length (folded op t) ≤ reply_room
length-folded op t h = elim (Bool-cases (op == 12)) [
  | inr other ↦ rw other (omega arith)
  | inl same ↦ rw same (omega (arith, length-x25519_normalize t))
]

stored-tohex :
    (op : ℕ) (out : List ℕ) → FitsReply out → stored op (tohex out) ≡ folded op (tohex out)
unfolding stored
stored-tohex op out (bytes, short) =
    let size : length (tohex out) ≤ 8298 = omega (arith, length-tohex out) in
    rw (tohex-no_na out bytes)
      (take_all reply_room (folded op (tohex out)) (length-folded op (tohex out) size))

stored-failed : (op : ℕ) → op ≡ 12 → stored op err_reply ≡ err_reply
unfolding stored x25519_normalize bytes_eq
stored-failed op e = rw e refl

folded_zero : (op : ℕ) (t : List ℕ) → op ≡ 12 → t ≡ tohex (replicate 32 0) → folded op t ≡ err_reply
unfolding x25519_normalize all_zero_digits tohex
folded_zero op t e z = rw (e, z) refl

stored-Fulfils :
    (p : Primitives) (op : ℕ) (v : Vec) (o : Outcome)
    → FitsReply (promised p op v)
    → Fulfils p op v o
    → stored op (text_of o) ≡ expected p op v
stored-Fulfils p op v o fits (inl e) =
    ap (λ (x : Outcome). stored op (text_of x)) e ∙ stored-tohex op (promised p op v) fits
stored-Fulfils p op v o fits (inr (twelve, zero, e)) =
    ap (λ (x : Outcome). stored op (text_of x)) e
    ∙ stored-failed op twelve
    ∙ sym (folded_zero op (tohex (promised p op v)) twelve (ap tohex zero))

stored-na_reply : (op : ℕ) → stored op na_reply ≡ na_reply
unfolding stored bytes_eq
stored-na_reply op = refl

folded-failed : (op : ℕ) → op ≡ 12 → folded op err_reply ≡ err_reply
unfolding x25519_normalize
folded-failed op e = rw e refl

-- What the reference says, when it computes what is promised.
pub folded-Fulfils :
    (p : Primitives) (op : ℕ) (v : Vec) (o : Outcome)
    → Fulfils p op v o
    → folded op (text_of o) ≡ expected p op v
folded-Fulfils p op v o (inl e) = ap (λ (x : Outcome). folded op (text_of x)) e
folded-Fulfils p op v o (inr (twelve, zero, e)) =
    ap (λ (x : Outcome). folded op (text_of x)) e
    ∙ folded-failed op twelve
    ∙ sym (folded_zero op (tohex (promised p op v)) twelve (ap tohex zero))

-- What is stored for an answer that is owed: the expected reply, or NA where the op is not offered.
pub stored-Owes :
    (offered : Bool) (p : Primitives) (op : ℕ) (v : Vec) (o : Outcome)
    → FitsReply (promised p op v)
    → Owes offered p op v o
    → (stored op (text_of o) ≡ na_reply) ⊎ (stored op (text_of o) ≡ expected p op v)
stored-Owes true p op v o fits owes = inr (stored-Fulfils p op v o fits owes)
stored-Owes false p op v o fits owes =
    inl (ap (λ (x : Outcome). stored op (text_of x)) owes ∙ stored-na_reply op)

pub Owes-IsPrintable :
    (offered : Bool) (p : Primitives) (op : ℕ) (v : Vec) (o : Outcome)
    → FitsReply (promised p op v)
    → Owes offered p op v o
    → IsPrintable o
Owes-IsPrintable true p op v o fits (inl e) = rw e fits.0
Owes-IsPrintable true p op v o fits (inr (twelve, zero, e)) = rw e tt
Owes-IsPrintable false p op v o fits owes = rw owes tt

-- An answer that is owed fits `out`.
pub Owes-fits :
    (room : ℕ) (offered : Bool) (p : Primitives) (op : ℕ) (v : Vec) (o : Outcome)
    → 4149 ≤ room
    → FitsReply (promised p op v)
    → Owes offered p op v o
    → overflows room o ≡ false
Owes-fits room true p op v o enough fits (inl e) = rw e (ground (arith, fits.1))
Owes-fits room true p op v o enough fits (inr (twelve, zero, e)) = rw e refl
Owes-fits room false p op v o enough fits owes = rw owes refl
