-- ===== src/Runner/Payload/Bytes.antt =====
-- A payload is made of bytes if the keys and signatures are.
use cmfuzz.Base.{
  ℕ, ◌+◌, ◌%◌, ◌≡◌, refl, sym, arith, List, some, none, Bool, ◌==◌, All, All-append, All-set,
  All-get_or, Bool-cases, Option-cases, some_inj, inl, inr, subst, bit_and, length, get_or, Option,
}
use cmfuzz.Base.Bits.{xor_lt, and_255}
use cmfuzz.Engine.Prng.{IsByte}
use cmfuzz.Runner.Random.{rnd, rnd_bytes, rnd_bytes-IsByte}
use cmfuzz.Runner.Payload.{
  flip_bit, flip_random, tamper_message, tamper_signature, tamper, length_field, pack_payload,
  Signer, finish_payload, sign_payload, make_payload,
}

-- The signatures and the key are bytes.
abbrev pub GivesBytes : Signer → Type 0
GivesBytes k =
    ((msg sig : List ℕ) → k.sign msg ≡ some sig → All IsByte sig)
    × ((key : List ℕ) → k.public_bytes ≡ some key → All IsByte key)

flip_random-IsByte : (b : List ℕ) (s : ℕ) → All IsByte b → All IsByte (flip_random b s).0
unfolding flip_random flip_bit
flip_random-IsByte b s h =
    let i : ℕ = (rnd s).0 % length b in
    All-set IsByte b i _ h
      (xor_lt 8 (get_or b i 0) _ (All-get_or IsByte b i 0 h (omega arith)) (omega arith))

tamper-IsByte :
    (msg sig : List ℕ) (s : ℕ)
    → All IsByte msg
    → All IsByte sig
    → All IsByte (tamper msg sig s).0.0 × All IsByte (tamper msg sig s).0.1
unfolding tamper tamper_message tamper_signature
tamper-IsByte msg sig s hm hs =
    let s1 = (rnd s).1 in
    let s2 = (rnd s1).1 in
    elim (Bool-cases (bit_and (rnd s).0 1 == 1)) [
      | inr keep ↦ rw keep (hm, hs)
      | inl change ↦ elim (Bool-cases (bit_and (rnd s1).0 1 == 1)) [
        | inl in_msg ↦ rw (change, in_msg) (flip_random-IsByte msg s2 hm, hs)
        | inr in_sig ↦ rw (change, in_sig) (hm, flip_random-IsByte sig s2 hs)
      ]
    ]

length_field-IsByte : (n : ℕ) → All IsByte (length_field n)
length_field-IsByte n = (omega arith, (omega (arith, and_255 n), tt))

pack_payload-IsByte :
    (key sig msg : List ℕ)
    → All IsByte key
    → All IsByte sig
    → All IsByte msg
    → All IsByte (pack_payload key sig msg)
unfolding pack_payload
pack_payload-IsByte key sig msg hk hs hm =
    All-append IsByte (length_field (length key)) _ (length_field-IsByte (length key)) (
      All-append IsByte key _ hk (
        All-append IsByte (length_field (length sig)) _ (length_field-IsByte (length sig))
          (All-append IsByte sig msg hs hm)))

finish_payload-IsByte :
    (k : Signer) (msg sig : List ℕ) (r : List ℕ × Bool)
    → GivesBytes k
    → All IsByte msg
    → All IsByte sig
    → finish_payload k (msg, sig) ≡ some r
    → All IsByte r.0
unfolding finish_payload
finish_payload-IsByte k msg sig r gives hm hs e = elim (Option-cases k.public_bytes) [
  | inl missing ↦ cc (sym (rw missing at e))
  | inr (key, there) ↦ elim (Bool-cases (length key == 0)) [
    | inl empty ↦ cc (sym (rw (there, empty) at e))
    | inr full ↦
        let made : (pack_payload key sig msg, k.verdict msg sig) ≡ r =
          some_inj _ _ (rw (there, full) at e) in
        subst (λ (x : List ℕ × Bool). All IsByte x.0) made
          (pack_payload-IsByte key sig msg (gives.1 key there) hs hm)
  ]
]

sign_payload-IsByte :
    (k : Signer) (msg : List ℕ) (signed : Option (List ℕ)) (s : ℕ) (r : List ℕ × Bool)
    → GivesBytes k
    → All IsByte msg
    → k.sign msg ≡ signed
    → (sign_payload k msg signed s).0 ≡ some r
    → All IsByte r.0
unfolding sign_payload
sign_payload-IsByte k msg none s r gives hm hs e = cc
sign_payload-IsByte k msg (some sig) s r gives hm hs e =
    let (m, g) = tamper-IsByte msg sig s hm (gives.0 msg sig hs) in
    finish_payload-IsByte k (tamper msg sig s).0.0 (tamper msg sig s).0.1 r gives m g e

-- What is sent in a payload is bytes.
pub make_payload-IsByte :
    (k : Signer) (s : ℕ) (r : List ℕ × Bool)
    → GivesBytes k
    → (make_payload k s).0 ≡ some r
    → All IsByte r.0
unfolding make_payload
make_payload-IsByte k s r gives e =
    let (n, s1) = rnd s in
    let msg = (rnd_bytes (1 + n % 200) s1).0 in
    sign_payload-IsByte k msg (k.sign msg) (rnd_bytes (1 + n % 200) s1).1 r gives
      (rnd_bytes-IsByte (1 + n % 200) s1) refl e
