-- ===== src/Runner/Payload/Verdict.antt =====
-- The payload carries what OpenSSL judged, and fits the buffer `payload[2048]`.
use cmfuzz.Base.{
  ℕ, ◌+◌, ◌%◌, ◌^◌, ◌≤◌, ◌<◌, ◌≡◌, refl, sym, ap₂, ◌∙◌, arith, List, [], ◌∷◌, ◌++◌, Option, none,
  some, Bool, ◌==◌, length, length-set, length-append, some_inj, Bool-cases, Option-cases, subst,
  inl, inr, bit_and,
}
use cmfuzz.Base.Bits.{and_255}
use cmfuzz.Protocol.Payload.{Views, verify_parse}
use cmfuzz.Protocol.Payload.Laws.{field, verify_parse-layout}
use cmfuzz.Runner.Random.{rnd, rnd_bytes, length-rnd_bytes}
use cmfuzz.Runner.Payload.{
  flip_bit, flip_random, tamper_message, tamper_signature, tamper, length_field, pack_payload,
  Signer, finish_payload, sign_payload, make_payload,
}

pub length_field-field : (n : ℕ) → n < 2 ^ 16 → length_field n ≡ field n
length_field-field n h = ap₂ (λ (a b : ℕ). a ∷ b ∷ []) (omega arith) (and_255 n)

-- What the backends' parser is given: below 65536 bytes a part the casts of the length fields to a
-- byte lose nothing.
pub verify_parse-pack_payload :
    (key sig msg : List ℕ)
    → length key < 2 ^ 16
    → length sig < 2 ^ 16
    → verify_parse (pack_payload key sig msg)
      ≡ some (record { pub_key = key; sig = sig; msg = msg })
unfolding pack_payload
verify_parse-pack_payload key sig msg hk hs =
    let v : Views = record { pub_key = key; sig = sig; msg = msg } in
    ap₂ (λ (f g : List ℕ). verify_parse (f ++ (key ++ (g ++ (sig ++ msg)))))
      (length_field-field (length key) hk) (length_field-field (length sig) hs)
    ∙ verify_parse-layout v

-- The sizes and the tampering leave the lengths alone.
abbrev SameLengths : List ℕ → List ℕ → List ℕ × List ℕ → Type 0
SameLengths msg sig r = (length r.0 ≡ length msg) × (length r.1 ≡ length sig)

length-flip_random : (b : List ℕ) (s : ℕ) → length (flip_random b s).0 ≡ length b
unfolding flip_random flip_bit
length-flip_random b s = length-set b _ _

tamper-lengths : (msg sig : List ℕ) (s : ℕ) → SameLengths msg sig (tamper msg sig s).0
unfolding tamper tamper_message tamper_signature
tamper-lengths msg sig s =
    let s1 = (rnd s).1 in
    let s2 = (rnd s1).1 in
    let m = length-flip_random msg s2 in
    let g = length-flip_random sig s2 in
    elim (Bool-cases (bit_and (rnd s).0 1 == 1)) [
      | inr keep ↦ rw keep (refl, refl)
      | inl change ↦ elim (Bool-cases (bit_and (rnd s1).0 1 == 1)) [
        | inl in_msg ↦ rw (change, in_msg) (m, refl)
        | inr in_sig ↦ rw (change, in_sig) (refl, g)
      ]
    ]

pub length-pack_payload :
    (key sig msg : List ℕ)
    → length (pack_payload key sig msg) ≡ 4 + length key + length sig + length msg
unfolding pack_payload
length-pack_payload key sig msg =
    omega
      (arith, length-append key (length_field (length sig) ++ (sig ++ msg)), length-append sig msg)

-- What is sent for a key `k`: the payload of a message and a signature, with OpenSSL's verdict on
-- just these, within 2048 bytes.
abbrev pub IsJudged : Signer → List ℕ × Bool → Type 0
IsJudged k (pl, verdict) =
    (v : Views) × (verify_parse pl ≡ some v)
    × (k.public_bytes ≡ some v.pub_key)
    × (k.verdict v.msg v.sig ≡ verdict)
    × (length pl ≤ 2048)

-- The sizes that the buffers of the two functions are made for: 512 bytes for a signature and for
-- a modulus, 65 for a point.
abbrev pub FitsBuffers : Signer → Type 0
FitsBuffers k =
    ((msg sig : List ℕ) → k.sign msg ≡ some sig → length sig ≤ 512)
    × ((key : List ℕ) → k.public_bytes ≡ some key → length key ≤ 512)

finish_payload-IsJudged :
    (k : Signer) (msg sig : List ℕ) (r : List ℕ × Bool)
    → FitsBuffers k
    → length msg ≤ 200
    → length sig ≤ 512
    → finish_payload k (msg, sig) ≡ some r
    → IsJudged k r
unfolding finish_payload
finish_payload-IsJudged k msg sig r (_, fits) hm hs e = elim (Option-cases k.public_bytes) [
  | inl missing ↦ cc (sym (rw missing at e))
  | inr (key, there) ↦
      let short : length key ≤ 512 = fits key there in
      elim (Bool-cases (length key == 0)) [
        | inl empty ↦ cc (sym (rw (there, empty) at e))
        | inr full ↦
            let made : (pack_payload key sig msg, k.verdict msg sig) ≡ r =
              some_inj _ _ (rw (there, full) at e) in
            subst (IsJudged k) made (
              record { pub_key = key; sig = sig; msg = msg },
              verify_parse-pack_payload key sig msg (omega arith) (omega arith),
              there,
              refl,
              omega (arith, length-pack_payload key sig msg),
            )
      ]
]

sign_payload-IsJudged :
    (k : Signer) (msg : List ℕ) (signed : Option (List ℕ)) (s : ℕ) (r : List ℕ × Bool)
    → FitsBuffers k
    → length msg ≤ 200
    → k.sign msg ≡ signed
    → (sign_payload k msg signed s).0 ≡ some r
    → IsJudged k r
unfolding sign_payload
sign_payload-IsJudged k msg none s r fits hm hs e = cc
sign_payload-IsJudged k msg (some sig) s r fits hm hs e =
    let (m, g) = tamper-lengths msg sig s in
    let size : length sig ≤ 512 = fits.0 msg sig hs in
    finish_payload-IsJudged k (tamper msg sig s).0.0 (tamper msg sig s).0.1 r fits
      (omega (arith, m)) (omega (arith, g)) e

-- Whenever `ecdsa_make_payload` or `rsa_make_payload` returns a payload for a key (the signature
-- and the key being at most 512 bytes), the backends' parser splits that payload into the public
-- key of that key, a message and a signature such that OpenSSL's verdict on them is the verdict
-- that the runner votes with, tampered with or not; and the payload fits in 2048 bytes.
pub make_payload-IsJudged :
    (k : Signer) (s : ℕ) (r : List ℕ × Bool)
    → FitsBuffers k
    → (make_payload k s).0 ≡ some r
    → IsJudged k r
unfolding make_payload
make_payload-IsJudged k s r fits e =
    let (n, s1) = rnd s in
    let size = length-rnd_bytes (1 + n % 200) s1 in
    sign_payload-IsJudged k (rnd_bytes (1 + n % 200) s1).0 (k.sign (rnd_bytes (1 + n % 200) s1).0)
      (rnd_bytes (1 + n % 200) s1).1 r fits (omega (arith, size)) refl e
