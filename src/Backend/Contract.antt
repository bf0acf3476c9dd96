-- ===== src/Backend/Contract.antt =====
-- What a backend owes the runner, by the comment of compute_common.h.
use cmfuzz.Base.{
  take, length-take, ℕ, ◌≡◌, refl, sym, ap, ◌<◌, ◌≤◌, ◌^◌, ◌⊎◌, List, [], ◌∷◌, Bool, true, false,
  not, ◌&&◌, ◌||◌, ◌==◌, ltb, replicate, length, All, inl, inr, if◌then◌else◌, arith, Option, none,
  some, bytes_eq, bytes_eq→eq, Bool-cases, ◌∙◌,
}
use cmfuzz.Engine.Prng.{IsByte}
use cmfuzz.Protocol.Names.{
  Cipher, key_bytes, chacha20_poly1305, aes_128_gcm, aes_192_gcm, aes_256_gcm, aes_256_cbc,
}
use cmfuzz.Protocol.Vec.{Vec}
use cmfuzz.Protocol.Ops.{Primitives, promised, judged, verdict_byte}
use cmfuzz.Protocol.Payload.{Views, verify_parse}
use cmfuzz.Backend.Serve.{
  Outcome, abstain, failed, computed, outcome_of, verdict_reply, verify_outcome,
}

abbrev pub among : ℕ → List ℕ → Bool
among op [] = false
among op (x ∷ xs) = op == x || among op xs

-- The ops of a backend that leaves out those of a list.
abbrev pub offers : List ℕ → ℕ → Bool
offers missing op = ltb op 27 && not (among op missing)

-- The promised bytes. Only for X25519 a library may refuse the all-zero secret instead.
abbrev pub Fulfils : Primitives → ℕ → Vec → Outcome → Type 0
Fulfils p op v o =
    (o ≡ computed (promised p op v))
    ⊎ ((op ≡ 12) × (promised p op v ≡ replicate 32 0) × (o ≡ failed))

abbrev pub Owes : Bool → Primitives → ℕ → Vec → Outcome → Type 0
Owes true p op v o = Fulfils p op v o
Owes false p op v o = o ≡ abstain

-- A request with its key, of less than 2 ^ 31 bytes.
abbrev pub HasKey : Vec → Type 0
HasKey v =
    (length v.key ≡ 32) × All IsByte v.key × (length v.msg < 2 ^ 31) × (length v.aad < 2 ^ 31)

-- The sizes that the manuals ask for: the cipher's key, and a nonce of 96 bits.
abbrev pub AreSealable : Cipher → (key nonce aad msg : List ℕ) → Type 0
AreSealable c key nonce aad msg =
    (length key ≡ key_bytes c) × (length nonce ≡ 12) × (length aad < 2 ^ 31) × (length msg < 2 ^ 31)

-- Additional data that is skipped if empty, where an update with no bytes changes nothing.
pub skip_empty :
    {C : Type 0} (c : C) (update : List ℕ → C) (aad : List ℕ)
    → update [] ≡ c
    → (if length aad == 0 then c else update aad) ≡ update aad
skip_empty c update [] e = sym e
skip_empty c update (x ∷ xs) e = ground arith

pub verify_outcome-judged :
    (verdict : Views → Bool) (ok : List ℕ → List ℕ → List ℕ → Bool) (v : Vec)
    → ((p : Views) → verify_parse v.msg ≡ some p → verdict p ≡ ok p.pub_key p.sig p.msg)
    → verify_outcome verdict v ≡ computed (judged ok v)
verify_outcome-judged verdict ok v h = by_views (verify_parse v.msg) h
  where
    by_views :
        (o : Option Views)
        → ((p : Views) → o ≡ some p → verdict p ≡ ok p.pub_key p.sig p.msg)
        → elim o [ none ↦ verdict_reply false | some p ↦ verdict_reply (verdict p) ]
          ≡ computed (elim o [
            | none ↦ verdict_byte false
            | some p ↦ verdict_byte (ok p.pub_key p.sig p.msg)
          ])
    by_views none k = refl
    by_views (some p) k = ap verdict_reply (k p refl)

-- X25519 of a library that refuses the all-zero secret.
pub refuses_zero :
    (p : Primitives) (op : ℕ) (v : Vec) (out : List ℕ)
    → op ≡ 12
    → promised p op v ≡ out
    → Fulfils p op v (outcome_of (if bytes_eq out (replicate 32 0) then none else some out))
refuses_zero p op v out e same = elim (Bool-cases (bytes_eq out (replicate 32 0))) [
  | inl zero ↦ rw zero (inr (e, same ∙ bytes_eq→eq out (replicate 32 0) zero, refl))
  | inr other ↦ rw other (inl (ap computed (sym same)))
]

-- A request as the runner sends it: bytes, and at most 2048 of them in a message.
pub record IsRequest (v : Vec) : Type 0 where
  pub has_key : HasKey v
  pub nonce_bytes : All IsByte v.nonce × (length v.nonce ≡ 12)
  pub aad_bytes : All IsByte v.aad × (length v.aad ≤ 63)
  pub msg_bytes : All IsByte v.msg × (length v.msg ≤ 2048)

-- A request for an op as the runner sends it: an X25519 peer is whole.
pub record IsSent (op : ℕ) (v : Vec) : Type 0 where
  pub request : IsRequest v
  pub whole_peer : op ≡ 12 → 32 ≤ length v.msg

key_bytes-small : (c : Cipher) → key_bytes c ≤ 32
key_bytes-small chacha20_poly1305 = omega arith
key_bytes-small aes_128_gcm = omega arith
key_bytes-small aes_192_gcm = omega arith
key_bytes-small aes_256_gcm = omega arith
key_bytes-small aes_256_cbc = omega arith

-- A request's fields have the sizes for every cipher.
pub IsSent-AreSealable :
    (op : ℕ) (v : Vec)
    → IsSent op v
    → (c : Cipher) → AreSealable c (take (key_bytes c) v.key) v.nonce v.aad v.msg
IsSent-AreSealable op v sent c = (
  omega (arith, length-take (key_bytes c) v.key, key_bytes-small c, sent.request.has_key),
  sent.request.nonce_bytes.1,
  omega (arith, sent.request.has_key),
  omega (arith, sent.request.has_key),
)

-- The peer's key of an X25519 request.
pub peer_size : (v : Vec) → 32 ≤ length v.msg → length (take 32 v.msg) ≡ 32
peer_size v h = omega (arith, length-take 32 v.msg)
