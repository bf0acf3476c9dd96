-- ===== src/Runner/Request.antt =====
-- The first loop of `main`: how one vector is drawn, what is sent for it, and what the reference
-- computes on.
pub mod Agreement
pub mod Buffers
pub mod Sizes
use cmfuzz.Base.{
  ℕ, zero, suc, ◌+◌, ◌-◌, ◌%◌, ◌/◌, ◌^◌, List, [], ◌∷◌, ◌++◌, Option, none, some, Bool, true, false,
  ◌&&◌, ◌||◌, ltb, ◌==◌, if◌then◌else◌, get_or, set, take, drop, length, replicate, bit_and,
}
use cmfuzz.Base.Text.{codes}
use cmfuzz.Protocol.Hex.{tohex}
use cmfuzz.Protocol.Vec.Request.{request_line}
use cmfuzz.Runner.OpenSsl.{OpenSsl}
use cmfuzz.Runner.Random.{M, ◌>>=◌, give, rnd, rnd_bytes}
use cmfuzz.Runner.Reference.{Input, ref_compute}
use cmfuzz.Runner.Normalize.{x25519_normalize}
use cmfuzz.Runner.Payload.{length_field}

abbrev pub num_ops : ℕ
num_ops = 27

abbrev pub boundary_len : List ℕ
boundary_len =
    0 ∷ 1 ∷ 15 ∷ 16 ∷ 17 ∷ 31 ∷ 32 ∷ 33 ∷ 55 ∷ 56 ∷ 63 ∷ 64 ∷ 65 ∷ 127 ∷ 128 ∷ 129 ∷ 255 ∷ 256 ∷ []

-- The rows of `X25519_EDGE`; a row that is not written out is filled with zeros.
abbrev pub x25519_edge : List (List ℕ)
x25519_edge =
    replicate 32 0
    ∷ (1 ∷ replicate 31 0)
    ∷ (0xe0 ∷ 0xeb ∷ 0x7a ∷ 0x7c ∷ 0x3b ∷ 0x41 ∷ 0xb8 ∷ 0xae ∷ 0x16 ∷ 0x56 ∷ 0xe3 ∷ 0xfa ∷ 0xf1
        ∷ 0x9f ∷ 0xc4 ∷ 0x6a ∷ 0xda ∷ 0x09 ∷ 0x8d ∷ 0xeb ∷ 0x9c ∷ 0x32 ∷ 0xb1 ∷ 0xfd ∷ 0x86 ∷ 0x62
        ∷ 0x05 ∷ 0x16 ∷ 0x5f ∷ 0x49 ∷ 0xb8 ∷ 0x00 ∷ [])
    ∷ (0x5f ∷ 0x9c ∷ 0x95 ∷ 0xbc ∷ 0xa3 ∷ 0x50 ∷ 0x8c ∷ 0x24 ∷ 0xb1 ∷ 0xd0 ∷ 0xb1 ∷ 0x55 ∷ 0x9c
        ∷ 0x83 ∷ 0xef ∷ 0x5b ∷ 0x04 ∷ 0x44 ∷ 0x5c ∷ 0xc4 ∷ 0x58 ∷ 0x1c ∷ 0x8e ∷ 0x86 ∷ 0xd8 ∷ 0x22
        ∷ 0x4e ∷ 0xdd ∷ 0xd0 ∷ 0x9f ∷ 0x11 ∷ 0x57 ∷ [])
    ∷ (0xec ∷ (replicate 30 0xff ++ 0x7f ∷ []))
    ∷ (0xed ∷ (replicate 30 0xff ++ 0x7f ∷ []))
    ∷ (0xee ∷ (replicate 30 0xff ++ 0x7f ∷ []))
    ∷ replicate 32 0xff
    ∷ []

-- `if (rnd() % 4 == 0) msglen = BOUNDARY_LEN[...]`, once the test is drawn.
pub pin_length : Bool → ℕ → M ℕ
pin_length true n = do j ← rnd; give (get_or boundary_len (j % 18) 0)
pin_length false n = give n

-- The message length that follows the first draw.
pub choose_length : ℕ → ℕ → M ℕ
unfolding pin_length
choose_length op n s =
    let (r, t) = rnd s in if op == 12 then (32, s) else pin_length (r % 4 == 0) n t

abbrev takes_aad : ℕ → Bool
takes_aad op = op == 3 || op == 4 || op == 9 || op == 23 || op == 24

pub choose_aad : ℕ → M ℕ
choose_aad op s = let (r, t) = rnd s in if takes_aad op then (r % 64, t) else (0, s)

-- `memcpy(blob + 46, X25519_EDGE[...], 32)`, once the test is drawn.
pub plant_edge : Bool → List ℕ → M (List ℕ)
plant_edge true tail = do j ← rnd; give (get_or x25519_edge (j % 8) [] ++ drop 32 tail)
plant_edge false tail = give tail

-- `blob[need - 1] &= 0x7F`.
pub mask_last : List ℕ → List ℕ
mask_last tail = set tail (length tail - 1) (bit_and (get_or tail (length tail - 1) 0) 0x7F)

-- What is done to the bytes behind the header on op 12.
pub adjust_tail : ℕ → List ℕ → M (List ℕ)
unfolding plant_edge mask_last
adjust_tail op tail s =
    let (r, t) = rnd s in
    let (planted, u) = plant_edge (r % 3 == 0) tail t in
    if op == 12 then (mask_last planted, u) else (tail, s)

-- A vector: the blob that is sent, and the fields that the reference computes on.
pub record Drawn : Type 0 where
  pub blob : List ℕ
  pub input : Input

abbrev pub lay_out : List ℕ → ℕ → List ℕ → Drawn
lay_out front aadlen tail = record {
  blob = front ++ (length_field aadlen ++ tail);
  input = record {
    key = take 32 front;
    nonce = take 12 (drop 32 front);
    aad = take aadlen tail;
    msg = drop aadlen tail;
  };
}

-- From the draw of the op to the finished blob, for an op that is no verify op.
pub draw_vector : ℕ → M Drawn
unfolding choose_length choose_aad adjust_tail
draw_vector op = do
  r ← rnd
  msglen ← choose_length op (r % 512)
  aadlen ← choose_aad op
  front ← rnd_bytes 44
  bytes ← rnd_bytes (aadlen + msglen)
  tail ← adjust_tail op bytes
  give (lay_out front aadlen tail)

-- The blob of a verify op: a zero header before the payload, which is empty if there is none.
unfoldable pub verify_blob : Option (List ℕ × Bool) → List ℕ
verify_blob none = replicate 46 0
verify_blob (some made) = replicate 46 0 ++ made.0

-- `refhex[i]` of a verify op.
unfoldable pub verify_reply : Option (List ℕ × Bool) → List ℕ
verify_reply none = codes "00"
verify_reply (some made) = if made.1 then codes "01" else codes "00"

abbrev pub hex_reply : Option (List ℕ) → List ℕ
hex_reply none = codes "ERR"
hex_reply (some o) = tohex o

-- `refhex[i]` of a compute op.
module _ (ssl : OpenSsl) where
  unfoldable pub reference_reply : ssl.Entropy → ℕ → Input → List ℕ
  reference_reply e op input =
      let hex = hex_reply (ref_compute ssl e op input) in
      if op == 12 then x25519_normalize hex else hex
