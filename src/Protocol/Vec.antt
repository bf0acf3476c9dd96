-- ===== src/Protocol/Vec.antt =====
-- `cmf_vec_t` and `cmf_vec_parse`: one request line.
pub mod Laws
pub mod Request
use cmfuzz.Base.{
  ℕ, zero, suc, ◌+◌, ◌-◌, ◌*◌, ◌^◌, bit_or, List, [], ◌∷◌, ◌++◌, Option, none, some, ltb, leb, ◌==◌,
  if◌then◌else◌, get_or, take, drop, length, replicate,
}
use cmfuzz.Base.Int.{ℤ}
use cmfuzz.Protocol.Hex.{hexdecode}
use cmfuzz.Protocol.Decimal.{atoi}

abbrev pub keylen : ℕ
keylen = 32

abbrev pub noncelen : ℕ
noncelen = 12

abbrev pub taglen : ℕ
taglen = 16

abbrev pub header_len : ℕ
header_len = keylen + noncelen + 2

-- `cmf_vec_t`; the lengths are those of the lists, and `blob` is the backing store.
pub record Vec : Type 0 where
  pub op : ℤ
  pub key : List ℕ
  pub nonce : List ℕ
  pub aad : List ℕ
  pub msg : List ℕ
  pub blob : List ℕ

-- `strchr(line, ' ')`: what stands before and behind the first space.
pub split_space : List ℕ → Option (List ℕ × List ℕ)
split_space [] = none
split_space (c ∷ cs) =
    let later = split_space cs in
    if c == b' '
    then some ([], cs)
    else elim later [ none ↦ none | some (front, back) ↦ some (c ∷ front, back) ]

-- `((size_t)p[0] << 8) | p[1]`.
abbrev pub be16 : List ℕ → ℕ → ℕ
be16 p off = bit_or (get_or p off 0 * 2 ^ 8) (get_or p (off + 1) 0)

-- A blob too short for the header is all message, under a zero key and nonce.
pub short_vec : ℤ → List ℕ → Vec
short_vec op blob = record {
  op = op;
  key = replicate keylen 0;
  nonce = replicate noncelen 0;
  aad = [];
  msg = blob;
  blob = blob;
}

-- The length of the additional data: the header's, cut to what the blob holds.
pub aad_length : List ℕ → ℕ
aad_length blob =
    let wanted = be16 blob (keylen + noncelen) in
    let rest = length blob - header_len in if ltb rest wanted then rest else wanted

pub long_vec : ℤ → List ℕ → Vec
unfolding aad_length
long_vec op blob = record {
  op = op;
  key = take keylen blob;
  nonce = take noncelen (drop keylen blob);
  aad = take (aad_length blob) (drop header_len blob);
  msg = drop (aad_length blob) (drop header_len blob);
  blob = blob;
}

unfoldable pub fill_vec : ℤ → List ℕ → Vec
unfolding short_vec long_vec
fill_vec op blob = if ltb (length blob) header_len then short_vec op blob else long_vec op blob

-- `cmf_vec_parse`; `none` is the -1.
unfoldable pub vec_parse : List ℕ → Option Vec
unfolding split_space fill_vec
vec_parse line = elim (split_space line) [
  | none ↦ none
  | some (front, back) ↦ elim (hexdecode back) [
    | none ↦ none
    | some blob ↦ some (fill_vec (atoi front) blob)
  ]
]
