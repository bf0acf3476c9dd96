-- ===== src/Protocol/Vec/Laws.antt =====
-- The views that `cmf_vec_parse` hands out, and the length that it takes for the additional data.
use cmfuzz.Base.{
  ℕ, zero, suc, ◌+◌, ◌-◌, ◌*◌, ◌∷◌, ◌≤◌, ◌<◌, ◌≡◌, refl, sym, ap, subst, ◌∙◌, arith, List, [], ◌++◌,
  Option, none, some, ltb, get_or, take, drop, length, length-take, length-drop, take-append-drop,
  drop-drop, ltb→lt, some_inj, All, All-get_or, Bool-cases, inl, inr, ◌⊎◌,
}
use cmfuzz.Base.Int.{ℤ}
use cmfuzz.Base.Bits.{or_shift}
use cmfuzz.Engine.Prng.{IsByte}
use cmfuzz.Protocol.Hex.{hexdecode}
use cmfuzz.Protocol.Hex.RoundTrip.{hexdecode-IsByte}
use cmfuzz.Protocol.Decimal.{atoi}
use cmfuzz.Protocol.Vec.{
  keylen, noncelen, header_len, Vec, split_space, be16, short_vec, aad_length, long_vec, fill_vec,
  vec_parse,
}

pub be16-sum :
    (p : List ℕ) (off : ℕ) → All IsByte p → be16 p off ≡ get_or p off 0 * 256 + get_or p (off + 1) 0
be16-sum p off h =
    or_shift 8 (get_or p off 0) (get_or p (off + 1) 0)
      (All-get_or IsByte p (off + 1) 0 h (omega arith))

-- A blob shorter than the header is all message, without additional data.
abbrev pub IsShort : Vec → Type 0
IsShort v = (length v.blob < header_len) × (v.msg ≡ v.blob) × (v.aad ≡ [])

-- Otherwise key, nonce, a big-endian field of two bytes, additional data and message make up the
-- blob in this order. The length taken for the additional data lies within the blob and is that of
-- the view; it is the field's number, or all that is left where the field asks for more.
abbrev pub IsLong : Vec → Type 0
IsLong v =
    (high : ℕ) × (low : ℕ) × (v.blob ≡ v.key ++ (v.nonce ++ (high ∷ low ∷ v.aad ++ v.msg)))
    × (header_len + aad_length v.blob ≤ length v.blob)
    × (length v.aad ≡ aad_length v.blob)
    × ((length v.aad ≡ high * 256 + low) ⊎ ((length v.aad < high * 256 + low) × (v.msg ≡ [])))

pub record IsWell (v : Vec) : Type 0 where
  pub key_size : length v.key ≡ keylen
  pub nonce_size : length v.nonce ≡ noncelen
  pub bytes : All IsByte v.blob
  pub views : IsShort v ⊎ IsLong v

drop-get_or : (n : ℕ) (b : List ℕ) → n < length b → drop n b ≡ get_or b n 0 ∷ drop (suc n) b
drop-get_or n [] h = absurd (omega arith)
drop-get_or zero (x ∷ xs) h = refl
drop-get_or (suc n) (x ∷ xs) h = drop-get_or n xs (omega arith)

split_blob :
    (a : ℕ) (b : List ℕ)
    → 46 ≤ length b
    → b
      ≡ take 32 b
        ++ (take 12 (drop 32 b)
            ++ (get_or b 44 0 ∷ get_or b 45 0 ∷ take a (drop 46 b) ++ drop a (drop 46 b)))
split_blob a b h =
    let tail : drop 44 b
        ≡ get_or b 44 0 ∷ get_or b 45 0 ∷ take a (drop 46 b) ++ drop a (drop 46 b) =
      drop-get_or 44 b (omega arith)
      ∙ ap (◌∷◌ (get_or b 44 0)) (
          drop-get_or 45 b (omega arith)
          ∙ ap (◌∷◌ (get_or b 45 0)) (sym (take-append-drop a (drop 46 b)))) in
    let mid : drop 32 b ≡ take 12 (drop 32 b) ++ drop 44 b =
      sym (take-append-drop 12 (drop 32 b))
      ∙ ap (◌++◌ (take 12 (drop 32 b))) (drop-drop 32 12 44 b (omega arith)) in
    sym (take-append-drop 32 b) ∙ ap (◌++◌ (take 32 b)) (mid ∙ ap (◌++◌ (take 12 (drop 32 b))) tail)

-- The number that the code takes is the field's, or the room left if the field asks for more.
aad_length_cases :
    (b : List ℕ)
    → All IsByte b
    → ((aad_length b ≡ get_or b 44 0 * 256 + get_or b 45 0)
        × (aad_length b ≤ length b - header_len))
      ⊎ ((aad_length b < get_or b 44 0 * 256 + get_or b 45 0)
          × (aad_length b ≡ length b - header_len))
unfolding aad_length
aad_length_cases b h =
    let field = be16-sum b 44 h in
    elim (Bool-cases (ltb (length b - header_len) (be16 b 44))) [
      | inl cut ↦ rw cut (inr (omega (arith, field, ltb→lt _ _ cut), refl))
      | inr fits ↦
          let room : be16 b 44 ≤ length b - header_len = ground (arith, fits) in
          rw fits (inl (field, room))
    ]

nothing_left : (xs : List ℕ) → length xs ≡ 0 → xs ≡ []
nothing_left [] e = refl
nothing_left (x ∷ xs) e = absurd (omega arith)

long_vec-IsLong :
    (op : ℤ) (b : List ℕ) → All IsByte b → header_len ≤ length b → IsLong (long_vec op b)
unfolding long_vec
long_vec-IsLong op b h room =
    let behind = length-drop 46 b in
    let size : length (take (aad_length b) (drop 46 b)) ≡ aad_length b =
      elim (aad_length_cases b h) [
        | inl (_, least) ↦ omega (arith, length-take (aad_length b) (drop 46 b), behind)
        | inr (_, all) ↦ omega (arith, length-take (aad_length b) (drop 46 b), behind)
      ] in
    let inside : 46 + aad_length b ≤ length b = elim (aad_length_cases b h) [
      | inl (_, least) ↦ omega arith
      | inr (_, all) ↦ omega arith
    ] in
    (
      get_or b 44 0,
      get_or b 45 0,
      split_blob (aad_length b) b room,
      inside,
      size,
      elim (aad_length_cases b h) [
        | inl (same, _) ↦ inl (size ∙ same)
        | inr (less, all) ↦ inr (
          omega arith,
          nothing_left _ (omega (arith, length-drop (aad_length b) (drop 46 b), behind)),
        )
      ],
    )

fill_vec-IsWell : (op : ℤ) (b : List ℕ) → All IsByte b → IsWell (fill_vec op b)
unfolding fill_vec short_vec long_vec
fill_vec-IsWell op b h = elim (Bool-cases (ltb (length b) header_len)) [
  | inl short ↦ rw short (record {
    key_size = refl;
    nonce_size = refl;
    bytes = h;
    views = inl (ltb→lt _ _ short, refl, refl);
  })
  | inr long ↦
      let room : 46 ≤ length b = ground arith in
      rw long (record {
        key_size = omega (arith, length-take 32 b);
        nonce_size = omega (arith, length-take 12 (drop 32 b), length-drop 32 b);
        bytes = h;
        views = inr (long_vec-IsLong op b h room);
      })
]

-- Whatever request line `cmf_vec_parse` accepts, the key has 32 bytes, the nonce 12, and the decoded
-- blob is bytes. A blob of fewer than 46 bytes is all message. Any other blob is key, nonce, a field
-- of two bytes, additional data and message in this order; the length taken for the additional data
-- does not reach behind the blob, is the length of the view, and is the field's big-endian number, or
-- the whole rest, leaving no message, where the field asks for more.
pub vec_parse-IsWell : (line : List ℕ) {v : Vec} → vec_parse line ≡ some v → IsWell v
unfolding vec_parse
vec_parse-IsWell line e = go (split_space line) e
  where
    decoded :
        (front back : List ℕ) (o : Option (List ℕ)) {v : Vec}
        → hexdecode back ≡ o
        → elim o [ none ↦ none | some blob ↦ some (fill_vec (atoi front) blob) ] ≡ some v
        → IsWell v
    decoded front back none q e = cc
    decoded front back (some blob) q e =
        subst IsWell (some_inj _ _ e) (fill_vec-IsWell (atoi front) blob (hexdecode-IsByte back q))

    go :
        (o : Option (List ℕ × List ℕ)) {v : Vec}
        → elim o [
          | none ↦ none
          | some (front, back) ↦ elim (hexdecode back) [
            | none ↦ none
            | some blob ↦ some (fill_vec (atoi front) blob)
          ]
        ]
          ≡ some v
        → IsWell v
    go none e = cc
    go (some (front, back)) e = decoded front back (hexdecode back) refl e
