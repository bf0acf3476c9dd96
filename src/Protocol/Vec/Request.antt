-- ===== src/Protocol/Vec/Request.antt =====
-- What a request line that the runner printed parses to.
use cmfuzz.Base.{
  ℕ, ◌+◌, ◌-◌, ◌≡◌, append_assoc, refl, sym, ap, ap₂, ◌∙◌, arith, List, [], ◌∷◌, ◌++◌, some, false,
  ltb, ◌==◌, take, drop, length, length-append, take-append, drop-append, drop-drop, All,
}
use cmfuzz.Base.Int.{ℤ, pos}
use cmfuzz.Engine.Prng.{IsByte}
use cmfuzz.Protocol.Hex.{tohex, newline, hexdecode}
use cmfuzz.Protocol.Hex.RoundTrip.{hexdecode-tohex, newline-IsTrailing}
use cmfuzz.Protocol.Decimal.{is_digit, show_decimal, atoi}
use cmfuzz.Protocol.Decimal.RoundTrip.{IsDigit, show_decimal-IsDigit, atoi-show_decimal}
use cmfuzz.Protocol.Payload.Laws.{field, be16-field}
use cmfuzz.Protocol.Vec.{Vec, split_space, be16, aad_length, long_vec, fill_vec, vec_parse}

-- `fprintf(rf, "%d ", op)`, the digits of the blob, and `fputc('\n', rf)`.
unfoldable pub request_line : ℕ → List ℕ → List ℕ
request_line op blob = show_decimal op ++ (b' ' ∷ (tohex blob ++ newline ∷ []))

split_space-digits :
    (ds rest : List ℕ) → All IsDigit ds → split_space (ds ++ (b' ' ∷ rest)) ≡ some (ds, rest)
unfolding split_space is_digit
split_space-digits [] rest h = refl
split_space-digits (d ∷ ds) rest h =
    let other : (d == b' ') ≡ false = ground arith in
    rw (other, split_space-digits ds rest h.1) refl

vec_parse_of :
    (line front back b : List ℕ)
    → split_space line ≡ some (front, back)
    → hexdecode back ≡ some b
    → vec_parse line ≡ some (fill_vec (atoi front) b)
unfolding vec_parse
vec_parse_of line front back b split decoded = rw (split, decoded, vec_parse) refl

-- A blob as the runner lays it out.
abbrev pub blob_of : List ℕ → List ℕ → List ℕ → List ℕ → List ℕ
blob_of key nonce aad msg = key ++ (nonce ++ (field (length aad) ++ (aad ++ msg)))

-- What the parser has to make of it.
abbrev pub parsed : ℕ → List ℕ → List ℕ → List ℕ → List ℕ → Vec
parsed op key nonce aad msg = record {
  op = pos op;
  key = key;
  nonce = nonce;
  aad = aad;
  msg = msg;
  blob = blob_of key nonce aad msg;
}

module _ (key nonce aad msg : List ℕ) (key_size : length key ≡ 32)
    (nonce_size : length nonce ≡ 12) where
  abbrev blob : List ℕ
  blob = blob_of key nonce aad msg

  abbrev behind : List ℕ
  behind = field (length aad) ++ (aad ++ msg)

  length-blob : length blob ≡ 46 + length aad + length msg
  length-blob = omega (
    arith,
    length-append key (nonce ++ behind),
    length-append nonce behind,
    length-append aad msg,
    key_size,
    nonce_size,
  )

  drop_key : drop 32 blob ≡ nonce ++ behind
  drop_key = drop-append 32 key (nonce ++ behind) key_size

  drop_nonce : drop 44 blob ≡ behind
  drop_nonce =
      sym (drop-drop 32 12 44 blob refl)
      ∙ ap (drop 12) drop_key
      ∙ drop-append 12 nonce behind nonce_size

  drop_header : drop 46 blob ≡ aad ++ msg
  drop_header = sym (drop-drop 44 2 46 blob refl) ∙ ap (drop 2) drop_nonce

  aad_length-blob : aad_length blob ≡ length aad
  unfolding aad_length
  aad_length-blob =
      let pre_size : length (key ++ nonce) ≡ 44 =
        omega (arith, length-append key nonce, key_size, nonce_size) in
      let e : be16 blob 44 ≡ length aad =
        ap (λ (b : List ℕ). be16 b 44) (sym (append_assoc key nonce behind))
        ∙ be16-field (key ++ nonce) (aad ++ msg) 44 (length aad) pre_size in
      let room : ltb (length blob - 46) (length aad) ≡ false = ground (arith, length-blob) in
      rw (e, room) refl

  fill_vec-blob : (op : ℕ) → fill_vec (pos op) blob ≡ parsed op key nonce aad msg
  unfolding fill_vec long_vec
  fill_vec-blob op =
      let long : ltb (length blob) 46 ≡ false = ground (arith, length-blob) in
      let k : take 32 blob ≡ key = take-append 32 key (nonce ++ behind) key_size in
      let n : take 12 (drop 32 blob) ≡ nonce =
        ap (take 12) drop_key ∙ take-append 12 nonce behind nonce_size in
      let a : take (aad_length blob) (drop 46 blob) ≡ aad =
        ap₂ take aad_length-blob drop_header ∙ take-append (length aad) aad msg refl in
      let m : drop (aad_length blob) (drop 46 blob) ≡ msg =
        ap₂ drop aad_length-blob drop_header ∙ drop-append (length aad) aad msg refl in
      rw long
        (λ i. record { op = pos op; key = k i; nonce = n i; aad = a i; msg = m i; blob = blob })

  -- A request line parses to the fields that it was printed from.
  pub vec_parse-request_line :
      (op : ℕ)
      → All IsByte blob
      → vec_parse (request_line op blob) ≡ some (parsed op key nonce aad msg)
  unfolding request_line
  vec_parse-request_line op bytes =
      vec_parse_of (request_line op blob) (show_decimal op) (tohex blob ++ newline ∷ []) blob
        (split_space-digits (show_decimal op) (tohex blob ++ newline ∷ [])
          (show_decimal-IsDigit op))
        (hexdecode-tohex blob (newline ∷ []) bytes newline-IsTrailing)
      ∙ ap (λ (o : ℤ). some (fill_vec o blob)) (atoi-show_decimal op)
      ∙ ap some (fill_vec-blob op)
