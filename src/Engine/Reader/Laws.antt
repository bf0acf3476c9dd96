-- ===== src/Engine/Reader/Laws.antt =====
-- The reader stays inside its buffer, and reads what stands there.
use cmfuzz.Base.{
  ℕ, zero, suc, ◌+◌, ◌-◌, ◌*◌, ◌%◌, ◌^◌, ◌≤◌, ◌<◌, ◌≡◌, refl, ap, arith, bit_or, List, [], ◌∷◌,
  get_or, drop, length, All, All-get_or, length-drop, take_all, ◌∙◌,
}
use native.Mathlib.Numerals.{add-one}
use cmfuzz.Base.Bits.{or_shift}
use cmfuzz.Engine.Prng.{IsByte}
use cmfuzz.Engine.Reader.{Reader, reader_init, u8, u32, u32_round, rest}

-- `pos` stays in `[0, len]`, and the array holds `len` bytes.
pub record IsValid (r : Reader) : Type 0 where
  pub in_buffer : r.pos ≤ r.len
  pub whole : length r.buf ≡ r.len
  pub bytes : All IsByte r.buf

-- What has not been read.
abbrev pub unread : Reader → List ℕ
unread r = drop r.pos r.buf

pub reader_init-IsValid : (d : List ℕ) → All IsByte d → IsValid (reader_init d (length d))
unfolding reader_init
reader_init-IsValid d h = record { in_buffer = omega arith; whole = refl; bytes = h }

u8-IsValid : (r : Reader) → IsValid r → IsValid (u8 r).1
unfolding u8
u8-IsValid r v = ground arith

u8-IsByte : (r : Reader) → IsValid r → (u8 r).0 < 256
unfolding u8
u8-IsByte r v = ground (arith, All-get_or IsByte r.buf r.pos 0 v.bytes (omega arith))

drop-cons : (n : ℕ) (xs : List ℕ) → n < length xs → drop n xs ≡ get_or xs n 0 ∷ drop (suc n) xs
drop-cons n [] h = absurd (omega arith)
drop-cons zero (x ∷ xs) h = refl
drop-cons (suc n) (x ∷ xs) h = drop-cons n xs (omega arith)

drop_all : (n : ℕ) (xs : List ℕ) → length xs ≤ n → drop n xs ≡ []
drop_all zero [] h = refl
drop_all zero (x ∷ xs) h = absurd (omega arith)
drop_all (suc n) [] h = refl
drop_all (suc n) (x ∷ xs) h = drop_all n xs (omega arith)

-- The head of what is unread, and 0 at the end.
abbrev pub head_or : List ℕ → ℕ
head_or xs = get_or xs 0 0

u8-unread :
    (r : Reader)
    → IsValid r
    → ((u8 r).0 ≡ head_or (unread r)) × (unread (u8 r).1 ≡ drop 1 (unread r))
unfolding u8
u8-unread r v = ground (
  arith,
  drop-cons r.pos r.buf,
  drop_all r.pos r.buf,
  drop_all (r.pos + 1) r.buf,
  ap (λ (n : ℕ). drop n r.buf) (add-one r.pos),
)

-- One round of `cmf_u32` on a value that still fits 24 bits.
u32_round_lem :
    (v : ℕ) (r : Reader)
    → IsValid r
    → v < 2 ^ 24
    → u32_round (v, r) ≡ (v * 256 + (u8 r).0, (u8 r).1)
unfolding u32_round
u32_round_lem v r w h =
    let b : ℕ = (u8 r).0 in
    let fits : v * 2 ^ 8 % 2 ^ 32 ≡ v * 2 ^ 8 = omega arith in
    let joined : bit_or (v * 2 ^ 8 % 2 ^ 32) b ≡ v * 256 + b =
      ap (λ (t : ℕ). bit_or t b) fits ∙ or_shift 8 v b (u8-IsByte r w) in
    ap (λ (t : ℕ). (t, (u8 r).1)) joined

-- The number whose four bytes, highest first, begin `xs`; missing bytes count as 0.
abbrev pub be32 : List ℕ → ℕ
be32 xs = ((get_or xs 0 0 * 256 + get_or xs 1 0) * 256 + get_or xs 2 0) * 256 + get_or xs 3 0

head_or-drop :
    (xs : List ℕ)
    → (head_or (drop 1 xs) ≡ get_or xs 1 0)
      × (head_or (drop 1 (drop 1 xs)) ≡ get_or xs 2 0)
      × (head_or (drop 1 (drop 1 (drop 1 xs))) ≡ get_or xs 3 0)
      × (drop 1 (drop 1 (drop 1 (drop 1 xs))) ≡ drop 4 xs)
head_or-drop [] = (refl, refl, refl, refl)
head_or-drop (a ∷ []) = (refl, refl, refl, refl)
head_or-drop (a ∷ b ∷ []) = (refl, refl, refl, refl)
head_or-drop (a ∷ b ∷ c ∷ []) = (refl, refl, refl, refl)
head_or-drop (a ∷ b ∷ c ∷ d ∷ xs) = (refl, refl, refl, refl)

module _ (r : Reader) (w : IsValid r) where
  abbrev r1 : Reader
  r1 = (u8 r).1

  abbrev r2 : Reader
  r2 = (u8 r1).1

  abbrev r3 : Reader
  r3 = (u8 r2).1

  w1 : IsValid r1
  w1 = u8-IsValid r w

  w2 : IsValid r2
  w2 = u8-IsValid r1 w1

  w3 : IsValid r3
  w3 = u8-IsValid r2 w2

  -- The value after the first, the second and the third byte.
  abbrev joins : ℕ × ℕ × ℕ
  joins =
      let a : ℕ = 0 * 256 + (u8 r).0 in
      let b : ℕ = a * 256 + (u8 r1).0 in let c : ℕ = b * 256 + (u8 r2).0 in (a, b, c)

  u32_bytes : u32 r ≡ (joins.2 * 256 + (u8 r3).0, (u8 r3).1)
  unfolding u32
  u32_bytes =
      let s0 : (u8 r).0 < 256 = u8-IsByte r w in
      let s1 : (u8 r1).0 < 256 = u8-IsByte r1 w1 in
      let s2 : (u8 r2).0 < 256 = u8-IsByte r2 w2 in
      let e0 = u32_round_lem 0 r w (omega arith) in
      let e1 = ap u32_round e0 ∙ u32_round_lem joins.0 r1 w1 (omega arith) in
      let e2 = ap u32_round e1 ∙ u32_round_lem joins.1 r2 w2 (omega arith) in
      ap u32_round e2 ∙ u32_round_lem joins.2 r3 w3 (omega arith)

  -- From a reader inside its buffer `cmf_u32` gives the next four bytes as a big-endian number,
  -- with 0 for each byte past the end, leaves what follows them unread, and stays in the buffer.
  pub u32_lem :
      ((u32 r).0 ≡ be32 (unread r)) × (unread (u32 r).1 ≡ drop 4 (unread r)) × IsValid (u32 r).1
  u32_lem =
      let (a0, d0) = u8-unread r w in
      let (a1, d1) = u8-unread r1 w1 in
      let (a2, d2) = u8-unread r2 w2 in
      let (a3, d3) = u8-unread r3 w3 in
      let (h1, h2, h3, h4) = head_or-drop (unread r) in
      let x1 = a1 ∙ ap head_or d0 ∙ h1 in
      let t2 = d1 ∙ ap (drop 1) d0 in
      let x2 = a2 ∙ ap head_or t2 ∙ h2 in
      let t3 = d2 ∙ ap (drop 1) t2 in
      let x3 = a3 ∙ ap head_or t3 ∙ h3 in
      rw u32_bytes (omega (arith, a0, x1, x2, x3), d3 ∙ ap (drop 1) t3 ∙ h4, u8-IsValid r3 w3)

-- `cmf_rest` hands over all that is unread, and leaves the reader valid with nothing unread.
pub rest_lem :
    (r : Reader)
    → IsValid r
    → ((rest r).0 ≡ unread r) × (unread (rest r).1 ≡ []) × IsValid (rest r).1
unfolding rest
rest_lem r v = (
  take_all (r.len - r.pos) (unread r) (omega (arith, length-drop r.pos r.buf, v.whole)),
  drop_all r.len r.buf (omega arith),
  record { in_buffer = omega arith; whole = v.whole; bytes = v.bytes },
)
