-- ===== src/Harness/Compose/Nonce.antt =====
-- No nonce of the record layer comes twice under one key.
use cmfuzz.Base.{
  ℕ, zero, suc, ◌*◌, ◌/◌, ◌%◌, ◌^◌, ◌<◌, ◌≡◌, ◌≢◌, refl, sym, ap, ◌∙◌, arith, List, [], ◌∷◌, length,
  get_or, bit_xor,
}
use cmfuzz.Base.Bits.{xor_undo}
use cmfuzz.Harness.Compose.{rec_nonce}

-- The `n` numbers of a list from `i` on.
abbrev entries : ℕ → ℕ → List ℕ → List ℕ
entries zero i xs = []
entries (suc n) i xs = get_or xs i 0 ∷ entries n (suc i) xs

entries-tail : (n i x : ℕ) (xs : List ℕ) → entries n (suc i) (x ∷ xs) ≡ entries n i xs
entries-tail zero i x xs = refl
entries-tail (suc n) i x xs = ap (◌∷◌ (get_or xs i 0)) (entries-tail n (suc i) x xs)

entries_all : (n : ℕ) (xs : List ℕ) → length xs ≡ n → entries n 0 xs ≡ xs
entries_all zero [] h = refl
entries_all zero (x ∷ xs) h = absurd (omega arith)
entries_all (suc n) [] h = absurd (omega arith)
entries_all (suc n) (x ∷ xs) h = ap (◌∷◌ x) (entries-tail n 0 x xs ∙ entries_all n xs (omega arith))

xor_cancel : (a b c : ℕ) → bit_xor a b ≡ bit_xor a c → b ≡ c
xor_cancel a b c e = sym (xor_undo a b) ∙ ap (bit_xor a) e ∙ xor_undo a c

-- Byte `11 - i` of the nonces, where the sequence number is mixed in.
same_byte :
    (a b c j : ℕ) (m n : List ℕ)
    → get_or m j 0 ≡ bit_xor a b
    → get_or n j 0 ≡ bit_xor a c
    → m ≡ n
    → b ≡ c
same_byte a b c j m n f g e = xor_cancel a b c (sym f ∙ ap (λ (l : List ℕ). get_or l j 0) e ∙ g)

abbrev pub byte_of : ℕ → ℕ → ℕ
byte_of s i = s / 2 ^ (8 * i) % 256

pub number_of_bytes :
    (s t : ℕ)
    → s < 2 ^ 64
    → t < 2 ^ 64
    → byte_of s 0 ≡ byte_of t 0
    → byte_of s 1 ≡ byte_of t 1
    → byte_of s 2 ≡ byte_of t 2
    → byte_of s 3 ≡ byte_of t 3
    → byte_of s 4 ≡ byte_of t 4
    → byte_of s 5 ≡ byte_of t 5
    → byte_of s 6 ≡ byte_of t 6
    → byte_of s 7 ≡ byte_of t 7
    → s ≡ t
number_of_bytes s t hs ht e0 e1 e2 e3 e4 e5 e6 e7 = omega arith

entries-injective :
    (siv : List ℕ) (s t : ℕ)
    → s < 2 ^ 64
    → t < 2 ^ 64
    → rec_nonce (entries 12 0 siv) s ≡ rec_nonce (entries 12 0 siv) t
    → s ≡ t
unfolding rec_nonce
entries-injective siv s t hs ht e =
    let byte = λ (i j : ℕ). same_byte (get_or siv j 0) (byte_of s i) (byte_of t i) j in
    number_of_bytes s t hs ht (byte 0 11 _ _ refl refl e) (byte 1 10 _ _ refl refl e)
      (byte 2 9 _ _ refl refl e) (byte 3 8 _ _ refl refl e) (byte 4 7 _ _ refl refl e)
      (byte 5 6 _ _ refl refl e) (byte 6 5 _ _ refl refl e) (byte 7 4 _ _ refl refl e)

rec_nonce-injective :
    (siv : List ℕ) (s t : ℕ)
    → length siv ≡ 12
    → s < 2 ^ 64
    → t < 2 ^ 64
    → rec_nonce siv s ≡ rec_nonce siv t
    → s ≡ t
rec_nonce-injective siv s t size hs ht e =
    let whole = entries_all 12 siv size in
    entries-injective siv s t hs ht (
      ap (λ (iv : List ℕ). rec_nonce iv s) whole
      ∙ e
      ∙ ap (λ (iv : List ℕ). rec_nonce iv t) (sym whole))

-- Two different sequence numbers of 64 bits give different nonces, under the same static IV of 12
-- bytes: within the life of a key the record layer never uses a nonce twice.
rec_nonce-ne :
    (siv : List ℕ) (s t : ℕ)
    → length siv ≡ 12
    → s < 2 ^ 64
    → t < 2 ^ 64
    → s ≢ t
    → rec_nonce siv s ≢ rec_nonce siv t
rec_nonce-ne siv s t size hs ht ne e = ne (rec_nonce-injective siv s t size hs ht e)
