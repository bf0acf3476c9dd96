-- ===== src/Harness/Compose/Etm.antt =====
-- Encrypt-then-MAC opens what it sealed, and rejects before it decrypts.
use cmfuzz.Base.{
  ℕ, zero, suc, ◌+◌, ◌-◌, ◌*◌, ◌%◌, ◌<◌, ◌≡◌, ◌≢◌, refl, sym, ap, ◌∙◌, arith, List, [], ◌∷◌, ◌++◌,
  none, some, true, false, not, ltb, ◌==◌, bytes_eq, bytes_eq_refl, ne→bytes_eq_false, take, drop,
  length, length-append, length-set, take-append, drop-append, take_all, set, get_or, bit_xor,
  if◌then◌else◌,
}
use native.Mathlib.Decide.{dec_lt}
use cmfuzz.Base.Chain.{◌>>=◌}
use cmfuzz.Engine.Oracle.{next}
use cmfuzz.Harness.World.{xor_at, xor_at-ne}
use cmfuzz.Harness.Compose.{ComposeCalls, etm_seal, etm_decrypt, etm_open, etm_checks}

-- The ciphertext of AES-256-CBC with its padding.
abbrev pub cbc : (lib : ComposeCalls) → List ℕ → List ℕ → List ℕ → List ℕ
cbc lib k iv m =
    let first = lib.update (lib.cbc_encrypt_init k iv) m in first.0 ++ (lib.encrypt_final first.1).0

-- What OpenSSL documents: decryption undoes encryption, a padded ciphertext is one block at least
-- and whole blocks, and a tag has 32 bytes.
pub record EtmKeeps (lib : ComposeCalls) : Type 0 where
  pub opens :
      (k iv m : List ℕ)
      → (do
        let first = lib.update (lib.cbc_decrypt_init k iv) (cbc lib k iv m)
        last ← lib.decrypt_final first.1
        some (first.0 ++ last))
        ≡ some m
  pub blocks : (k iv m : List ℕ) → (n : ℕ) × (length (cbc lib k iv m) ≡ 16 * suc n)
  pub tag_size : (k m : List ℕ) → length (lib.hmac_sha256 k m) ≡ 32

-- A change in the first part, and one in the second.
set-append_first :
    (xs ys : List ℕ) (i v : ℕ) → i < length xs → set (xs ++ ys) i v ≡ set xs i v ++ ys
set-append_first [] ys i v h = absurd (omega arith)
set-append_first (x ∷ xs) ys zero v h = refl
set-append_first (x ∷ xs) ys (suc i) v h = ap (◌∷◌ x) (set-append_first xs ys i v (omega arith))

set-append_second : (xs ys : List ℕ) (i v : ℕ) → set (xs ++ ys) (length xs + i) v ≡ xs ++ set ys i v
set-append_second [] ys i v =
    let here : length {A = ℕ} [] + i ≡ i = omega arith in ap (λ (j : ℕ). set ys j v) here
set-append_second (x ∷ xs) ys i v =
    let after : length (x ∷ xs) + i ≡ suc (length xs + i) = omega arith in
    ap (λ (j : ℕ). set (x ∷ (xs ++ ys)) j v) after ∙ ap (◌∷◌ x) (set-append_second xs ys i v)

get_or-append_first :
    (xs ys : List ℕ) (i : ℕ) → i < length xs → get_or (xs ++ ys) i 0 ≡ get_or xs i 0
get_or-append_first [] ys i h = absurd (omega arith)
get_or-append_first (x ∷ xs) ys zero h = refl
get_or-append_first (x ∷ xs) ys (suc i) h = get_or-append_first xs ys i (omega arith)

get_or-append_second :
    (xs ys : List ℕ) (i : ℕ) → get_or (xs ++ ys) (length xs + i) 0 ≡ get_or ys i 0
get_or-append_second [] ys i =
    let here : length {A = ℕ} [] + i ≡ i = omega arith in ap (λ (j : ℕ). get_or ys j 0) here
get_or-append_second (x ∷ xs) ys i =
    let after : length (x ∷ xs) + i ≡ suc (length xs + i) = omega arith in
    ap (λ (j : ℕ). get_or (x ∷ (xs ++ ys)) j 0) after ∙ get_or-append_second xs ys i

xor_at-append_first :
    (xs ys : List ℕ) (i v : ℕ) → i < length xs → xor_at (xs ++ ys) i v ≡ xor_at xs i v ++ ys
xor_at-append_first xs ys i v h =
    ap (λ (x : ℕ). set (xs ++ ys) i (bit_xor x v)) (get_or-append_first xs ys i h)
    ∙ set-append_first xs ys i (bit_xor (get_or xs i 0) v) h

xor_at-append_second :
    (xs ys : List ℕ) (i v : ℕ) → xor_at (xs ++ ys) (length xs + i) v ≡ xs ++ xor_at ys i v
xor_at-append_second xs ys i v =
    ap (λ (x : ℕ). set (xs ++ ys) (length xs + i) (bit_xor x v)) (get_or-append_second xs ys i)
    ∙ set-append_second xs ys i (bit_xor (get_or ys i 0) v)

module _ (lib : ComposeCalls) (keeps : EtmKeeps lib) (k1 k2 : List ℕ) where
  -- The tests of `etm_open` on a body and a tag of the right sizes.
  etm_open-tested :
      (body tag : List ℕ) (n : ℕ)
      → length body ≡ 16 + 16 * suc n
      → length tag ≡ 32
      → etm_open lib k1 k2 (body ++ tag)
        ≡ (if not (bytes_eq (lib.hmac_sha256 k2 body) tag) then none else etm_decrypt lib k1 body)
  unfolding etm_open
  etm_open-tested body tag n bs ts =
      let size : length (body ++ tag) ≡ 64 + 16 * n = omega (arith, length-append body tag) in
      let long : ltb (length (body ++ tag)) 64 ≡ false = ground (arith, size) in
      let ctn : length (body ++ tag) - 16 - 32 ≡ 16 * suc n = omega (arith, size) in
      let whole : ((16 * suc n) % 16 == 0) ≡ true = ground arith in
      let front : take (16 + 16 * suc n) (body ++ tag) ≡ body =
        take-append (16 + 16 * suc n) body tag bs in
      let behind : drop (16 + 16 * suc n) (body ++ tag) ≡ tag =
        drop-append (16 + 16 * suc n) body tag bs in
      rw (long, ctn, whole, front, behind) refl

  etm_open-rejects :
      (body tag : List ℕ) (n : ℕ)
      → length body ≡ 16 + 16 * suc n
      → length tag ≡ 32
      → lib.hmac_sha256 k2 body ≢ tag
      → etm_open lib k1 k2 (body ++ tag) ≡ none
  etm_open-rejects body tag n bs ts wrong =
      let differs : bytes_eq (lib.hmac_sha256 k2 body) tag ≡ false =
        ne→bytes_eq_false (lib.hmac_sha256 k2 body) tag wrong in
      etm_open-tested body tag n bs ts ∙ rw differs refl

  module _ (iv m : List ℕ) (iv_size : length iv ≡ 16) where
    abbrev sealed_body : List ℕ
    sealed_body = iv ++ cbc lib k1 iv m

    abbrev sealed_tag : List ℕ
    sealed_tag = lib.hmac_sha256 k2 sealed_body

    length-sealed_body : length sealed_body ≡ 16 + 16 * suc (keeps.blocks k1 iv m).0
    length-sealed_body = omega (arith, length-append iv (cbc lib k1 iv m), (keeps.blocks k1 iv m).1)

    -- What was sealed opens to the message.
    etm_open-etm_seal : etm_open lib k1 k2 (etm_seal lib k1 k2 iv m) ≡ some m
    unfolding etm_seal
    etm_open-etm_seal =
        let front : take 16 sealed_body ≡ iv = take-append 16 iv (cbc lib k1 iv m) iv_size in
        let behind : drop 16 sealed_body ≡ cbc lib k1 iv m =
          drop-append 16 iv (cbc lib k1 iv m) iv_size in
        etm_open-tested sealed_body sealed_tag (keeps.blocks k1 iv m).0 length-sealed_body
          (keeps.tag_size k2 sealed_body)
        ∙ rw (bytes_eq_refl sealed_tag, front, behind) (keeps.opens k1 iv m)

    abbrev Collides : ℕ → Type 0
    Collides i = lib.hmac_sha256 k2 (xor_at sealed_body i 1) ≡ sealed_tag

    rejects_body :
        (i : ℕ)
        → i < length sealed_body
        → ¬ Collides i
        → etm_open lib k1 k2 (xor_at (sealed_body ++ sealed_tag) i 1) ≡ none
    rejects_body i h free =
        let size : length (xor_at sealed_body i 1) ≡ 16 + 16 * suc (keeps.blocks k1 iv m).0 =
          length-set sealed_body i (bit_xor (get_or sealed_body i 0) 1) ∙ length-sealed_body in
        ap (etm_open lib k1 k2) (xor_at-append_first sealed_body sealed_tag i 1 h)
        ∙ etm_open-rejects (xor_at sealed_body i 1) sealed_tag (keeps.blocks k1 iv m).0 size
            (keeps.tag_size k2 sealed_body) free

    rejects_tag :
        (i : ℕ)
        → i < 32
        → etm_open lib k1 k2 (xor_at (sealed_body ++ sealed_tag) (length sealed_body + i) 1) ≡ none
    rejects_tag i h =
        let tag_size = keeps.tag_size k2 sealed_body in
        let size : length (xor_at sealed_tag i 1) ≡ 32 =
          length-set sealed_tag i (bit_xor (get_or sealed_tag i 0) 1) ∙ tag_size in
        let inside : i < length sealed_tag = omega (arith, tag_size) in
        let one : 1 ≢ 0 = λ e. absurd (omega (arith, e)) in
        let changed = xor_at-ne sealed_tag i 1 inside one in
        ap (etm_open lib k1 k2) (xor_at-append_second sealed_body sealed_tag i 1)
        ∙ etm_open-rejects sealed_body (xor_at sealed_tag i 1) (keeps.blocks k1 iv m).0
            length-sealed_body size (λ e. changed (sym e))

    -- One flipped byte, wherever it is.
    rejects_flip :
        (i : ℕ)
        → i < length (sealed_body ++ sealed_tag)
        → ((j : ℕ) → j < length sealed_body → ¬ Collides j)
        → etm_open lib k1 k2 (xor_at (sealed_body ++ sealed_tag) i 1) ≡ none
    rejects_flip i h free = elim (dec_lt i (length sealed_body)) [
      | yes below ↦ rejects_body i below (free i below)
      | no above ↦
          let size = length-append sealed_body sealed_tag in
          let inside : i - length sealed_body < 32 =
            omega (arith, h, above, size, keeps.tag_size k2 sealed_body) in
          let there : i ≡ length sealed_body + (i - length sealed_body) = omega (arith, above) in
          ap (λ (k : ℕ). etm_open lib k1 k2 (xor_at (sealed_body ++ sealed_tag) k 1)) there
          ∙ rejects_tag (i - length sealed_body) inside
    ]

    -- The assertions of Encrypt-then-MAC pass on every message, whichever byte of the iv, the
    -- ciphertext or the tag is flipped: with a cipher that decrypts what it encrypted to whole
    -- blocks, an iv of 16 bytes, a tag of 32 bytes, and an HMAC that tells the sealed text from the
    -- texts that differ from it in the low bit of one byte.
    pub etm_checks-silent :
        (draw : ℕ)
        → ((j : ℕ)
            → j < length (iv ++ cbc lib k1 iv m)
            → lib.hmac_sha256 k2 (xor_at (iv ++ cbc lib k1 iv m) j 1)
              ≢ lib.hmac_sha256 k2 (iv ++ cbc lib k1 iv m))
        → etm_checks lib k1 k2 iv m draw ≡ next tt
    unfolding etm_checks etm_seal
    etm_checks-silent draw free =
        let buf = sealed_body ++ sealed_tag in
        let opens : etm_open lib k1 k2 buf ≡ some m = etm_open-etm_seal in
        let size = length-append sealed_body sealed_tag in
        let some_byte : draw % length buf < length buf =
          ground (arith, size, keeps.tag_size k2 sealed_body) in
        let rejected = rejects_flip (draw % length buf) some_byte free in
        let whole : take (length m) m ≡ m = take_all (length m) m (omega arith) in
        let same : (length m == length m) ≡ true = ground arith in
        rw (opens, rejected, same, whole, bytes_eq_refl m) refl
