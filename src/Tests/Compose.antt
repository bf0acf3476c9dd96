-- ===== src/Tests/Compose.antt =====
-- Runs of the composition harness against a small cipher and a small MAC.
use cmfuzz.Base.{
  append-nil, ℕ, suc, ◌-◌, ◌*◌, ◌/◌, ◌%◌, ◌<◌, ◌≡◌, ◌≢◌, refl, sym, ap, ◌∙◌, arith, List, [], ◌∷◌,
  ◌++◌, some, Bool, true, false, take, length, replicate, length-replicate, length-append,
  length-take, length-set, take-append, get_or, bit_xor, if◌then◌else◌,
}
use cmfuzz.Engine.Oracle.{next}
use cmfuzz.Harness.World.{xor_at, xor_at-ne}
use cmfuzz.Harness.Compose.{ComposeCalls, etm_checks}
use cmfuzz.Harness.Compose.Etm.{cbc, EtmKeeps, etm_checks-silent}

-- The size of the padding, the text, and zeros up to a whole block.
abbrev pad : List ℕ → List ℕ
pad m = (16 - length m % 16) ∷ (m ++ replicate (15 - length m % 16) 0)

abbrev unpad : List ℕ → List ℕ
unpad [] = []
unpad (k ∷ x) = take (suc (length x) - k) x

abbrev first_32 : List ℕ → List ℕ
first_32 x = take 32 (x ++ replicate 32 0)

-- A context is the direction.
abbrev small_calls : ComposeCalls
small_calls = record {
  CipherCtx = Bool;
  cbc_encrypt_init = λ k iv. true;
  cbc_decrypt_init = λ k iv. false;
  gcm_encrypt_init = true;
  gcm_decrypt_init = false;
  set_ivlen = λ c n. c;
  set_key_nonce = λ c k n. c;
  update_aad = λ c aad. c;
  update = λ c x. ((if c then pad x else unpad x), c);
  encrypt_final = λ c. ([], c);
  decrypt_final = λ c. some [];
  get_tag = λ c n. replicate n 0;
  set_tag = λ c t. c;
  hmac_sha256 = λ k m. first_32 m;
}

unpad-pad : (m : List ℕ) → unpad (pad m) ≡ m
unpad-pad m =
    let zeros : List ℕ = replicate (15 - length m % 16) 0 in
    let size = length-append m zeros in
    let size' = length-replicate {A = ℕ} (15 - length m % 16) 0 in
    let kept : suc (length (m ++ zeros)) - (16 - length m % 16) ≡ length m =
      omega (arith, size, size') in
    rw kept (take-append (length m) m zeros refl)

small_opens : (m : List ℕ) → unpad (pad m ++ []) ++ [] ≡ m
small_opens m = append-nil (unpad (pad m ++ [])) ∙ ap unpad (append-nil (pad m)) ∙ unpad-pad m

small_blocks : (m : List ℕ) → length (pad m ++ []) ≡ 16 * suc (length m / 16)
small_blocks m =
    let zeros : List ℕ = replicate (15 - length m % 16) 0 in
    let zeros_size = length-replicate {A = ℕ} (15 - length m % 16) 0 in
    ap length (append-nil (pad m)) ∙ omega (arith, length-append m zeros, zeros_size)

length-first_32 : (x : List ℕ) → length (first_32 x) ≡ 32
length-first_32 x =
    let size = length-append x (replicate 32 0) in
    omega (arith, length-take 32 (x ++ replicate 32 0), size)

small_calls-EtmKeeps : EtmKeeps small_calls
small_calls-EtmKeeps = record {
  opens = λ k iv m. ap some (small_opens m);
  blocks = λ k iv m. (length m / 16, small_blocks m);
  tag_size = λ k m. length-first_32 m;
}

abbrev zero_iv : List ℕ
zero_iv = replicate 16 0

abbrev small_text : List ℕ
small_text = 5 ∷ 6 ∷ 7 ∷ []

abbrev small_body : List ℕ
small_body = zero_iv ++ cbc small_calls [] zero_iv small_text

first_32_self : (x : List ℕ) → length x ≡ 32 → first_32 x ≡ x
first_32_self x h = take-append 32 x (replicate 32 0) h

small_free :
    (j : ℕ) → j < length small_body → first_32 (xor_at small_body j 1) ≢ first_32 small_body
small_free j h e =
    let size : length (xor_at small_body j 1) ≡ 32 =
      length-set small_body j (bit_xor (get_or small_body j 0) 1) in
    let one : 1 ≢ 0 = λ o. absurd (omega (arith, o)) in
    xor_at-ne small_body j 1 h one
      (sym (first_32_self (xor_at small_body j 1) size) ∙ e ∙ first_32_self small_body refl)

etm_checks-silent_example : etm_checks small_calls [] [] zero_iv small_text 77 ≡ next tt
etm_checks-silent_example =
    etm_checks-silent small_calls small_calls-EtmKeeps [] [] zero_iv small_text refl 77 small_free
