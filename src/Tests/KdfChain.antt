-- ===== src/Tests/KdfChain.antt =====
-- A run of the key chain harness against a small library.
use cmfuzz.Base.{
  ℕ, zero, suc, ◌+◌, ◌≡◌, ◌≢◌, refl, ap, arith, List, [], ◌∷◌, ◌++◌, Option, none, some,
  if◌then◌else◌, bytes_eq, bytes_eq_refl, ne→bytes_eq_false, take, drop, length, take-append,
  drop-append, replicate, length-replicate,
}
use cmfuzz.Engine.Oracle.{IsViolation}
use cmfuzz.Harness.KdfChain.{ChainCalls, chain_input}
use cmfuzz.Harness.KdfChain.Separation.{steps, ChainKeeps, chain_input-safe}

-- The size of the key, the key and the text.
abbrev wrap : List ℕ → List ℕ → List ℕ
wrap k m = length k ∷ (k ++ m)

abbrev unwrap : List ℕ → List ℕ → Option (List ℕ)
unwrap k [] = none
unwrap k (n ∷ x) = if bytes_eq (take n x) k then some (drop n x) else none

abbrev longer : List ℕ → List ℕ
longer k = 0 ∷ k

-- A context is the key and the text.
abbrev small_chain : ChainCalls
small_chain = record {
  CipherCtx = List ℕ × List ℕ;
  hkdf_sha256 = λ k info. some (longer k);
  encrypt_init = λ k n. (k, []);
  decrypt_init = λ k n. (k, []);
  update = λ c x. ([], (c.0, x));
  encrypt_final = λ c. (wrap c.0 c.1, c);
  get_tag = λ c n. replicate n 0;
  set_tag = λ c t. c;
  decrypt_final = λ c. unwrap c.0 c.1;
}

unwrap-wrap : (k m : List ℕ) → unwrap k (wrap k m) ≡ some m
unwrap-wrap k m =
    let front = take-append (length k) k m refl in
    let behind = drop-append (length k) k m refl in rw (front, behind, bytes_eq_refl k) refl

unwrap-wrap_other : (k k' m : List ℕ) → k ≢ k' → unwrap k' (wrap k m) ≡ none
unwrap-wrap_other k k' m other =
    let front = take-append (length k) k m refl in rw (front, ne→bytes_eq_false k k' other) refl

length-steps : (n : ℕ) (k : List ℕ) → length (steps longer n k) ≡ n + length k
length-steps zero k = omega arith
length-steps (suc n) k = omega (arith, length-steps n (longer k))

small_chain-ChainKeeps : ChainKeeps small_chain longer
small_chain-ChainKeeps = record {
  opens = λ k m. rw (unwrap-wrap k m) refl;
  tag_size = λ c. length-replicate {A = ℕ} 16 0;
  rejects = λ x y m other. rw (unwrap-wrap_other (longer x) (longer y) m other) refl;
  derives = λ k. refl;
  no_cycle = λ ikm i j hi hj other e.
      let one = length-steps (suc i) ikm in
      let two = length-steps (suc j) ikm in other (omega (arith, one, two, ap length e));
}

abbrev four_arrays : List (List ℕ)
four_arrays = [] ∷ [] ∷ [] ∷ [] ∷ []

chain_input-safe_example :
    ¬ IsViolation (chain_input small_chain four_arrays (1 ∷ 2 ∷ 3 ∷ 4 ∷ 5 ∷ []))
chain_input-safe_example =
    chain_input-safe small_chain longer small_chain-ChainKeeps four_arrays (1 ∷ 2 ∷ 3 ∷ 4 ∷ 5 ∷ [])
      refl
