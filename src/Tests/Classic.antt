-- ===== src/Tests/Classic.antt =====
-- A run of the classic OpenSSL harness against a small library.
use cmfuzz.Base.{
  ℕ, ◌<◌, ◌≡◌, ◌≢◌, refl, arith, List, [], ◌∷◌, ◌++◌, append-nil, append_assoc, none, some,
  if◌then◌else◌, true, bytes_eq, bytes_eq_refl, ne→bytes_eq_false, length,
}
use cmfuzz.Engine.Oracle.{IsViolation}
use cmfuzz.Harness.World.{xor_at, xor_at-ne}
use cmfuzz.Harness.Classic.{ClassicCalls, classic_input}
use cmfuzz.Harness.Classic.Silent.{ClassicKeeps, classic_input-safe}

-- A digest is what was fed; a cipher context is the text and the tag, and the tag is the text.
abbrev small_classic : ClassicCalls
small_classic = record {
  Digest = List ℕ;
  CipherCtx = List ℕ × List ℕ;
  digest_init = [];
  digest_update = λ c x. c ++ x;
  digest_final = λ c. c;
  encrypt_init = λ k n. ([], []);
  decrypt_init = λ k n. ([], []);
  update = λ c x. ([], (x, c.1));
  encrypt_final = λ c. (c.0, c);
  get_tag = λ c n. c.0;
  set_tag = λ c t. (c.0, t);
  decrypt_final = λ c. if bytes_eq c.0 c.1 then some c.0 else none;
}

small_rejects :
    (m : List ℕ) (i : ℕ)
    → i < length m
    → (if bytes_eq (xor_at m i 1) m then some (xor_at m i 1) else none) ≡ none
small_rejects m i h =
    let one : 1 ≢ 0 = λ o. absurd (omega (arith, o)) in
    let differs = ne→bytes_eq_false (xor_at m i 1) m (xor_at-ne m i 1 h one) in rw differs refl

small_classic-ClassicKeeps : ClassicKeeps small_classic
small_classic-ClassicKeeps = record {
  streams = λ c a b. append_assoc c a b;
  empty = λ c. append-nil c;
  opens = λ k n m. rw (bytes_eq_refl m) refl;
  rejects = λ k n m i h. rw (small_rejects m i h) refl;
}

classic_input-safe_example :
    ¬ IsViolation (classic_input small_classic true (1 ∷ 1 ∷ 5 ∷ 6 ∷ 7 ∷ 8 ∷ 9 ∷ 10 ∷ []))
classic_input-safe_example =
    classic_input-safe small_classic small_classic-ClassicKeeps true
      (1 ∷ 1 ∷ 5 ∷ 6 ∷ 7 ∷ 8 ∷ 9 ∷ 10 ∷ [])
