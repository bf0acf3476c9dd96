-- ===== src/Tests/SeqAead.antt =====
-- Runs of the AEAD sequence harness against a small library.
use cmfuzz.Base.{
  ℕ, ◌≢◌, refl, arith, List, [], ◌∷◌, none, some, bytes_eq, bytes_eq_refl, ne→bytes_eq_false,
  if◌then◌else◌,
}
use cmfuzz.Engine.Oracle.{IsViolation}
use cmfuzz.Harness.World.{xor_at, xor_at-ne}
use cmfuzz.Harness.Compose.{ComposeCalls}
use cmfuzz.Harness.SeqAead.{seq_input}
use cmfuzz.Harness.SeqAead.Nonces.{draws, AreDistinct, draws-AreDistinct}
use cmfuzz.Harness.SeqAead.Release.{GcmKeeps, seq_input-safe}

-- A context is the text and the tag; the tag is the text.
abbrev small_gcm : ComposeCalls
small_gcm = record {
  CipherCtx = List ℕ × List ℕ;
  cbc_encrypt_init = λ k iv. ([], []);
  cbc_decrypt_init = λ k iv. ([], []);
  gcm_encrypt_init = ([], []);
  gcm_decrypt_init = ([], []);
  set_ivlen = λ c n. c;
  set_key_nonce = λ c k n. c;
  update_aad = λ c aad. c;
  update = λ c x. ([], (x, c.1));
  encrypt_final = λ c. (c.0, c);
  decrypt_final = λ c. if bytes_eq c.0 c.1 then some c.0 else none;
  get_tag = λ c n. c.0;
  set_tag = λ c t. (c.0, t);
  hmac_sha256 = λ k m. m;
}

small_gcm-GcmKeeps : GcmKeeps small_gcm
small_gcm-GcmKeeps = record {
  opens = λ k n m. rw (bytes_eq_refl m) refl;
  size = λ k n m. refl;
  rejects = λ k n m i h.
      let one : 1 ≢ 0 = λ o. absurd (omega (arith, o)) in
      let differs = ne→bytes_eq_false (xor_at m i 1) m (xor_at-ne m i 1 h one) in rw differs refl;
}

seq_input-safe_example : ¬ IsViolation (seq_input small_gcm (1 ∷ 1 ∷ 5 ∷ 6 ∷ 7 ∷ []))
seq_input-safe_example = seq_input-safe small_gcm small_gcm-GcmKeeps (1 ∷ 1 ∷ 5 ∷ 6 ∷ 7 ∷ [])

draws-AreDistinct_example : AreDistinct (draws 3 255)
draws-AreDistinct_example = draws-AreDistinct 3 255 (omega arith)
