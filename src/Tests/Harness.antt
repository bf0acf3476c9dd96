-- ===== src/Tests/Harness.antt =====
-- Runs of the harnesses against small libraries.
use cmfuzz.Base.{
  ℕ, ◌+◌, ◌≡◌, ◌↔◌, refl, List, [], ◌∷◌, ◌++◌, Option, some, some_inj, sym, ap, ◌∙◌, Bool, true,
  bytes_eq,
}
use cmfuzz.Harness.World.{World, IsSilent}
use cmfuzz.Harness.Kem
use cmfuzz.Harness.Kem.{Kem, kem_relations}
use cmfuzz.Harness.Kem.Relations.{kem_relations_iff}
use cmfuzz.Harness.PqcDiff.Silent.{Interoperates}
use cmfuzz.Harness.SeqKem.{key_sequence}
use cmfuzz.Harness.SeqKem.Confusion.{Agrees, Differs, key_sequence_iff}
use cmfuzz.Harness.Sig
use cmfuzz.Harness.Sig.{Sig, sig_relations}
use cmfuzz.Harness.Sig.Relations.{sig_relations_iff}

abbrev pub start : ℕ → World (Unit {0})
start n = record { prng = n; library = tt }

abbrev pub advance : World (Unit {0}) → World (Unit {0})
advance w = start (w.prng + 1)

abbrev pub small_decapsulate : List ℕ → List ℕ → List ℕ
small_decapsulate ct sk = ct ++ sk

-- Keys are the state of the generator, and a secret is the ciphertext and the key.
abbrev pub small_kem : Kem (Unit {0})
small_kem = record {
  name = "small";
  length_ciphertext = 1;
  keypair = λ w. (some (w.prng ∷ [], w.prng ∷ []), advance w);
  encaps = λ pk w. (some (w.prng ∷ [], w.prng ∷ pk), advance w);
  decaps = λ ct sk w. (some (small_decapsulate ct sk), w);
}

kem_relations_iff_example :
    IsSilent (kem_relations small_kem true 3 0 [] (start 7))
    ↔ Kem.Relations.Relations small_kem small_decapsulate 3 0
        (7 ∷ [])
        (8 ∷ [])
        (8 ∷ 7 ∷ [])
        (9 ∷ [])
kem_relations_iff_example =
    kem_relations_iff small_kem small_decapsulate (λ ct sk w. refl) 3 0 [] (7 ∷ []) (7 ∷ [])
      (8 ∷ []) (8 ∷ 7 ∷ []) (9 ∷ []) (9 ∷ []) (start 7) (start 8) (start 9) (start 10) refl refl
      refl

abbrev pub small_accepts : List ℕ → List ℕ → List ℕ → Bool
small_accepts msg sig pk = bytes_eq sig (pk ++ msg)

-- A signature is the key and the message.
abbrev pub small_sig : Sig (Unit {0})
small_sig = record {
  name = "small";
  length_signature = 4;
  keypair = λ w. (some (w.prng ∷ [], w.prng ∷ []), advance w);
  sign = λ msg sk w. (some (sk ++ msg), w);
  verify = λ msg sig pk w. (small_accepts msg sig pk, w);
}

sig_relations_iff_example :
    IsSilent (sig_relations small_sig true true 7 1 [] (5 ∷ 6 ∷ []) (start 7))
    ↔ Sig.Relations.Relations small_sig small_accepts 7 1
        (5 ∷ 6 ∷ [])
        (7 ∷ 5 ∷ 6 ∷ [])
        (7 ∷ [])
        (8 ∷ [])
sig_relations_iff_example =
    sig_relations_iff small_sig small_accepts (λ msg sig pk w. refl) 7 1 [] (5 ∷ 6 ∷ []) (7 ∷ [])
      (7 ∷ []) (7 ∷ 5 ∷ 6 ∷ []) (8 ∷ []) (8 ∷ []) (start 7) (start 8) (start 8) (start 9) refl refl
      refl

pub small_kem-Interoperates : Interoperates small_kem small_kem
small_kem-Interoperates w1 w2 w3 v1 v2 v3 pair sent ss e1 e2 e3 =
    let made : (w1.prng ∷ [], w1.prng ∷ []) ≡ pair =
      some_inj _ _ (ap (λ (r : Option (List ℕ × List ℕ) × World (Unit {0})). r.0) e1) in
    let sending : (w2.prng ∷ [], w2.prng ∷ pair.0) ≡ sent =
      some_inj _ _ (ap (λ (r : Option (List ℕ × List ℕ) × World (Unit {0})). r.0) e2) in
    let received : sent.0 ++ pair.1 ≡ ss =
      some_inj _ _ (ap (λ (r : Option (List ℕ) × World (Unit {0})). r.0) e3) in
    sym (ap (λ (r : List ℕ × List ℕ). r.1) sending)
    ∙ ap (◌∷◌ w2.prng)
        (sym (ap (λ (r : List ℕ × List ℕ). r.0) made) ∙ ap (λ (r : List ℕ × List ℕ). r.1) made)
    ∙ ap (λ (r : List ℕ × List ℕ). r.0 ++ pair.1) sending
    ∙ received

-- The right key gives the secret, and the other key does not.
key_sequence_iff_example :
    IsSilent (key_sequence small_kem (start 7))
    ↔ (Agrees (9 ∷ 7 ∷ []) (some (9 ∷ 7 ∷ [])) × Differs (9 ∷ 7 ∷ []) (some (9 ∷ 8 ∷ [])))
key_sequence_iff_example =
    key_sequence_iff small_kem (start 7) (start 8) (start 9) (start 10) (start 10) (start 10)
      (7 ∷ [], 7 ∷ []) (8 ∷ [], 8 ∷ []) (9 ∷ [], 9 ∷ 7 ∷ []) (some (9 ∷ 7 ∷ [])) (some (9 ∷ 8 ∷ []))
      refl refl refl refl refl
