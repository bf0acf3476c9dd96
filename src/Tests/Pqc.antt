-- ===== src/Tests/Pqc.antt =====
-- Runs of the liboqs against PQClean programs with small libraries.
use cmfuzz.Base.{
  ℕ, ◌+◌, ◌*◌, ◌≡◌, ◌↔◌, refl, sym, ap, ap₂, ◌++◌, List, [], ◌∷◌, Option, none, some, some_inj,
  subst,
}
use Prim.Native.String.{String}
use cmfuzz.Harness.World.{World}
use cmfuzz.Harness.Kem.{Kem}
use cmfuzz.Harness.Sig.{Sig}
use cmfuzz.Harness.Pqc.{PqcLibs}
use cmfuzz.Engine.Oracle.{IsViolation}
use cmfuzz.Harness.Pqc.Silent.{IsDone, Ends, enabled}
use cmfuzz.Harness.PqcDiff.{pqc_diff_main}
use cmfuzz.Harness.PqcDiff.Silent.{Interoperates, AgreeOnVerdicts, Compatible, pqc_diff_main-Ends}
use cmfuzz.Harness.PqcKat.{Drbg, kat_seed, kem_kat_round, pqc_kat_main}
use cmfuzz.Harness.PqcKat.Silent.{
  KemStandard, SigStandard, KemFollows, SigFollows, Conform, pqc_kat_main-Ends,
}
use cmfuzz.Harness.PqcKat.Detect.{kem_kat_round_iff}
use cmfuzz.Tests.Harness.{start, advance, small_kem, small_sig, small_kem-Interoperates}

-- liboqs has all the schemes.
abbrev small_libs : PqcLibs (Unit {0})
small_libs = record {
  init = λ w. w;
  oqs_kem = λ name. some small_kem;
  oqs_sig = λ name. some small_sig;
  mlkem_512 = small_kem;
  mlkem_768 = small_kem;
  mlkem_1024 = small_kem;
  mldsa_44 = small_sig;
  mldsa_65 = small_sig;
  mldsa_87 = small_sig;
}

the_kem :
    (P : Kem (Unit {0}) → Type 0)
    → P small_kem
    → (k : Kem (Unit {0})) → some small_kem ≡ some k
    → P k
the_kem P h k e = subst P (some_inj small_kem k e) h

the_sig :
    (P : Sig (Unit {0}) → Type 0)
    → P small_sig
    → (s : Sig (Unit {0})) → some small_sig ≡ some s
    → P s
the_sig P h s e = subst P (some_inj small_sig s e) h

both_kems :
    (k : Kem (Unit {0}))
    → some small_kem ≡ some k
    → Interoperates k small_kem × Interoperates small_kem k
both_kems =
    the_kem (λ k. Interoperates k small_kem × Interoperates small_kem k)
      (small_kem-Interoperates, small_kem-Interoperates)

both_sigs :
    (s : Sig (Unit {0}))
    → some small_sig ≡ some s
    → AgreeOnVerdicts s small_sig × AgreeOnVerdicts small_sig s
both_sigs =
    the_sig (λ s. AgreeOnVerdicts s small_sig × AgreeOnVerdicts small_sig s)
      (λ w v msg sig pk. refl, λ w v msg sig pk. refl)

small_libs-Compatible : Compatible small_libs
small_libs-Compatible = record {
  kems_agree = (both_kems, (both_kems, (both_kems, tt)));
  sigs_agree = (both_sigs, (both_sigs, (both_sigs, tt)));
}

pqc_diff_main-Ends_example :
    Ends
      (λ (r : ℕ × World (Unit {0})). r.0 ≡ 0)
      (pqc_diff_main small_libs
        (λ seed w. start seed)
        (λ w. (w.prng * 77, advance w))
        (some 3)
        none
        (start 7))
unfolding enabled
pqc_diff_main-Ends_example =
    pqc_diff_main-Ends small_libs (λ seed w. start seed) (λ w. (w.prng * 77, advance w)) (some 3)
      none (start 7) small_libs-Compatible

-- The state after a seeding is the sum of the seed.
abbrev sum : List ℕ → ℕ
sum [] = 1
sum (x ∷ xs) = x + sum xs

abbrev small_drbg : Drbg (Unit {0})
small_drbg = record {
  init = λ seed w. start (sum seed);
  draw = λ n w. (w.prng ∷ [], advance w);
  install = λ w. w;
}

abbrev small_standard : KemStandard ℕ
small_standard = record {
  keygen = λ d. ((d ∷ [], d ∷ []), d + 1);
  encaps = λ pk d. (d ∷ [], d ∷ pk);
}

abbrev small_sig_standard : SigStandard ℕ
small_sig_standard = record {
  keygen = λ d. ((d ∷ [], d ∷ []), d + 1);
  sign = λ msg sk d. sk ++ msg;
}

abbrev prng_of : World (Unit {0}) → ℕ
prng_of w = w.prng

-- What a call that succeeds returned.
returned :
    {A : Type 0} (a b : A) (w v : World (Unit {0}))
    → ◌≡◌ {A = Option A × World (Unit {0})} (some a, w) (some b, v)
    → ◌≡◌ {A = A × ℕ} (b, v.prng) (a, w.prng)
returned {A} a b w v e =
    let same : a ≡ b = some_inj a b (ap (λ (r : Option A × World (Unit {0})). r.0) e) in
    let state : w.prng ≡ v.prng = ap (λ (r : Option A × World (Unit {0})). r.1.prng) e in
    ap₂ (λ x y. (x, y)) (sym same) (sym state)

small_kem-KemFollows : KemFollows prng_of small_standard small_kem
small_kem-KemFollows = record {
  keypair_follows = λ w v pair e. returned (w.prng ∷ [], w.prng ∷ []) pair (advance w) v e;
  encaps_follows = λ pk w v sent e.
      ap (λ (r : (List ℕ × List ℕ) × ℕ). r.0)
        (returned (w.prng ∷ [], w.prng ∷ pk) sent (advance w) v e);
}

small_sig-SigFollows : SigFollows prng_of small_sig_standard small_sig
small_sig-SigFollows = record {
  keypair_follows = λ w v pair e. returned (w.prng ∷ [], w.prng ∷ []) pair (advance w) v e;
  sign_follows = λ msg sk w v sig e. ap (λ (r : List ℕ × ℕ). r.0) (returned (sk ++ msg) sig w v e);
}

kem_conforms :
    (k : Kem (Unit {0}))
    → some small_kem ≡ some k
    → KemFollows prng_of small_standard k × KemFollows prng_of small_standard small_kem
kem_conforms =
    the_kem (λ k. KemFollows prng_of small_standard k × KemFollows prng_of small_standard small_kem)
      (small_kem-KemFollows, small_kem-KemFollows)

sig_conforms :
    (s : Sig (Unit {0}))
    → some small_sig ≡ some s
    → SigFollows prng_of small_sig_standard s × SigFollows prng_of small_sig_standard small_sig
sig_conforms =
    the_sig
      (λ s.
        SigFollows prng_of small_sig_standard s × SigFollows prng_of small_sig_standard small_sig)
      (small_sig-SigFollows, small_sig-SigFollows)

renamed_kem : (name : String) → KemFollows prng_of small_standard (record small_kem { name = name })
renamed_kem name = record {
  keypair_follows = small_kem-KemFollows.keypair_follows;
  encaps_follows = small_kem-KemFollows.encaps_follows;
}

renamed_sig :
    (name : String) → SigFollows prng_of small_sig_standard (record small_sig { name = name })
renamed_sig name = record {
  keypair_follows = small_sig-SigFollows.keypair_follows;
  sign_follows = small_sig-SigFollows.sign_follows;
}

small_libs-Conform :
    Conform prng_of small_drbg small_libs (λ name. small_standard) (λ name. small_sig_standard)
small_libs-Conform = record {
  seeded = λ seed w v. refl;
  kems_conform = (
    (λ k e. ((kem_conforms k e).0, renamed_kem "ML-KEM-512")),
    (
      (λ k e. ((kem_conforms k e).0, renamed_kem "ML-KEM-768")),
      ((λ k e. ((kem_conforms k e).0, renamed_kem "ML-KEM-1024")), tt),
    ),
  );
  sigs_conform = (
    (λ s e. ((sig_conforms s e).0, renamed_sig "ML-DSA-44")),
    (
      (λ s e. ((sig_conforms s e).0, renamed_sig "ML-DSA-65")),
      ((λ s e. ((sig_conforms s e).0, renamed_sig "ML-DSA-87")), tt),
    ),
  );
}

pqc_kat_main-Ends_example :
    Ends
      (λ (r : ℕ × World (Unit {0})). r.0 ≡ 0)
      (pqc_kat_main small_drbg small_libs (some 2) (start 7))
unfolding enabled
pqc_kat_main-Ends_example =
    pqc_kat_main-Ends prng_of small_drbg small_libs (λ name. small_standard)
      (λ name. small_sig_standard) small_libs-Conform (some 2) (start 7)

-- The other library draws twice for a key.
abbrev other_kem : Kem (Unit {0})
other_kem = record small_kem {
  keypair = λ w. (some (w.prng ∷ [], (w.prng + 1) ∷ []), advance (advance w));
}

abbrev small_keys : List ℕ × List ℕ
small_keys = (1178 ∷ [], 1178 ∷ [])

abbrev other_keys : List ℕ × List ℕ
other_keys = (1178 ∷ [], 1179 ∷ [])

abbrev small_sent : List ℕ × List ℕ
small_sent = (1179 ∷ [], 1179 ∷ 1178 ∷ [])

abbrev other_sent : List ℕ × List ℕ
other_sent = (1180 ∷ [], 1180 ∷ 1178 ∷ [])

kem_kat_round_iff_example :
    (IsDone (kem_kat_round small_drbg small_kem other_kem 0 (start 7))
      ↔ ((small_keys ≡ other_keys) × (small_sent ≡ other_sent)))
    × (IsViolation (kem_kat_round small_drbg small_kem other_kem 0 (start 7))
        ↔ ¬ ((small_keys ≡ other_keys) × (small_sent ≡ other_sent)))
unfolding kat_seed
kem_kat_round_iff_example =
    kem_kat_round_iff small_drbg small_kem other_kem 0 (start 7) (start 1179) (start 1180)
      (start 1180) (start 1181) small_keys small_sent other_keys other_sent refl refl refl refl
