-- ===== src/Harness/PqcKat/Silent.antt =====
-- No false alarm between two libraries that follow the same standard.
use cmfuzz.Base.{
  ℕ, zero, suc, ◌+◌, ◌%◌, ◌==◌, ◌≡◌, sym, ap, ◌∙◌, arith, List, Option, none, some, length, All,
  true,
}
use Prim.Native.String.{String}
use cmfuzz.Engine.Oracle.{next}
use cmfuzz.Harness.World.{World}
use cmfuzz.Harness.Kem.{Kem}
use cmfuzz.Harness.Sig.{Sig}
use cmfuzz.Harness.Pqc.{Round, PqcLibs, kems, sigs}
use cmfuzz.Harness.Pqc.Silent.{
  IsDone, Ends, or_continue-IsDone, stop_if-IsDone, after-IsDone, quiet_status, schemes_main-Ends,
  Passes, All_map,
}
use cmfuzz.Harness.PqcKat.{
  Drbg, count_bytes, length_cmp, kat_seed, kem_compare, kem_kat_round, kem_kat, sig_compare,
  sig_kat_round, sig_kat, pqc_kat_main,
}

-- A scheme as its standard defines it: functions of the state of the generator, which each call
-- leaves in a new state.
pub record KemStandard (D : Type 0) : Type 0 where
  pub keygen : D → (List ℕ × List ℕ) × D
  pub encaps : List ℕ → D → List ℕ × List ℕ

pub record SigStandard (D : Type 0) : Type 0 where
  pub keygen : D → (List ℕ × List ℕ) × D
  pub sign : List ℕ → List ℕ → D → List ℕ

abbrev left : List ℕ × List ℕ → List ℕ
left q = q.0

abbrev right : List ℕ × List ℕ → List ℕ
right q = q.1

length_cmp-IsDone :
    {W : Type 0} (a b : List ℕ) (alg : String) (f : Round W) (w : World W)
    → a ≡ b
    → IsDone (f w)
    → IsDone (length_cmp alg a b f w)
length_cmp-IsDone a b alg f w e h =
    let same : (length a == length b) ≡ true = ground (arith, ap length e) in
    rw same (stop_if-IsDone a b _ _ _ f w e h)

module _ {W D : Type 0} (view : World W → D) where
  -- A library computes what the standard defines whenever its calls succeed.
  pub record KemFollows (std : KemStandard D) (k : Kem W) : Type 0 where
    pub keypair_follows :
        (w v : World W) (pair : List ℕ × List ℕ)
        → k.keypair w ≡ (some pair, v)
        → (pair, view v) ≡ std.keygen (view w)
    pub encaps_follows :
        (pk : List ℕ) (w v : World W) (sent : List ℕ × List ℕ)
        → k.encaps pk w ≡ (some sent, v)
        → sent ≡ std.encaps pk (view w)

  pub record SigFollows (std : SigStandard D) (s : Sig W) : Type 0 where
    pub keypair_follows :
        (w v : World W) (pair : List ℕ × List ℕ)
        → s.keypair w ≡ (some pair, v)
        → (pair, view v) ≡ std.keygen (view w)
    pub sign_follows :
        (msg sk : List ℕ) (w v : World W) (sig : List ℕ)
        → s.sign msg sk w ≡ (some sig, v)
        → sig ≡ std.sign msg sk (view w)

  -- Both libraries follow the standard, for the schemes that liboqs has enabled.
  abbrev KemConforms : (String → KemStandard D) → PqcLibs W → Kem W → Type 0
  KemConforms std libs p =
      (k : Kem W)
      → libs.oqs_kem p.name ≡ some k
      → KemFollows (std p.name) k × KemFollows (std p.name) p

  abbrev SigConforms : (String → SigStandard D) → PqcLibs W → Sig W → Type 0
  SigConforms std libs p =
      (s : Sig W)
      → libs.oqs_sig p.name ≡ some s
      → SigFollows (std p.name) s × SigFollows (std p.name) p

  pub record Conform (drbg : Drbg W) (libs : PqcLibs W) (kem_std : String → KemStandard D)
      (sig_std : String → SigStandard D) : Type 0 where
    -- The state of the generator after nist_kat_init is a function of the seed.
    pub seeded : (seed : List ℕ) (w v : World W) → view (drbg.init seed w) ≡ view (drbg.init seed v)
    pub kems_conform : All (KemConforms kem_std libs) (kems libs)
    pub sigs_conform : All (SigConforms sig_std libs) (sigs libs)

  module _ (drbg : Drbg W)
      (seeded : (seed : List ℕ) (w v : World W)
        → view (drbg.init seed w) ≡ view (drbg.init seed v)) where
    -- Two runs of a key generation from one seed.
    same_keys :
        (keygen : D → (List ℕ × List ℕ) × D) (d d' : D) (pair pair2 : List ℕ × List ℕ) (e e' : D)
        → d ≡ d'
        → (pair, e) ≡ keygen d
        → (pair2, e') ≡ keygen d'
        → (pair ≡ pair2) × (e ≡ e')
    same_keys keygen d d' pair pair2 e e' same here there =
        let both : (pair, e) ≡ (pair2, e') = here ∙ ap keygen same ∙ sym there in
        (ap (λ (r : (List ℕ × List ℕ) × D). r.0) both, ap (λ (r : (List ℕ × List ℕ) × D). r.1) both)

    kem_kat_round-IsDone :
        (std : KemStandard D) (k p : Kem W) (i : ℕ) (w : World W)
        → KemFollows std k
        → KemFollows std p
        → IsDone (kem_kat_round drbg k p i w)
    unfolding kem_kat_round kem_compare
    kem_kat_round-IsDone std k p i w fk fp =
        let seed = (kat_seed drbg i w).0 in
        let start = drbg.init seed (kat_seed drbg i w).1 in
        or_continue-IsDone k.keypair _ start λ pair v1 e1.
          or_continue-IsDone (k.encaps pair.0) _ v1 λ sent v2 e2.
            or_continue-IsDone p.keypair _ (drbg.init seed v2) λ pair2 u1 d1.
              or_continue-IsDone (p.encaps pair2.0) _ u1 λ sent2 u2 d2.
                let (keys, states) =
                  same_keys std.keygen (view start) (view (drbg.init seed v2)) pair pair2 (view v1)
                    (view u1) (seeded seed (kat_seed drbg i w).1 v2)
                    (fk.keypair_follows start v1 pair e1)
                    (fp.keypair_follows (drbg.init seed v2) u1 pair2 d1) in
                let sends : sent ≡ sent2 =
                  fk.encaps_follows pair.0 v1 v2 sent e2
                  ∙ ap (λ (q : List ℕ × List ℕ). std.encaps q.0 (view v1)) keys
                  ∙ ap (std.encaps pair2.0) states
                  ∙ sym (fp.encaps_follows pair2.0 u1 u2 sent2 d2) in
                stop_if-IsDone pair.0 pair2.0 _ _ _ _ u2 (ap left keys) (
                  stop_if-IsDone pair.1 pair2.1 _ _ _ _ u2 (ap right keys) (
                    stop_if-IsDone sent.0 sent2.0 _ _ _ _ u2 (ap left sends)
                      (stop_if-IsDone sent.1 sent2.1 _ _ _ next u2 (ap right sends) tt)))

    kem_kat-IsDone :
        (std : KemStandard D) (n i : ℕ) (k p : Kem W) (w : World W)
        → KemFollows std k
        → KemFollows std p
        → IsDone (kem_kat drbg n i k p w)
    unfolding kem_kat
    kem_kat-IsDone std zero i k p w fk fp = tt
    kem_kat-IsDone std (suc n) i k p w fk fp =
        after-IsDone (kem_kat_round drbg k p i w) (kem_kat drbg n (i + 1) k p)
          (kem_kat_round-IsDone std k p i w fk fp) (λ v. kem_kat-IsDone std n (i + 1) k p v fk fp)

    sig_kat_round-IsDone :
        (std : SigStandard D) (s p : Sig W) (i : ℕ) (w : World W)
        → SigFollows std s
        → SigFollows std p
        → IsDone (sig_kat_round drbg s p i w)
    unfolding sig_kat_round sig_compare
    sig_kat_round-IsDone std s p i w fs fp =
        let seed = (kat_seed drbg i w).0 in
        let start = drbg.init seed (kat_seed drbg i w).1 in
        let msg = count_bytes (32 + i % 64) i in
        or_continue-IsDone s.keypair _ start λ pair v1 e1.
          or_continue-IsDone (s.sign msg pair.1) _ v1 λ sig v2 e2.
            or_continue-IsDone p.keypair _ (drbg.init seed v2) λ pair2 u1 d1.
              or_continue-IsDone (p.sign msg pair2.1) _ u1 λ sig2 u2 d2.
                let (keys, states) =
                  same_keys std.keygen (view start) (view (drbg.init seed v2)) pair pair2 (view v1)
                    (view u1) (seeded seed (kat_seed drbg i w).1 v2)
                    (fs.keypair_follows start v1 pair e1)
                    (fp.keypair_follows (drbg.init seed v2) u1 pair2 d1) in
                let signs : sig ≡ sig2 =
                  fs.sign_follows msg pair.1 v1 v2 sig e2
                  ∙ ap (λ (q : List ℕ × List ℕ). std.sign msg q.1 (view v1)) keys
                  ∙ ap (std.sign msg pair2.1) states
                  ∙ sym (fp.sign_follows msg pair2.1 u1 u2 sig2 d2) in
                stop_if-IsDone pair.0 pair2.0 _ _ _ _ u2 (ap left keys) (
                  stop_if-IsDone pair.1 pair2.1 _ _ _ _ u2 (ap right keys)
                    (length_cmp-IsDone sig sig2 _ next u2 signs tt))

    sig_kat-IsDone :
        (std : SigStandard D) (n i : ℕ) (s p : Sig W) (w : World W)
        → SigFollows std s
        → SigFollows std p
        → IsDone (sig_kat drbg n i s p w)
    unfolding sig_kat
    sig_kat-IsDone std zero i s p w fs fp = tt
    sig_kat-IsDone std (suc n) i s p w fs fp =
        after-IsDone (sig_kat_round drbg s p i w) (sig_kat drbg n (i + 1) s p)
          (sig_kat_round-IsDone std s p i w fs fp) (λ v. sig_kat-IsDone std n (i + 1) s p v fs fp)

  module _ (drbg : Drbg W) (libs : PqcLibs W) (kem_std : String → KemStandard D)
      (sig_std : String → SigStandard D) (conform : Conform drbg libs kem_std sig_std) where
    kem_kat-Passes :
        (n : ℕ) → All (Passes (λ p. p.name) libs.oqs_kem (kem_kat drbg n 0)) (kems libs)
    kem_kat-Passes n =
        All_map (KemConforms kem_std libs) (Passes (λ p. p.name) libs.oqs_kem (kem_kat drbg n 0))
          (kems libs)
          (λ p follow k e v.
            kem_kat-IsDone drbg conform.seeded (kem_std p.name) n 0 k p v (follow k e).0
              (follow k e).1)
          conform.kems_conform

    sig_kat-Passes :
        (n : ℕ) → All (Passes (λ p. p.name) libs.oqs_sig (sig_kat drbg n 0)) (sigs libs)
    sig_kat-Passes n =
        All_map (SigConforms sig_std libs) (Passes (λ p. p.name) libs.oqs_sig (sig_kat drbg n 0))
          (sigs libs)
          (λ p follow s e v.
            sig_kat-IsDone drbg conform.seeded (sig_std p.name) n 0 s p v (follow s e).0
              (follow s e).1)
          conform.sigs_conform

    -- The program comes to its end without a violation, whatever its argument and the state, and
    -- whichever calls fail on the way, if on the enabled schemes both libraries compute the
    -- functions of the generator's state that a standard defines, and nist_kat_init sets that state
    -- by its seed alone. Its status is 1 if liboqs has none of the schemes enabled, and 0 otherwise.
    pub pqc_kat_main-Ends :
        (iters : Option ℕ) (w : World W)
        → Ends (λ (r : ℕ × World W). r.0 ≡ quiet_status libs) (pqc_kat_main drbg libs iters w)
    unfolding pqc_kat_main
    pqc_kat_main-Ends none w =
        schemes_main-Ends libs (kem_kat drbg 200 0) (sig_kat drbg 200 0)
          (drbg.install (libs.init w)) (kem_kat-Passes 200) (sig_kat-Passes 200)
    pqc_kat_main-Ends (some n) w =
        schemes_main-Ends libs (kem_kat drbg n 0) (sig_kat drbg n 0) (drbg.install (libs.init w))
          (kem_kat-Passes n) (sig_kat-Passes n)
