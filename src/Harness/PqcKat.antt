-- ===== src/Harness/PqcKat.antt =====
-- harness/pqc_kat_harness.c, without its fault hook CMF_KAT_FAULT: liboqs and PQClean from one
-- generator, compared byte by byte.
pub mod Silent
pub mod Detect
use Prim.Native.String.{String}
use cmfuzz.Base.{
  ℕ, zero, suc, ◌+◌, ◌%◌, List, [], ◌∷◌, Option, none, some, Bool, true, false, not, ◌==◌, bytes_eq,
  length,
}
use cmfuzz.Engine.Oracle.{Run, next}
use cmfuzz.Harness.World.{World, Call}
use cmfuzz.Harness.Kem.{Kem}
use cmfuzz.Harness.Sig.{Sig}
use cmfuzz.Harness.Pqc.{Round, or_continue, stop_if, after, PqcLibs, schemes_main}

-- nist_kat_init with a seed and randombytes, from PQClean's nistkatrng.c, and
-- OQS_randombytes_custom_algorithm, after which liboqs draws from the same generator.
pub record Drbg (W : Type 0) : Type 0 where
  pub init : List ℕ → World W → World W
  pub draw : ℕ → Call W (List ℕ)
  pub install : World W → World W

-- `n` bytes that count up from `i`.
unfoldable pub count_bytes : ℕ → ℕ → List ℕ
count_bytes zero i = []
count_bytes (suc n) i = i % 256 ∷ count_bytes n (i + 1)

-- `cmp`, and what follows; `message` is what its snprintf writes for `what`.
abbrev pub kat_cmp : {W : Type 0} → String → String → List ℕ → List ℕ → Round W → Round W
kat_cmp alg message a b f = stop_if (not (bytes_eq a b)) alg "O1_kat_bytes" message f

-- The signatures are compared if their lengths are the same.
abbrev pub length_cmp : {W : Type 0} → String → List ℕ → List ℕ → Round W → Round W
length_cmp alg a b f =
    stop_if (not (length a == length b)) alg "O1_kat_bytes"
      "liboqs vs PQClean signature length differ"
      (kat_cmp alg "liboqs vs PQClean SIG sig bytes differ" a b f)

-- What PQClean makes of the same seed, and the comparisons.
unfoldable pub kem_compare : {W : Type 0} → Kem W → List ℕ × List ℕ → List ℕ × List ℕ → Round W
kem_compare p pair sent = or_continue p.keypair λ pair2. or_continue (p.encaps pair2.0) λ sent2.
    kat_cmp p.name "liboqs vs PQClean KEM pk bytes differ" pair.0 pair2.0 (
      kat_cmp p.name "liboqs vs PQClean KEM sk bytes differ" pair.1 pair2.1 (
        kat_cmp p.name "liboqs vs PQClean KEM ct bytes differ" sent.0 sent2.0
          (kat_cmp p.name "liboqs vs PQClean KEM ss bytes differ" sent.1 sent2.1 next)))

unfoldable pub sig_compare : {W : Type 0} → Sig W → List ℕ → List ℕ × List ℕ → List ℕ → Round W
sig_compare p msg pair sig = or_continue p.keypair λ pair2. or_continue (p.sign msg pair2.1) λ sig2.
    kat_cmp p.name "liboqs vs PQClean SIG pk bytes differ" pair.0 pair2.0 (
      kat_cmp p.name "liboqs vs PQClean SIG sk bytes differ" pair.1 pair2.1
        (length_cmp p.name sig sig2 next))

module _ {W : Type 0} (drbg : Drbg W) where
  -- The last of `n` draws; `seed` before them.
  unfoldable pub draw_seeds : ℕ → List ℕ → Call W (List ℕ)
  draw_seeds zero seed w = (seed, w)
  draw_seeds (suc n) seed w = let (s, v) = drbg.draw 48 w in draw_seeds n s v

  unfoldable pub kat_seed : ℕ → Call W (List ℕ)
  unfolding count_bytes draw_seeds
  kat_seed i w = draw_seeds (i + 1) [] (drbg.init (count_bytes 48 1) w)

  unfoldable pub kem_kat_round : Kem W → Kem W → ℕ → Round W
  unfolding kat_seed kem_compare
  kem_kat_round k p i w =
      let (seed, w1) = kat_seed i w in
      or_continue k.keypair
        (λ pair. or_continue (k.encaps pair.0) λ sent v. kem_compare p pair sent (drbg.init seed v))
        (drbg.init seed w1)

  -- `n` iterations of the loop of `kem_kat`, from index `i`.
  unfoldable pub kem_kat : ℕ → ℕ → Kem W → Kem W → Round W
  unfolding kem_kat_round
  kem_kat zero i k p w = next w
  kem_kat (suc n) i k p w = after (kem_kat_round k p i w) (kem_kat n (i + 1) k p)

  unfoldable pub sig_kat_round : Sig W → Sig W → ℕ → Round W
  unfolding kat_seed sig_compare count_bytes
  sig_kat_round s p i w =
      let (seed, w1) = kat_seed i w in
      let msg = count_bytes (32 + i % 64) i in
      or_continue s.keypair
        (λ pair.
          or_continue (s.sign msg pair.1) λ sig v. sig_compare p msg pair sig (drbg.init seed v))
        (drbg.init seed w1)

  -- `n` iterations of the loop of `sig_kat`, from index `i`.
  unfoldable pub sig_kat : ℕ → ℕ → Sig W → Sig W → Round W
  unfolding sig_kat_round
  sig_kat zero i s p w = next w
  sig_kat (suc n) i s p w = after (sig_kat_round s p i w) (sig_kat n (i + 1) s p)

  -- `main`, with what `atol` gave for the first argument; a number below zero makes no iteration,
  -- as 0.
  unfoldable pub pqc_kat_main : PqcLibs W → Option ℕ → World W → Run (ℕ × World W)
  unfolding schemes_main kem_kat sig_kat
  pqc_kat_main libs none w =
      schemes_main libs (kem_kat 200 0) (sig_kat 200 0) (drbg.install (libs.init w))
  pqc_kat_main libs (some iters) w =
      schemes_main libs (kem_kat iters 0) (sig_kat iters 0) (drbg.install (libs.init w))
