-- ===== src/Runner/Payload/Signers.antt =====
-- The two keys that sign payloads, on what OpenSSL documents.
use cmfuzz.Base.{ℕ, ◌≤◌, ◌≡◌, arith, List, Option, none, some, Bool, All, length}
use cmfuzz.Base.Chain.{◌>>=◌, holds}
use cmfuzz.Engine.Prng.{IsByte}
use cmfuzz.Protocol.Ops.{Primitives}
use cmfuzz.Runner.OpenSsl.{sha256, OpenSsl}
use cmfuzz.Runner.Payload.{Signer, ecdsa_signer, rsa_signer}
use cmfuzz.Runner.Payload.Verdict.{FitsBuffers}
use cmfuzz.Runner.Payload.Bytes.{GivesBytes}

-- A key whose verdicts are those of a verification function on its public bytes.
pub record SignerKeeps (k : Signer) (ok : List ℕ → List ℕ → List ℕ → Bool) : Type 0 where
  pub fits : FitsBuffers k
  pub gives : GivesBytes k
  pub verdicts :
      (key msg sig : List ℕ) → k.public_bytes ≡ some key → k.verdict msg sig ≡ ok key sig msg

-- A result of at most `n` bytes.
abbrev pub SmallBytes : ℕ → List ℕ → Type 0
SmallBytes n out = (length out ≤ n) × All IsByte out

-- What OpenSSL documents: a signature stays within the room given, a P-256 point has 65 bytes and a
-- modulus of 2048 bits 256; and a verdict depends on the public key only.
pub record SslSigns (ssl : OpenSsl) (p : Primitives) : Type 0 where
  pub signatures :
      (e : ssl.Entropy) (c : ssl.MdCtx) (room : ℕ) (msg sig : List ℕ)
      → ssl.digest_sign e c room msg ≡ some sig
      → SmallBytes room sig
  pub points :
      (k : ssl.Pkey) (key : List ℕ) → ssl.encoded_public_key k ≡ some key → SmallBytes 65 key
  pub moduli : (k : ssl.Pkey) (key : List ℕ) → ssl.rsa_modulus k ≡ some key → SmallBytes 256 key
  pub ecdsa_verdicts :
      (k : ssl.Pkey) (key msg sig : List ℕ)
      → ssl.encoded_public_key k ≡ some key
      → holds (do
        c ← ssl.md_ctx_new
        c ← ssl.verify_init c (some sha256) k
        some (ssl.digest_verify c sig msg))
        ≡ p.ecdsa_ok key sig msg
  pub rsa_verdicts :
      (k : ssl.Pkey) (key msg sig : List ℕ)
      → ssl.rsa_modulus k ≡ some key
      → holds (do
        c ← ssl.md_ctx_new
        c ← ssl.verify_init c (some sha256) k
        c ← ssl.set_pss c 32 sha256
        some (ssl.digest_verify c sig msg))
        ≡ p.rsa_pss_ok key sig msg

-- A property of every result of a chain, from its last call.
chain_last :
    {A : Type 0} (P : List ℕ → Type 0) (o : Option A) (f : A → Option (List ℕ))
    → ((a : A) (x : List ℕ) → f a ≡ some x → P x)
    → (x : List ℕ) → o >>= f ≡ some x
    → P x
chain_last P none f h x e = cc
chain_last P (some a) f h x e = h a x e

module _ (ssl : OpenSsl) (p : Primitives) (keeps : SslSigns ssl p) (e : ssl.Entropy)
    (k : ssl.Pkey) where
  ecdsa_signature-SmallBytes :
      (msg sig : List ℕ) → (ecdsa_signer ssl e k).sign msg ≡ some sig → SmallBytes 512 sig
  unfolding ecdsa_signer
  ecdsa_signature-SmallBytes msg = chain_last (SmallBytes 512) ssl.md_ctx_new _ (λ c.
      chain_last (SmallBytes 512) (ssl.sign_init c (some sha256) k) _
        (λ c x h. let small = keeps.signatures e c 160 msg x h in (omega arith, small.1)))

  rsa_signature-SmallBytes :
      (msg sig : List ℕ) → (rsa_signer ssl e k).sign msg ≡ some sig → SmallBytes 512 sig
  unfolding rsa_signer
  rsa_signature-SmallBytes msg = chain_last (SmallBytes 512) ssl.md_ctx_new _ (λ c.
      chain_last (SmallBytes 512) (ssl.sign_init c (some sha256) k) _ (λ c.
        chain_last (SmallBytes 512) (ssl.set_pss c 32 sha256) _
          (λ c x h. keeps.signatures e c 512 msg x h)))

  pub ecdsa_signer-SignerKeeps : SignerKeeps (ecdsa_signer ssl e k) p.ecdsa_ok
  unfolding ecdsa_signer
  ecdsa_signer-SignerKeeps = record {
    fits = (
      λ msg sig h. (ecdsa_signature-SmallBytes msg sig h).0,
      λ key h. let small = keeps.points k key h in omega arith,
    );
    gives =
        (λ msg sig h. (ecdsa_signature-SmallBytes msg sig h).1, λ key h. (keeps.points k key h).1);
    verdicts = λ key msg sig h. keeps.ecdsa_verdicts k key msg sig h;
  }

  pub rsa_signer-SignerKeeps : SignerKeeps (rsa_signer ssl e k) p.rsa_pss_ok
  unfolding rsa_signer
  rsa_signer-SignerKeeps = record {
    fits = (
      λ msg sig h. (rsa_signature-SmallBytes msg sig h).0,
      λ key h. let small = keeps.moduli k key h in omega arith,
    );
    gives =
        (λ msg sig h. (rsa_signature-SmallBytes msg sig h).1, λ key h. (keeps.moduli k key h).1);
    verdicts = λ key msg sig h. keeps.rsa_verdicts k key msg sig h;
  }
