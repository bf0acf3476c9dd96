-- ===== src/Runner/Payload.antt =====
-- `ecdsa_make_payload` and `rsa_make_payload`: a signed message, tampered with on about half of
-- the vectors, and OpenSSL's verdict on it.
pub mod Verdict
pub mod Bytes
pub mod Signers
use cmfuzz.Base.{
  ℕ, zero, suc, ◌+◌, ◌/◌, ◌%◌, ◌^◌, bit_and, bit_xor, List, [], ◌∷◌, ◌++◌, Option, none, some, Bool,
  true, false, ◌==◌, if◌then◌else◌, get_or, set, length,
}
use cmfuzz.Base.Chain.{holds}
use cmfuzz.Runner.Random.{M, ◌>>=◌, give, rnd, rnd_bytes}
use cmfuzz.Runner.OpenSsl.{sha256, OpenSsl}

-- `b[i] ^= (uint8_t)(1u << k)`.
pub flip_bit : List ℕ → ℕ → ℕ → List ℕ
flip_bit b i k = set b i (bit_xor (get_or b i 0) (2 ^ k % 256))

-- `b[rnd() % n] ^= (uint8_t)(1u << (rnd() % 8))`. C leaves open whether the index or the bit is
-- drawn first: here it is the index.
pub flip_random : List ℕ → M (List ℕ)
unfolding flip_bit
flip_random b = do i ← rnd; k ← rnd; give (flip_bit b (i % length b) (k % 8))

pub tamper_message : List ℕ → List ℕ → M (List ℕ × List ℕ)
unfolding flip_random
tamper_message msg sig = do m ← flip_random msg; give (m, sig)

pub tamper_signature : List ℕ → List ℕ → M (List ℕ × List ℕ)
unfolding flip_random
tamper_signature msg sig = do g ← flip_random sig; give (msg, g)

-- One bit of the message or of the signature is flipped if the first draw is odd.
pub tamper : List ℕ → List ℕ → M (List ℕ × List ℕ)
unfolding tamper_message tamper_signature
tamper msg sig s =
    let (t, s1) = rnd s in
    let (u, s2) = rnd s1 in
    if bit_and t 1 == 1
    then (if bit_and u 1 == 1 then tamper_message msg sig s2 else tamper_signature msg sig s2)
    else ((msg, sig), s1)

-- `pl[off++] = (uint8_t)(n >> 8); pl[off++] = (uint8_t)(n & 0xFF);`
abbrev pub length_field : ℕ → List ℕ
length_field n = (n / 2 ^ 8 % 256) ∷ bit_and n 0xFF ∷ []

pub pack_payload : List ℕ → List ℕ → List ℕ → List ℕ
pack_payload key sig msg =
    length_field (length key) ++ (key ++ (length_field (length sig) ++ (sig ++ msg)))

-- What one key offers: signing, OpenSSL's verdict on message and signature, and the bytes of the
-- public key.
pub record Signer : Type 0 where
  pub sign : List ℕ → Option (List ℕ)
  pub verdict : List ℕ → List ℕ → Bool
  pub public_bytes : Option (List ℕ)

-- The payload of a message that was tampered with, if there is a public key.
pub finish_payload : Signer → List ℕ × List ℕ → Option (List ℕ × Bool)
unfolding pack_payload
finish_payload k (msg, sig) = elim k.public_bytes [
  | none ↦ none
  | some key ↦ if length key == 0 then none else some (pack_payload key sig msg, k.verdict msg sig)
]

-- What follows the signing of the message; `none` is the -1.
pub sign_payload : Signer → List ℕ → Option (List ℕ) → M (Option (List ℕ × Bool))
unfolding tamper finish_payload
sign_payload k msg none = give none
sign_payload k msg (some sig) = do changed ← tamper msg sig; give (finish_payload k changed)

-- The two functions with the key at hand.
unfoldable pub make_payload : Signer → M (Option (List ℕ × Bool))
unfolding sign_payload
make_payload k = do n ← rnd; msg ← rnd_bytes (1 + n % 200); sign_payload k msg (k.sign msg)

module _ (ssl : OpenSsl) where
  infixl 5 ◌>>=?◌
  abbrev ◌>>=?◌ {ℓ κ} : {A : Type ℓ} {B : Type κ} → Option A → (A → Option B) → Option B
  none >>=? f = none
  some a >>=? f = f a

  -- EVP_DigestSign and EVP_DigestVerify with SHA-256; 160 bytes of room.
  unfoldable pub ecdsa_signer : ssl.Entropy → ssl.Pkey → Signer
  ecdsa_signer e key = record {
    sign = λ msg. ssl.md_ctx_new >>=? λ c.
        ssl.sign_init c (some sha256) key >>=? λ c. ssl.digest_sign e c 160 msg;
    verdict = λ msg sig. holds (
        ssl.md_ctx_new >>=? λ c.
        ssl.verify_init c (some sha256) key >>=? λ c. some (ssl.digest_verify c sig msg));
    public_bytes = ssl.encoded_public_key key;
  }

  -- `rsa_pss_sign_or_verify`: the same with PSS padding, a salt of 32 bytes and 512 of room.
  unfoldable pub rsa_signer : ssl.Entropy → ssl.Pkey → Signer
  rsa_signer e key = record {
    sign = λ msg. ssl.md_ctx_new >>=? λ c. ssl.sign_init c (some sha256) key >>=? λ c.
        ssl.set_pss c 32 sha256 >>=? λ c. ssl.digest_sign e c 512 msg;
    verdict = λ msg sig. holds (
        ssl.md_ctx_new >>=? λ c. ssl.verify_init c (some sha256) key >>=? λ c.
        ssl.set_pss c 32 sha256 >>=? λ c. some (ssl.digest_verify c sig msg));
    public_bytes = ssl.rsa_modulus key;
  }

  -- The static keys `g_ecdsa_key` and `g_rsa_key`, made when first wanted.
  pub record Keys : Type 0 where
    pub ecdsa_key : Option ssl.Pkey
    pub rsa_key : Option ssl.Pkey

  abbrev pub or_make : Option ssl.Pkey → Option ssl.Pkey → Option ssl.Pkey
  or_make none made = made
  or_make (some k) made = some k

  abbrev pub with_key : Option ssl.Pkey → (ssl.Pkey → Signer) → M (Option (List ℕ × Bool))
  with_key none f = give none
  with_key (some k) f = make_payload (f k)

  unfoldable pub ecdsa_make_payload : ssl.Entropy → Keys → M (Option (List ℕ × Bool) × Keys)
  unfolding make_payload ecdsa_signer
  ecdsa_make_payload e keys =
      let k = or_make keys.ecdsa_key (ssl.ec_gen e) in
      do r ← with_key k (ecdsa_signer e); give (r, record keys { ecdsa_key = k })

  unfoldable pub rsa_make_payload : ssl.Entropy → Keys → M (Option (List ℕ × Bool) × Keys)
  unfolding make_payload rsa_signer
  rsa_make_payload e keys =
      let k = or_make keys.rsa_key (ssl.rsa_gen e) in
      do r ← with_key k (rsa_signer e); give (r, record keys { rsa_key = k })
