-- ===== src/Harness/HpkeParts.antt =====
-- The parts that harness/comp_hpke_harness.c composes: either of the two KEMs that the build chooses
-- from, the key schedule and AES-256-GCM.
pub mod Sealing
use Prim.Native.String.{String}
use cmfuzz.Base.{ℕ, ◌-◌, List, [], ◌++◌, Option, none, some, take, drop, length}
use cmfuzz.Base.Chain.{◌>>=◌}
use cmfuzz.Harness.World.{World, Call}
use cmfuzz.Harness.Kem.{Kem}
use cmfuzz.Harness.Compose.{ComposeCalls, with_aad}

-- A KEM of the harness: ENC_LEN, SS_LEN, kem_setup, kem_encaps and kem_decaps. What the X25519 build
-- keeps in global variables is in the secret key here.
pub record HpkeKem (W : Type 0) : Type 1 where
  pub PublicKey : Type 0
  pub SecretKey : Type 0
  pub kem_name : String
  pub enc_len : ℕ
  pub ss_len : ℕ
  pub kem_setup : Call W (Option (PublicKey × SecretKey))
  pub kem_encaps : PublicKey → Call W (Option (List ℕ × List ℕ))
  pub kem_decaps : SecretKey → List ℕ → Call W (Option (List ℕ))

-- The EVP_PKEY calls of the X25519 build; `none` is NULL, or a result other than 1.
pub record X25519Calls (W : Type 0) : Type 1 where
  pub Key : Type 0
  pub Derivation : Type 0
  pub keygen : Call W (Option Key)
  pub raw_public : Key → Option (List ℕ)
  pub new_raw_public : List ℕ → Option Key
  pub derive_init : Key → Option Derivation
  pub derive_set_peer : Derivation → Key → Option Derivation
  pub derive : Derivation → Option (List ℕ)

module _ {W : Type 0} (lib : X25519Calls W) where
  unfoldable pub x25519_ecdh : lib.Key → List ℕ → Option (List ℕ)
  x25519_ecdh priv pub32 = do
    peer ← lib.new_raw_public pub32
    ctx ← lib.derive_init priv
    ctx ← lib.derive_set_peer ctx peer
    lib.derive ctx

  abbrev with_public : lib.Key → Option (List ℕ × lib.Key)
  with_public k = do out ← lib.raw_public k; some (out, k)

  abbrev x25519_setup : Call W (Option (List ℕ × lib.Key))
  x25519_setup w = let (made, v) = lib.keygen w in (made >>= with_public, v)

  abbrev encaps_with : List ℕ → lib.Key → Option (List ℕ × List ℕ)
  unfolding x25519_ecdh
  encaps_with pk eph = do enc ← lib.raw_public eph; ss ← x25519_ecdh eph pk; some (enc, ss)

  abbrev x25519_encaps : List ℕ → Call W (Option (List ℕ × List ℕ))
  x25519_encaps pk w = let (eph, v) = lib.keygen w in (eph >>= encaps_with pk, v)

  -- The build with CMF_HPKE_KEM 0.
  unfoldable pub x25519_kem : HpkeKem W
  unfolding x25519_ecdh
  x25519_kem = record {
    PublicKey = List ℕ;
    SecretKey = lib.Key;
    kem_name = "HPKE(X25519+HKDF+AES-GCM)";
    enc_len = 32;
    ss_len = 32;
    kem_setup = x25519_setup;
    kem_encaps = x25519_encaps;
    kem_decaps = λ sk enc w. (x25519_ecdh sk enc, w);
  }

-- The build with CMF_HPKE_KEM 1; `length_shared_secret` is of the OQS_KEM.
abbrev pub mlkem_kem : {W : Type 0} → Kem W → ℕ → HpkeKem W
mlkem_kem k length_shared_secret = record {
  PublicKey = List ℕ;
  SecretKey = List ℕ;
  kem_name = "HPKE(ML-KEM-768+HKDF+AES-GCM)";
  enc_len = k.length_ciphertext;
  ss_len = length_shared_secret;
  kem_setup = k.keypair;
  kem_encaps = k.encaps;
  kem_decaps = λ sk enc. k.decaps enc sk;
}

-- EVP_KDF_derive for HKDF with SHA-256 and no salt, of a secret, an info and a length.
pub record HpkeCalls : Type 1 where
  pub evp : ComposeCalls
  pub hkdf_sha256 : List ℕ → List ℕ → ℕ → Option (List ℕ)

module _ (lib : HpkeCalls) where
  -- Key and nonce.
  unfoldable pub key_schedule : List ℕ → List ℕ → Option (List ℕ × List ℕ)
  key_schedule ss info = do okm ← lib.hkdf_sha256 ss info 44; some (take 32 okm, drop 32 okm)

  unfoldable pub gcm_seal_aad : List ℕ × List ℕ → List ℕ → List ℕ → List ℕ
  gcm_seal_aad key_nonce aad m =
      let c =
        lib.evp.set_key_nonce (lib.evp.set_ivlen lib.evp.gcm_encrypt_init 12) key_nonce.0
          key_nonce.1 in
      let first = lib.evp.update (with_aad lib.evp c aad) m in
      let second = lib.evp.encrypt_final first.1 in
      first.0 ++ (second.0 ++ lib.evp.get_tag second.1 16)

  -- The plaintext, if the tag verifies.
  unfoldable pub gcm_open_aad : List ℕ × List ℕ → List ℕ → List ℕ → Option (List ℕ)
  gcm_open_aad key_nonce aad ct = do
    let c =
        lib.evp.set_key_nonce (lib.evp.set_ivlen lib.evp.gcm_decrypt_init 12) key_nonce.0
          key_nonce.1
    let first = lib.evp.update (with_aad lib.evp c aad) (take (length ct - 16) ct)
    last ← lib.evp.decrypt_final (lib.evp.set_tag first.1 (drop (length ct - 16) ct))
    some (first.0 ++ last)
