-- ===== src/Tests/Libraries.antt =====
-- Stand-ins for the libraries, which compute simple functions in the shape of the real calls.
use cmfuzz.Base.{
  ℕ, zero, suc, ◌%◌, ◌≡◌, refl, ap, take, List, [], ◌∷◌, ◌++◌, append-nil, none, some, true,
  bytes_eq, replicate, if◌then◌else◌,
}
use cmfuzz.Protocol.Names.{digest_size}
use cmfuzz.Protocol.Ops.{Primitives}
use cmfuzz.Backend.Nettle.{NettleCalls}
use cmfuzz.Backend.Nettle.Contract.{NettleKeeps}
use cmfuzz.Backend.AwsLc.{BoringCalls}
use cmfuzz.Backend.AwsLc.Contract.{BoringKeeps, XofsKeep}
use cmfuzz.Backend.Libgcrypt.{MacAlgo, hmac_of, poly1305, cmac_aes, GcryptCalls}
use cmfuzz.Backend.Libgcrypt.Contract.{mac_of, GcryptKeeps}
use cmfuzz.Backend.Wolfssl.{WolfCalls}
use cmfuzz.Backend.Wolfssl.Contract.{WolfKeeps}

-- The first `n` numbers as bytes, with zeros behind them.
abbrev pub fit : ℕ → List ℕ → List ℕ
fit zero msg = []
fit (suc n) [] = 0 ∷ fit n []
fit (suc n) (b ∷ msg) = (b % 256) ∷ fit n msg

take-fit : (n : ℕ) (msg : List ℕ) → take n (fit n msg) ≡ fit n msg
take-fit zero msg = refl
take-fit (suc n) [] = ap (◌∷◌ 0) (take-fit n [])
take-fit (suc n) (b ∷ msg) = ap (◌∷◌ (b % 256)) (take-fit n msg)

abbrev pub simple : Primitives
simple = record {
  hash = λ md msg. fit (digest_size md) msg;
  xof = λ md msg n. msg;
  hmac = λ md key msg. key ++ msg;
  encrypt = λ c key nonce aad msg. msg;
  tag = λ c key nonce aad msg. (key ++ nonce) ++ aad;
  hkdf = λ md ikm salt info n. (salt ++ ikm) ++ info;
  pbkdf2 = λ password salt rounds md n. password ++ salt;
  ed25519 = λ seed msg. fit 64 (seed ++ msg);
  scalar_mult = λ s u. u;
  poly1305 = λ key msg. key ++ msg;
  cmac = λ key msg. key ++ msg;
  ecdsa_ok = λ point sig msg. bytes_eq sig (fit 32 msg);
  rsa_pss_ok = λ modulus sig msg. bytes_eq sig (fit 32 msg);
}

abbrev pub simple_nettle : NettleCalls
simple_nettle = record {
  HashCtx = List ℕ;
  HmacCtx = List ℕ;
  AeadCtx = List ℕ;
  CmacCtx = List ℕ;
  hash_init = λ md. [];
  hash_update = λ md c msg. c ++ msg;
  hash_digest = λ md c n. fit n c;
  sha3_256_shake = λ c n. c;
  hmac_set_key = λ md key. key;
  hmac_update = λ md c msg. c ++ msg;
  hmac_digest = λ md c n. c;
  aead_set_key = λ ci key. key;
  aead_set_nonce = λ ci c nonce. c ++ nonce;
  aead_update = λ ci c aad. c ++ aad;
  aead_encrypt = λ ci c msg. (msg, c);
  aead_digest = λ ci c n. c;
  cmac_set_key = λ key. key;
  cmac_update = λ c msg. c ++ msg;
  cmac_digest = λ c n. c;
  pbkdf2_hmac_sha256 = λ password rounds salt n. password ++ salt;
  hkdf_extract = λ c ikm. c ++ ikm;
  hkdf_expand = λ c info n. c ++ info;
  ed25519_sha512_public_key = λ seed. seed;
  ed25519_sha512_sign = λ public_key seed msg. fit 64 (seed ++ msg);
  curve25519_mul = λ scalar peer. peer;
}

pub simple_nettle-NettleKeeps : NettleKeeps simple_nettle simple
simple_nettle-NettleKeeps = record {
  hashes = λ md msg. refl;
  shakes = λ msg n. refl;
  macs = λ md key msg. refl;
  encrypts = λ ci key nonce aad msg h. refl;
  tags = λ ci key nonce aad msg h. refl;
  no_aad = λ ci key nonce. append-nil (key ++ nonce);
  cmacs = λ key msg h. refl;
  pbkdf2s = λ password salt rounds n h k. refl;
  hkdfs = λ ikm salt info n h. refl;
  signs = λ seed msg h. refl;
  multiplies = λ scalar peer h k. refl;
}

abbrev pub simple_boring : BoringCalls
simple_boring = record {
  Rsa = List ℕ;
  BigNum = List ℕ;
  EcKey = List ℕ;
  EcPoint = List ℕ;
  MdCtx = List ℕ;
  AeadCtx = List ℕ;
  sha256 = λ msg. fit 32 msg;
  rsa_new = some [];
  bn_bin2bn = λ b. some b;
  bn_new = some [];
  bn_set_word = λ b w. some (w ∷ b);
  rsa_set0_key = λ rsa n e. some (n ++ e);
  rsa_verify_pss_mgf1 = λ rsa d md mgf salt sig. bytes_eq sig d;
  ec_key_new = some [];
  ec_point_new = λ k. some [];
  ec_point_oct2point = λ k pt b. some b;
  ec_key_set_public_key = λ k pt. some pt;
  ecdsa_verify = λ k d sig. bytes_eq sig d;
  ed25519_keypair_from_seed = λ seed. seed;
  ed25519_sign = λ msg priv. some (fit 64 (priv ++ msg));
  x25519 = λ k u. if bytes_eq u (replicate 32 0) then none else some u;
  hkdf = λ n md ikm salt info. some ((salt ++ ikm) ++ info);
  pbkdf2_hmac = λ password salt rounds md n. some (password ++ salt);
  digest = λ md msg. some (fit (digest_size md) msg);
  hmac = λ md key msg. some (key ++ msg);
  md_ctx_new = some [];
  digest_init = λ c md. some c;
  digest_update = λ c msg. some (c ++ msg);
  digest_final_xof = λ c n. some c;
  aead_key_length = λ a. 32;
  aead_ctx_new = λ a key. some key;
  aead_ctx_seal = λ c room nonce msg aad. some (msg ++ ((c ++ nonce) ++ aad));
}

pub simple_boring-BoringKeeps : BoringKeeps simple_boring simple
simple_boring-BoringKeeps = record {
  digests = λ md msg. refl;
  hmacs = λ md key msg. refl;
  seals = λ a key nonce msg aad room h k. refl;
  key_lengths = (refl, refl);
  hkdfs = λ n md ikm salt info h. refl;
  pbkdf2s = λ password salt rounds md n h. refl;
  signs = λ seed msg h. refl;
  multiplies = λ k u h l. refl;
  ecdsa_verdicts = λ point sig msg. refl;
  rsa_verdicts = λ modulus sig msg. refl;
}

pub simple_boring-XofsKeep : XofsKeep simple_boring simple
simple_boring-XofsKeep md msg n = refl

abbrev pub simple_gcrypt : GcryptCalls
simple_gcrypt = record {
  MdHandle = List ℕ;
  MacHandle = List ℕ;
  CipherHandle = List ℕ;
  check_version = true;
  md_get_algo_dlen = digest_size;
  md_hash_buffer = λ md msg. fit (digest_size md) msg;
  md_open = λ md. some [];
  md_write = λ h msg. h ++ msg;
  md_extract = λ h md n. some h;
  mac_open = λ algo. some [];
  mac_setkey = λ h key. some key;
  mac_write = λ h msg. some (h ++ msg);
  mac_read = λ h room. some h;
  cipher_open = λ mode. some [];
  cipher_setkey = λ h key. some key;
  cipher_setiv = λ h iv. some (h ++ iv);
  cipher_authenticate = λ h aad. some (h ++ aad);
  cipher_encrypt = λ h msg. some (msg, h);
  cipher_gettag = λ h n. some h;
  kdf_derive = λ password md salt rounds n. some (password ++ salt);
}

simple_macs :
    (algo : MacAlgo) (key msg : List ℕ) → some (key ++ msg) ≡ some (mac_of simple algo key msg)
simple_macs (hmac_of md) key msg = refl
simple_macs poly1305 key msg = refl
simple_macs cmac_aes key msg = refl

pub simple_gcrypt-GcryptKeeps : GcryptKeeps simple_gcrypt simple
simple_gcrypt-GcryptKeeps = record {
  hashes = λ md msg. take-fit (digest_size md) msg;
  extracts = λ md msg n. refl;
  macs = λ algo key msg h. simple_macs algo key msg;
  seals = λ cipher key nonce aad msg h. refl;
  no_aad = λ h. ap some (append-nil h);
  derives = λ password md salt rounds n h k l. refl;
}

abbrev pub simple_wolf : WolfCalls
simple_wolf = record {
  RsaKey = List ℕ;
  EccKey = List ℕ;
  EdKey = List ℕ;
  CurveKey = List ℕ;
  Rng = Unit {0};
  Shake = List ℕ;
  Hmac = List ℕ;
  Aes = List ℕ;
  hash = λ md msg. some (fit (digest_size md) msg);
  init_rsa_key = some [];
  rsa_public_key_decode_raw = λ key n e. some (n ++ e);
  rsa_pss_verify_check = λ key sig d. bytes_eq sig d;
  ecc_init = some [];
  ecc_import_x963 = λ key point. some point;
  ecc_verify_hash = λ key sig d. some (bytes_eq sig d);
  ed25519_init = some [];
  ed25519_import_private_only = λ k seed. some seed;
  ed25519_make_public = λ k. some [];
  ed25519_import_public = λ k b. some (k ++ b);
  ed25519_sign_msg = λ k msg. some (fit 64 (k ++ msg));
  curve25519_init = some [];
  init_rng = some tt;
  curve25519_import_private = λ k b. some b;
  curve25519_import_public = λ k b. some b;
  curve25519_set_rng = λ k rng. some k;
  curve25519_shared_secret = λ k u. if bytes_eq u (replicate 32 0) then none else some u;
  hkdf = λ md ikm salt info n. some ((salt ++ ikm) ++ info);
  pbkdf2 = λ password salt rounds n md. some (password ++ salt);
  init_shake = λ md. some [];
  shake_update = λ md sk msg. some (sk ++ msg);
  shake_final = λ md sk n. some sk;
  hmac_init = some [];
  hmac_set_key = λ h md key. some key;
  hmac_update = λ h msg. some (h ++ msg);
  hmac_final = λ h. some h;
  chacha20_poly1305_encrypt = λ key nonce aad msg. some (msg, (key ++ nonce) ++ aad);
  aes_init = some [];
  aes_gcm_set_key = λ aes key. some key;
  aes_gcm_encrypt = λ aes msg nonce n aad. some (msg, (aes ++ nonce) ++ aad);
}

pub simple_wolf-WolfKeeps : WolfKeeps simple_wolf simple
simple_wolf-WolfKeeps = record {
  hashes = λ md msg. refl;
  shakes = λ md msg n. refl;
  macs = λ md key msg. refl;
  chachas = λ key nonce aad msg h. refl;
  gcms = λ key nonce aad msg h. refl;
  hkdfs = λ md ikm salt info n h. refl;
  pbkdf2s = λ password salt rounds n md h k. refl;
  signs = λ seed msg h. ap (λ (k : List ℕ). some (fit 64 (k ++ msg))) (append-nil seed);
  multiplies = λ k u h l. refl;
  ecdsa_verdicts = λ point sig msg. refl;
  rsa_verdicts = λ modulus sig msg. refl;
}
