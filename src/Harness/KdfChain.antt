-- ===== src/Harness/KdfChain.antt =====
-- harness/comp_kdfchain_harness.c, without its fault hook CMF_FAULT_KDF: a chain of keys, each of
-- which seals one message.
pub mod Separation
use cmfuzz.Base.{
  ℕ, zero, suc, ◌+◌, ◌-◌, ◌%◌, List, [], ◌∷◌, ◌++◌, Option, none, some, Bool, true, false, not,
  ◌&&◌, ltb, ◌==◌, if◌then◌else◌, bytes_eq, take, drop, length, set, replicate, get_or,
}
use cmfuzz.Base.Chain.{◌>>=◌}
use cmfuzz.Base.Text.{codes}
use cmfuzz.Engine.Prng.{prng_seed, randombytes}
use cmfuzz.Engine.Reader.{Reader, reader_init, u8}
use cmfuzz.Engine.Oracle.{Run, next, finish, ◌>>◌, assert}
use cmfuzz.Harness.Compose.{is_some}

-- The OpenSSL calls: HKDF with SHA-256 from a key and an info to 32 bytes, and AES-256-GCM begun with
-- its key and nonce in one call.
pub record ChainCalls : Type 1 where
  pub CipherCtx : Type 0
  pub hkdf_sha256 : List ℕ → List ℕ → Option (List ℕ)
  pub encrypt_init : List ℕ → List ℕ → CipherCtx
  pub decrypt_init : List ℕ → List ℕ → CipherCtx
  pub update : CipherCtx → List ℕ → List ℕ × CipherCtx
  pub encrypt_final : CipherCtx → List ℕ × CipherCtx
  pub get_tag : CipherCtx → ℕ → List ℕ
  pub set_tag : CipherCtx → List ℕ → CipherCtx
  pub decrypt_final : CipherCtx → Option (List ℕ)

-- `N_CHAIN`.
abbrev pub n_chain : ℕ
n_chain = 4

-- An array after a derivation whose result nothing looks at; `left` is what it held before.
abbrev pub derived : Option (List ℕ) → List ℕ → List ℕ
derived none left = left
derived (some k) left = k

-- `ok && memcmp(pt, msg[i], 16) == 0`.
abbrev pub opens_own : Option (List ℕ) → List ℕ → Bool
opens_own none m = false
opens_own (some pt) m = bytes_eq (take 16 pt) m

-- Row `i` of an array of byte arrays.
abbrev pub row : List (List ℕ) → ℕ → List ℕ
row rows i = get_or rows i []

-- The messages from number `i` on, one for each of the keys.
unfoldable pub messages : ℕ → List (List ℕ) → ℕ → List (List ℕ)
messages i [] s = []
messages i (k ∷ keys) s =
    let (m, s1) = randombytes 16 s in set m 0 (i % 256) ∷ messages (i + 1) keys s1

module _ (lib : ChainCalls) where
  -- The keys after `key`, `left` being the arrays that the chain fills.
  unfoldable pub key_chain : List (List ℕ) → List ℕ → List (List ℕ)
  key_chain [] key = []
  key_chain (left ∷ arrays) key =
      let k = derived (lib.hkdf_sha256 key (codes "chain")) left in k ∷ key_chain arrays k

  unfoldable pub chain_seal : List ℕ → List ℕ → List ℕ
  chain_seal k m =
      let first = lib.update (lib.encrypt_init k (replicate 12 0)) m in
      let second = lib.encrypt_final first.1 in first.0 ++ (second.0 ++ lib.get_tag second.1 16)

  -- The plaintext, if the tag verifies.
  unfoldable pub chain_open : List ℕ → List ℕ → Option (List ℕ)
  chain_open k ct = do
    let first = lib.update (lib.decrypt_init k (replicate 12 0)) (take (length ct - 16) ct)
    last ← lib.decrypt_final (lib.set_tag first.1 (drop (length ct - 16) ct))
    some (first.0 ++ last)

  -- Each message under its own key.
  unfoldable pub seal_all : List (List ℕ) → List (List ℕ) → List (List ℕ)
  unfolding chain_seal
  seal_all [] msgs = []
  seal_all (k ∷ keys) [] = []
  seal_all (k ∷ keys) (m ∷ msgs) = chain_seal k m ∷ seal_all keys msgs

  unfoldable pub open_all : List (List ℕ) → List (List ℕ) → List (List ℕ) → Run (Unit {0})
  unfolding chain_open
  open_all (k ∷ keys) (m ∷ msgs) (ct ∷ cts) =
      assert (opens_own (chain_open k ct) m) "KDF-chain(HKDF+AES-GCM)" "O5-roundtrip"
        "message did not open under its own chain key"
      >> open_all keys msgs cts
  open_all keys msgs cts = next tt

  -- Message `i` under key `j`.
  unfoldable pub separation : ℕ → ℕ → List (List ℕ) → List (List ℕ) → Run (Unit {0})
  unfolding chain_open
  separation i j keys cts =
      if i == j
      then next tt
      else assert (not (is_some (chain_open (row keys j) (row cts i)))) "KDF-chain(HKDF+AES-GCM)"
          "O5-key-separation" "a chain key decrypted another step's message"

  unfoldable pub chain_checks :
      List (List ℕ) → List (List ℕ) → List (List ℕ) → Reader → Run (Unit {0})
  unfolding open_all separation
  chain_checks keys msgs cts r =
      let (i, r1) = u8 r in
      let (j, _) = u8 r1 in
      open_all keys msgs cts >> separation (i % n_chain) (j % n_chain) keys cts

  -- `LLVMFuzzerTestOneInput`; `left` is what the array `keys` holds at its start.
  unfoldable pub chain_input : List (List ℕ) → List ℕ → Run (Unit {0})
  unfolding key_chain messages seal_all chain_checks
  chain_input left bytes =
      let (ikm, s) = randombytes 32 (prng_seed bytes) in
      let keys = key_chain (take n_chain left) ikm in
      let msgs = messages 0 keys s in
      if ltb (length bytes) 4
      then finish
      else chain_checks keys msgs (seal_all keys msgs) (reader_init bytes (length bytes))
