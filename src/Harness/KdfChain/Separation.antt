-- ===== src/Harness/KdfChain/Separation.antt =====
-- The keys of a chain are separate, and each opens its own message.
use cmfuzz.Base.{
  ℕ, zero, suc, ◌+◌, ◌-◌, ◌%◌, ◌<◌, ◌≡◌, ◌≢◌, refl, sym, ap, ap₂, ◌∙◌, arith, List, [], ◌∷◌, ◌++◌,
  All, Option, none, some, false, ltb, ◌==◌, Bool-cases, inl, inr, bytes_eq_refl, take, length,
  length-append, length-set, take-append, drop-append, take_all, append_assoc, replicate,
}
use cmfuzz.Base.Chain.{◌>>=◌}
use cmfuzz.Base.Text.{codes}
use cmfuzz.Engine.Prng.{IsU64, prng_seed, randombytes}
use cmfuzz.Engine.Prng.Stream.{randombytes_lem, prng_seed_range}
use cmfuzz.Engine.Reader.{Reader, reader_init, u8}
use cmfuzz.Engine.Oracle.{next, IsViolation}
use cmfuzz.Harness.KdfChain.{
  ChainCalls, n_chain, derived, row, key_chain, chain_seal, chain_open, messages, seal_all,
  open_all, separation, chain_checks, chain_input,
}

module _ (lib : ChainCalls) where
  -- What is encrypted under a key and the zero nonce, and the context behind it.
  abbrev pub encrypted : List ℕ → List ℕ → List ℕ × lib.CipherCtx
  encrypted k m =
      let first = lib.update (lib.encrypt_init k (replicate 12 0)) m in
      let second = lib.encrypt_final first.1 in (first.0 ++ second.0, second.1)

  abbrev pub decrypted : List ℕ → List ℕ → List ℕ → Option (List ℕ)
  decrypted k ct tag = do
    let first = lib.update (lib.decrypt_init k (replicate 12 0)) ct
    last ← lib.decrypt_final (lib.set_tag first.1 tag)
    some (first.0 ++ last)

  abbrev pub sealed_under : List ℕ → List ℕ → List ℕ → Option (List ℕ)
  sealed_under k k' m = decrypted k' (encrypted k m).0 (lib.get_tag (encrypted k m).1 16)

-- The key after `n` steps of a derivation.
abbrev pub steps : (List ℕ → List ℕ) → ℕ → List ℕ → List ℕ
steps next_key zero k = k
steps next_key (suc n) k = steps next_key n (next_key k)

-- AES-256-GCM opens what it sealed, a tag has 16 bytes, and what was sealed under one derived key
-- does not open under another; HKDF succeeds, and no key comes twice within the four steps.
pub record ChainKeeps (lib : ChainCalls) (next_key : List ℕ → List ℕ) : Type 0 where
  pub opens : (k m : List ℕ) → sealed_under lib k k m ≡ some m
  pub tag_size : (c : lib.CipherCtx) → length (lib.get_tag c 16) ≡ 16
  pub rejects :
      (x y m : List ℕ)
      → next_key x ≢ next_key y
      → sealed_under lib (next_key x) (next_key y) m ≡ none
  pub derives : (k : List ℕ) → lib.hkdf_sha256 k (codes "chain") ≡ some (next_key k)
  pub no_cycle :
      (ikm : List ℕ) (i j : ℕ)
      → i < n_chain
      → j < n_chain
      → i ≢ j
      → steps next_key (suc i) ikm ≢ steps next_key (suc j) ikm

==_false→ne : (i j : ℕ) → (i == j) ≡ false → i ≢ j
==_false→ne i j h e = ground (arith, h, e)

length-messages : (keys : List (List ℕ)) (i s : ℕ) → length (messages i keys s) ≡ length keys
unfolding messages
length-messages [] i s = refl
length-messages (k ∷ keys) i s = ap suc (length-messages keys (i + 1) (randombytes 16 s).1)

messages_short :
    (keys : List (List ℕ)) (i s : ℕ)
    → IsU64 s
    → All (λ (m : List ℕ). length m ≡ 16) (messages i keys s)
unfolding messages
messages_short [] i s u = tt
messages_short (k ∷ keys) i s u =
    let drawn = randombytes 16 s in
    let fills = randombytes_lem 16 s u in
    (
      length-set drawn.0 0 (i % 256) ∙ fills.0,
      messages_short keys (i + 1) drawn.1 (rw fills.2 (omega arith)),
    )

module _ (lib : ChainCalls) (next_key : List ℕ → List ℕ) (keeps : ChainKeeps lib next_key) where
  opened_under :
      (k k' m : List ℕ) → chain_open lib k' (chain_seal lib k m) ≡ sealed_under lib k k' m
  unfolding chain_open chain_seal
  opened_under k k' m =
      let first = lib.update (lib.encrypt_init k (replicate 12 0)) m in
      let ct = (encrypted lib k m).0 in
      let tag = lib.get_tag (encrypted lib k m).1 16 in
      let whole : chain_seal lib k m ≡ ct ++ tag =
        sym (append_assoc first.0 (lib.encrypt_final first.1).0 tag) in
      let size : length (ct ++ tag) - 16 ≡ length ct =
        omega (arith, length-append ct tag, keeps.tag_size (encrypted lib k m).1) in
      let front = take-append (length ct) ct tag refl in
      let behind = drop-append (length ct) ct tag refl in
      ap (chain_open lib k') whole ∙ rw (size, front, behind) refl

  open_all_lem :
      (keys msgs : List (List ℕ))
      → length msgs ≡ length keys
      → All (λ (m : List ℕ). length m ≡ 16) msgs
      → open_all lib keys msgs (seal_all lib keys msgs) ≡ next tt
  unfolding open_all seal_all
  open_all_lem [] [] e h = refl
  open_all_lem [] (m ∷ msgs) e h = refl
  open_all_lem (k ∷ keys) [] e h = refl
  open_all_lem (k ∷ keys) (m ∷ msgs) e h =
      let whole : take 16 m ≡ m = take_all 16 m (omega (arith, h.0)) in
      rw (opened_under k k m, keeps.opens k m, whole, bytes_eq_refl m)
        (open_all_lem keys msgs (omega (arith, e)) h.1)

  row-key_chain :
      (left : List (List ℕ)) (key : List ℕ) (i : ℕ)
      → i < length left
      → row (key_chain lib left key) i ≡ steps next_key (suc i) key
  unfolding key_chain
  row-key_chain [] key i h = absurd (omega arith)
  row-key_chain (l ∷ left) key zero h =
      ap (λ (o : Option (List ℕ)). derived o l) (keeps.derives key)
  row-key_chain (l ∷ left) key (suc i) h =
      ap (λ (o : Option (List ℕ)). row (key_chain lib left (derived o l)) i) (keeps.derives key)
      ∙ row-key_chain left (next_key key) i (omega arith)

  row-seal_all :
      (keys msgs : List (List ℕ)) (i : ℕ)
      → i < length keys
      → length msgs ≡ length keys
      → row (seal_all lib keys msgs) i ≡ chain_seal lib (row keys i) (row msgs i)
  unfolding seal_all
  row-seal_all [] msgs i h e = absurd (omega arith)
  row-seal_all (k ∷ keys) [] i h e = absurd (omega arith)
  row-seal_all (k ∷ keys) (m ∷ msgs) zero h e = refl
  row-seal_all (k ∷ keys) (m ∷ msgs) (suc i) h e =
      row-seal_all keys msgs i (omega arith) (omega (arith, e))

  steps_next : (n : ℕ) (k : List ℕ) → steps next_key (suc n) k ≡ next_key (steps next_key n k)
  steps_next zero k = refl
  steps_next (suc n) k = steps_next n (next_key k)

  length-key_chain :
      (left : List (List ℕ)) (key : List ℕ) → length (key_chain lib left key) ≡ length left
  unfolding key_chain
  length-key_chain [] key = refl
  length-key_chain (l ∷ left) key =
      ap suc (length-key_chain left (derived (lib.hkdf_sha256 key (codes "chain")) l))

  separation_lem :
      (left msgs : List (List ℕ)) (ikm : List ℕ) (i j : ℕ)
      → length left ≡ n_chain
      → length msgs ≡ n_chain
      → i < n_chain
      → j < n_chain
      → separation lib i j (key_chain lib left ikm) (seal_all lib (key_chain lib left ikm) msgs)
        ≡ next tt
  unfolding separation
  separation_lem left msgs ikm i j fl fm hi hj =
      let keys = key_chain lib left ikm in
      let size : length keys ≡ n_chain = length-key_chain left ikm ∙ fl in
      let here : row keys i ≡ next_key (steps next_key i ikm) =
        row-key_chain left ikm i (omega (arith, fl)) ∙ steps_next i ikm in
      let there : row keys j ≡ next_key (steps next_key j ikm) =
        row-key_chain left ikm j (omega (arith, fl)) ∙ steps_next j ikm in
      let sealed : row (seal_all lib keys msgs) i ≡ chain_seal lib (row keys i) (row msgs i) =
        row-seal_all keys msgs i (omega (arith, size)) (omega (arith, size, fm)) in
      elim (Bool-cases (i == j)) [
        | inl same ↦ rw same refl
        | inr other ↦
            let apart : next_key (steps next_key i ikm) ≢ next_key (steps next_key j ikm) = λ e.
              keeps.no_cycle ikm i j hi hj (λ s. absurd (==_false→ne i j other s))
                (steps_next i ikm ∙ e ∙ sym (steps_next j ikm)) in
            let closed : chain_open lib (row keys j) (row (seal_all lib keys msgs) i) ≡ none =
              ap (chain_open lib (row keys j)) sealed
              ∙ opened_under (row keys i) (row keys j) (row msgs i)
              ∙ ap₂ (λ a b. sealed_under lib a b (row msgs i)) here there
              ∙ keeps.rejects (steps next_key i ikm) (steps next_key j ikm) (row msgs i) apart in
            rw (other, closed) refl
      ]

  chain_checks_lem :
      (left msgs : List (List ℕ)) (ikm : List ℕ) (r : Reader)
      → length left ≡ n_chain
      → length msgs ≡ n_chain
      → All (λ (m : List ℕ). length m ≡ 16) msgs
      → let keys = key_chain lib left ikm in
        chain_checks lib keys msgs (seal_all lib keys msgs) r ≡ next tt
  unfolding chain_checks
  chain_checks_lem left msgs ikm r fl fm short =
      let keys = key_chain lib left ikm in
      let same : length msgs ≡ length keys = omega (arith, fl, fm, length-key_chain left ikm) in
      let i = (u8 r).0 % 4 in
      let j = (u8 (u8 r).1).0 % 4 in
      rw (open_all_lem keys msgs same short)
        (separation_lem left msgs ikm i j fl fm (omega arith) (omega arith))

  -- No input of the fuzzer makes the harness report a violation, when HKDF succeeds and its chain has
  -- no cycle within four steps, and AES-256-GCM opens what it sealed under a derived key with that
  -- key, and not with a different derived key.
  pub chain_input-safe :
      (left : List (List ℕ)) (bytes : List ℕ)
      → length left ≡ n_chain
      → ¬ IsViolation (chain_input lib left bytes)
  unfolding chain_input
  chain_input-safe left bytes fl =
      let drawn = randombytes 32 (prng_seed bytes) in
      let fills = randombytes_lem 32 (prng_seed bytes) (prng_seed_range bytes).1 in
      let four : take n_chain left ≡ left = take_all n_chain left (omega (arith, fl)) in
      let keys = key_chain lib left drawn.0 in
      let msgs = messages 0 keys drawn.1 in
      let size : length msgs ≡ n_chain =
        length-messages keys 0 drawn.1 ∙ length-key_chain left drawn.0 ∙ fl in
      let u : IsU64 drawn.1 = rw fills.2 (omega arith) in
      let checks =
        chain_checks_lem left msgs drawn.0 (reader_init bytes (length bytes)) fl size
          (messages_short keys 0 drawn.1 u) in
      elim (Bool-cases (ltb (length bytes) 4)) [
        | inl tiny ↦ rw tiny (λ v. v)
        | inr long ↦ rw (long, four, checks) (λ v. v)
      ]
