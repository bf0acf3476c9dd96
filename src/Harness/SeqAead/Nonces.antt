-- ===== src/Harness/SeqAead/Nonces.antt =====
-- What the source of nonces promises over the life of a key.
use cmfuzz.Base.{ℕ, zero, suc, ◌+◌, ◌^◌, ◌<◌, ◌≡◌, ◌≢◌, ap, arith, List, [], ◌∷◌, All, get_or}
use cmfuzz.Harness.Compose.Nonce.{number_of_bytes}
use cmfuzz.Harness.SeqAead.{nonce_source}

-- `n` nonces, one after the other.
unfoldable pub draws : ℕ → ℕ → List (List ℕ)
draws zero ctr = []
draws (suc n) ctr = (nonce_source ctr).0 ∷ draws n (nonce_source ctr).1

pub AreDistinct : List (List ℕ) → Type 0
AreDistinct [] = Unit {0}
AreDistinct (x ∷ xs) = All (λ (y : List ℕ). x ≢ y) xs × AreDistinct xs

nonce-injective :
    (s t : ℕ) → s < 2 ^ 64 → t < 2 ^ 64 → (nonce_source s).0 ≡ (nonce_source t).0 → s ≡ t
unfolding nonce_source
nonce-injective s t hs ht e =
    let at = λ (j : ℕ). ap (λ (l : List ℕ). get_or l j 0) e in
    number_of_bytes s t hs ht (at 11) (at 10) (at 9) (at 8) (at 7) (at 6) (at 5) (at 4)

next_counter : (c : ℕ) → c + 1 < 2 ^ 64 → (nonce_source c).1 ≡ c + 1
unfolding nonce_source
next_counter c h = omega (arith, h)

-- A nonce that was drawn before does not come again.
draws_later :
    (s n c : ℕ) → s < c → c + n < 2 ^ 64 → All (λ (y : List ℕ). (nonce_source s).0 ≢ y) (draws n c)
unfolding draws
draws_later s zero c h k = tt
draws_later s (suc n) c h k =
    let fresh : (nonce_source s).0 ≢ (nonce_source c).0 = λ e.
      let same = nonce-injective s c (omega arith) (omega arith) e in
      absurd (omega (arith, same, h)) in
    let step = next_counter c (omega arith) in
    (fresh, draws_later s n (nonce_source c).1 (omega (arith, step, h)) (omega (arith, step, k)))

-- The nonces that the source gives one after the other are pairwise different, from any counter
-- and for as many draws as leave the counter below 2^64.
pub draws-AreDistinct : (n c : ℕ) → c + n < 2 ^ 64 → AreDistinct (draws n c)
unfolding draws AreDistinct
draws-AreDistinct zero c h = tt
draws-AreDistinct (suc n) c h =
    let step = next_counter c (omega arith) in
    (
      draws_later c n (nonce_source c).1 (omega (arith, step)) (omega (arith, step, h)),
      draws-AreDistinct n (nonce_source c).1 (omega (arith, step, h)),
    )
