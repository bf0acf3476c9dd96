-- ===== src/Engine/Prng/Inject.antt =====
-- The mixer of SplitMix64 loses nothing: a value determines the state that it came from.
use cmfuzz.Base.{ℕ, ◌*◌, ◌/◌, ◌%◌, ◌^◌, ◌≤◌, ◌<◌, ◌≡◌, sym, ap, ap₂, ◌∙◌, arith, bit_xor}
use native.Mathlib.Nat.{div-le_self}
use cmfuzz.Base.Bits.{xor_assoc, xor_self, xor-zero, xor_shift, xor_lt}
use cmfuzz.Engine.Prng.{u64_mod, IsU64, mix_first, mix_second, mix_last, next_state, splitmix64}

-- Undoes `z ^ (z >> k)` for a `z` of at most `3 * k` bits.
unshift : ℕ → ℕ → ℕ
unshift k y = bit_xor y (bit_xor (y / 2 ^ k) (y / 2 ^ k / 2 ^ k))

unshift_lem : (k z : ℕ) → z / 2 ^ k / 2 ^ k / 2 ^ k ≡ 0 → unshift k (bit_xor z (z / 2 ^ k)) ≡ z
unfolding unshift
unshift_lem k z h =
    let u : ℕ = z / 2 ^ k in
    let v : ℕ = u / 2 ^ k in
    let once : bit_xor z u / 2 ^ k ≡ bit_xor u v = xor_shift k z u in
    let gone : bit_xor v (v / 2 ^ k) ≡ v = ap (bit_xor v) h ∙ xor-zero v in
    let twice : bit_xor z u / 2 ^ k / 2 ^ k ≡ v =
      ap (λ (t : ℕ). t / 2 ^ k) once ∙ xor_shift k u v ∙ gone in
    let cancel : bit_xor (bit_xor u v) v ≡ u =
      xor_assoc u v v ∙ ap (bit_xor u) (xor_self v) ∙ xor-zero u in
    ap (bit_xor (bit_xor z u)) (ap₂ bit_xor once twice ∙ cancel)
    ∙ xor_assoc z u u
    ∙ ap (bit_xor z) (xor_self u)
    ∙ xor-zero z

mul_undo_first :
    (z : ℕ) → IsU64 z → z * 0xBF58476D1CE4E5B9 % u64_mod * 0x96de1b173f119089 % u64_mod ≡ z
mul_undo_first z h = omega arith

mul_undo_second :
    (z : ℕ) → IsU64 z → z * 0x94D049BB133111EB % u64_mod * 0x319642b2d24d8ec3 % u64_mod ≡ z
mul_undo_second z h = omega arith

xor_word : (k z : ℕ) → IsU64 z → IsU64 (bit_xor z (z / 2 ^ k))
xor_word k z h = xor_lt 64 z (z / 2 ^ k) h (le-lt (div-le_self z (2 ^ k)))
  where
    le-lt : z / 2 ^ k ≤ z → z / 2 ^ k < 2 ^ 64
    le-lt p = omega arith

mix_first_undo : (z : ℕ) → IsU64 z → unshift 30 (mix_first z * 0x96de1b173f119089 % u64_mod) ≡ z
unfolding mix_first
mix_first_undo z h =
    ap (unshift 30) (mul_undo_first _ (xor_word 30 z h)) ∙ unshift_lem 30 z (omega arith)

mix_second_undo : (z : ℕ) → IsU64 z → unshift 27 (mix_second z * 0x319642b2d24d8ec3 % u64_mod) ≡ z
unfolding mix_second
mix_second_undo z h =
    ap (unshift 27) (mul_undo_second _ (xor_word 27 z h)) ∙ unshift_lem 27 z (omega arith)

mix_last_undo : (z : ℕ) → IsU64 z → unshift 31 (mix_last z) ≡ z
unfolding mix_last
mix_last_undo z h = unshift_lem 31 z (omega arith)

-- The value that `cmf_splitmix64` returns determines the state that it was called with: over the
-- 64-bit states no two give the same value.
pub splitmix64-injective :
    (s t : ℕ) → IsU64 s → IsU64 t → (splitmix64 s).0 ≡ (splitmix64 t).0 → s ≡ t
unfolding splitmix64
splitmix64-injective s t hs ht e =
    let a : ℕ = next_state s in
    let b : ℕ = next_state t in
    let a_word : IsU64 a = unfold next_state in omega arith in
    let b_word : IsU64 b = unfold next_state in omega arith in
    let second : mix_second (mix_first a) ≡ mix_second (mix_first b) =
      sym (mix_last_undo _ (second_word _)) ∙ ap (unshift 31) e ∙ mix_last_undo _ (second_word _) in
    let first : mix_first a ≡ mix_first b =
      sym (mix_second_undo _ (first_word _))
      ∙ ap (λ (v : ℕ). unshift 27 (v * 0x319642b2d24d8ec3 % u64_mod)) second
      ∙ mix_second_undo _ (first_word _) in
    let states : a ≡ b =
      sym (mix_first_undo a a_word)
      ∙ ap (λ (v : ℕ). unshift 30 (v * 0x96de1b173f119089 % u64_mod)) first
      ∙ mix_first_undo b b_word in
    next_state-injective s t hs ht states
  where
    first_word : (z : ℕ) → IsU64 (mix_first z)
    first_word z = unfold mix_first in omega arith

    second_word : (z : ℕ) → IsU64 (mix_second z)
    second_word z = unfold mix_second in omega arith

    next_state-injective : (s t : ℕ) → IsU64 s → IsU64 t → next_state s ≡ next_state t → s ≡ t
    next_state-injective s t hs ht e = unfold next_state in omega arith
