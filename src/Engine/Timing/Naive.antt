-- ===== src/Engine/Timing/Naive.antt =====
-- The naive comparisons return what they should, whatever time they take.
use cmfuzz.Base.{
  ℕ, zero, suc, ◌+◌, ◌-◌, ◌≤◌, ◌<◌, ◌≡◌, ◌↔◌, refl, sym, subst, arith, List, ◌||◌, ◌==◌, ltb,
  ==_iff, get_or, Bool-cases, inl, inr,
}
use cmfuzz.Engine.Timing.{memcmp_loop, naive_memcmp, pkcs7_loop, naive_pkcs7_ok}

-- A fact at `i` and at all later places up to `i + left`.
extend :
    (P : ℕ → Type 0) (left i : ℕ)
    → P i
    → ((k : ℕ) → i + 1 ≤ k → k < i + 1 + left → P k)
    → (k : ℕ) → i ≤ k
    → k < i + suc left
    → P k
extend P left i here later k low high = elim (Bool-cases (k == i)) [
  | inl e ↦ subst P (sym ((==_iff k i).0 e)) here
  | inr e ↦ later k (ground arith) (omega arith)
]

memcmp_loop_iff :
    (left i : ℕ) (a b : List ℕ)
    → (memcmp_loop left i a b ≡ 0) ↔ ((k : ℕ) → i ≤ k → k < i + left → get_or a k 0 ≡ get_or b k 0)
unfolding memcmp_loop
memcmp_loop_iff zero i a b = (λ _ k low high. absurd (omega arith), λ _. refl)
memcmp_loop_iff (suc left) i a b =
    let ih = memcmp_loop_iff left (i + 1) a b in
    elim (Bool-cases (get_or a i 0 == get_or b i 0)) [
      | inl e ↦ rw e (
        λ h. extend (λ k. get_or a k 0 ≡ get_or b k 0) left i ((==_iff _ _).0 e) (ih.0 h),
        λ h. ih.1 (λ k low high. h k (omega arith) (omega arith)),
      )
      | inr e ↦
          rw e (
            λ h. absurd (omega arith),
            λ h. absurd (ground (arith, h i (omega arith) (omega arith))),
          )
    ]

-- `naive_memcmp(a, b, n)` returns 0 exactly if the first `n` bytes of the two buffers agree.
pub naive_memcmp_iff :
    (a b : List ℕ) (n : ℕ)
    → (naive_memcmp a b n ≡ 0) ↔ ((k : ℕ) → k < n → get_or a k 0 ≡ get_or b k 0)
unfolding naive_memcmp
naive_memcmp_iff a b n =
    let loop = memcmp_loop_iff n 0 a b in
    (
      λ h k high. loop.0 h k (omega arith) (omega arith),
      λ h. loop.1 (λ k low high. h k (omega arith)),
    )

pkcs7_loop_iff :
    (pad left i : ℕ) (blk : List ℕ)
    → (pkcs7_loop pad left i blk ≡ 1)
      ↔ ((k : ℕ) → i ≤ k → k < i + left → get_or blk (15 - k) 0 ≡ pad)
unfolding pkcs7_loop
pkcs7_loop_iff pad zero i blk = (λ _ k low high. absurd (omega arith), λ _. refl)
pkcs7_loop_iff pad (suc left) i blk =
    let ih = pkcs7_loop_iff pad left (i + 1) blk in
    elim (Bool-cases (get_or blk (15 - i) 0 == pad)) [
      | inl e ↦ rw e (
        λ h. extend (λ k. get_or blk (15 - k) 0 ≡ pad) left i ((==_iff _ _).0 e) (ih.0 h),
        λ h. ih.1 (λ k low high. h k (omega arith) (omega arith)),
      )
      | inr e ↦
          rw e (
            λ h. absurd (omega arith),
            λ h. absurd (ground (arith, h i (omega arith) (omega arith))),
          )
    ]

-- `naive_pkcs7_ok` accepts a block exactly if its last byte is a number from 1 to 16 and that many
-- bytes at the end have this value.
pub naive_pkcs7_ok_iff :
    (blk : List ℕ)
    → (naive_pkcs7_ok blk ≡ 1) ↔ (
        (1 ≤ get_or blk 15 0)
        × (get_or blk 15 0 ≤ 16)
        × ((k : ℕ) → k < get_or blk 15 0 → get_or blk (15 - k) 0 ≡ get_or blk 15 0))
unfolding naive_pkcs7_ok
naive_pkcs7_ok_iff blk =
    let pad = get_or blk 15 0 in
    let loop = pkcs7_loop_iff pad pad 0 blk in
    elim (Bool-cases (ltb pad 1 || ltb 16 pad)) [
      | inl bad ↦ rw bad (λ h. absurd (omega arith), λ h. absurd (ground (arith, h.0, h.1)))
      | inr good ↦ rw good (
        λ h. (ground arith, ground arith, λ k high. loop.0 h k (omega arith) (omega arith)),
        λ h. loop.1 (λ k low high. h.2 k (omega arith)),
      )
    ]
