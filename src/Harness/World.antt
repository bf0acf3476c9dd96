-- ===== src/Harness/World.antt =====
-- What a harness runs in: the generator of engine/cmfuzz_common.h, from which the library under
-- test draws, and the library's own state.
use Prim.Native.String.{String}
use cmfuzz.Base.{
  ℕ, ◌%◌, ◌^◌, ◌≢◌, ◌<◌, ◌≡◌, ◌↔◌, refl, ap, sym, ◌∙◌, bit_xor, bit_and, List, Option, none, some,
  Bool, true, false, get_or, set, length, get_or-set_self,
}
use cmfuzz.Base.Bits.{xor_ne}
use cmfuzz.Engine.Oracle.{Report, Run, next, finish, violated}

pub record World (W : Type 0) : Type 0 where
  pub prng : ℕ
  pub library : W

-- A part of a harness run.
abbrev pub H : Type 0 → Type 0 → Type 0
H W A = World W → Run (A × World W)

-- A call of the library.
abbrev pub Call : Type 0 → Type 0 → Type 0
Call W A = World W → A × World W

abbrev pub bind : {W A B : Type 0} → Run (A × World W) → (A → H W B) → Run (B × World W)
bind (next (a, w)) f = f a w
bind finish f = finish
bind (violated r) f = violated r

infixl 5 ◌>>=◌ ◌>>◌
abbrev pub ◌>>=◌ : {W A B : Type 0} → H W A → (A → H W B) → H W B
◌>>=◌ m f w = bind (m w) f

abbrev pub ◌>>◌ : {W A B : Type 0} → H W A → H W B → H W B
m >> k = m >>= λ _. k

abbrev pub pass : {W : Type 0} → H W (Unit {0})
pass w = next (tt, w)

abbrev pub call : {W A : Type 0} → Call W A → H W A
call f w = next (f w)

abbrev pub done_unless : {W A : Type 0} → Option A × World W → Run (A × World W)
done_unless (none, w) = finish
done_unless (some a, w) = next (a, w)

-- `if (call != SUCCESS) goto done;`
abbrev pub or_done : {W A : Type 0} → Call W (Option A) → H W A
or_done f w = done_unless (f w)

-- `if (bad) CMF_VIOLATION(alg, oracle, msg);`
abbrev pub violation_if : {W : Type 0} → Bool → String → String → String → H W (Unit {0})
violation_if true alg oracle msg w = violated (record { alg = alg; oracle = oracle; msg = msg })
violation_if false alg oracle msg w = next (tt, w)

abbrev pub when : {W : Type 0} → Bool → H W (Unit {0}) → H W (Unit {0})
when true m = m
when false m = pass

abbrev pub violation_unless : {W A : Type 0} → Report → Option A × World W → Run (A × World W)
violation_unless r (none, w) = violated r
violation_unless r (some a, w) = next (a, w)

-- `if (call != SUCCESS) CMF_VIOLATION(alg, oracle, msg);`
abbrev pub or_violation : {W A : Type 0} → Call W (Option A) → String → String → String → H W A
or_violation f alg oracle msg w =
    violation_unless (record { alg = alg; oracle = oracle; msg = msg }) (f w)

-- The run ended without a violation.
abbrev pub IsSilent : {A : Type 0} → Run A → Type 0
IsSilent (next a) = Unit {0}
IsSilent finish = Unit {0}
IsSilent (violated r) = ⊥

-- `buf[off] ^= x`.
abbrev pub xor_at : List ℕ → ℕ → ℕ → List ℕ
xor_at b off x = set b off (bit_xor (get_or b off 0) x)

-- `buf[sel % n] ^= (uint8_t)(1u << (sel & 7))`.
unfoldable pub flip_selected : List ℕ → ℕ → ℕ → List ℕ
flip_selected b n sel = xor_at b (sel % n) (2 ^ bit_and sel 7 % 256)

-- An xor with anything but zero changes a buffer.
pub xor_at-ne : (b : List ℕ) (off x : ℕ) → off < length b → x ≢ 0 → xor_at b off x ≢ b
xor_at-ne b off x h nz e = xor_ne (get_or b off 0) x nz (
    sym (get_or-set_self b off (bit_xor (get_or b off 0) x) 0 h)
    ∙ ap (λ (c : List ℕ). get_or c off 0) e)

-- A test and what follows it.
pub test_iff :
    {W : Type 0} (b : Bool) (alg oracle msg : String) (rest : H W (Unit {0})) (w : World W)
    → IsSilent ((violation_if b alg oracle msg >> rest) w) ↔ ((b ≡ false) × IsSilent (rest w))
test_iff true alg oracle msg rest w = (λ h. elim h [ ], λ h. cc h.0)
test_iff false alg oracle msg rest w = (λ h. (refl, h), λ h. h.1)

-- A part that runs if `c`, makes the test `b` and leaves the world at `w'`, and what follows it.
pub guarded_iff :
    {W : Type 0} (c b : Bool) (alg oracle msg : String) (m rest : H W (Unit {0})) (w w' : World W)
    (Q : Type 0)
    → (c ≡ true → m w ≡ violation_if b alg oracle msg w')
    → (IsSilent (rest w) ↔ Q)
    → (IsSilent (rest w') ↔ Q)
    → IsSilent ((when c m >> rest) w) ↔ ((c ≡ true → b ≡ false) × Q)
guarded_iff false b alg oracle msg m rest w w' Q e here there =
    (λ h. (λ f. cc f, here.0 h), λ h. here.1 h.1)
guarded_iff true true alg oracle msg m rest w w' Q e here there =
    rw (e refl, IsSilent) (λ h. elim h [ ], λ h. cc (h.0 refl))
guarded_iff true false alg oracle msg m rest w w' Q e here there =
    rw (e refl, IsSilent) (λ h. (λ _. refl, there.0 h), λ h. there.1 h.1)

module _ {W A B : Type 0} {w w' : World W} {a : A} (g : A → H W B) where
  pub call_step : (f : Call W A) → f w ≡ (a, w') → (call f >>= g) w ≡ g a w'
  call_step f e = ap (λ (r : A × World W). bind (next r) g) e

  pub or_done_step : (f : Call W (Option A)) → f w ≡ (some a, w') → (or_done f >>= g) w ≡ g a w'
  or_done_step f e = ap (λ (r : Option A × World W). bind (done_unless r) g) e

  pub or_violation_step :
      (f : Call W (Option A)) (alg oracle msg : String)
      → f w ≡ (some a, w')
      → (or_violation f alg oracle msg >>= g) w ≡ g a w'
  or_violation_step f alg oracle msg e =
      ap
        (λ (r : Option A × World W).
          bind (violation_unless (record { alg = alg; oracle = oracle; msg = msg }) r) g)
        e
