-- ===== src/Harness/Hpke/Binding.antt =====
-- What the checks of the composition say, and when they are wrong.
use Prim.Native.String.{String}
use cmfuzz.Base.{
  ℕ, ◌%◌, ◌≡◌, ◌↔◌, refl, ap, List, Option, none, some, true, false, not, ◌==◌, Bool-cases, inl,
  inr, bytes_eq, bytes_eq→eq, bytes_eq_false→ne, ==_iff, bit_and, take, length,
}
use cmfuzz.Harness.World.{World, H, IsSilent, ◌>>◌, violation_if, xor_at, guarded_iff}
use cmfuzz.Harness.Compose.{is_some, opens_to}
use cmfuzz.Harness.HpkeParts.{HpkeKem, HpkeCalls, key_schedule, gcm_open_aad}
use cmfuzz.Harness.Hpke.{
  altinfo, or_left, Arrays, roundtrip, context_binding, tampered_open, upstream_tamper, hpke_checks,
}

-- The plaintext that was opened is the message, so far as `memcmp` looks.
abbrev pub OpensTo : List ℕ → Option (List ℕ) → Type 0
OpensTo msg none = ⊥
OpensTo msg (some out) = take (length msg) out ≡ msg

is_none : (o : Option (List ℕ)) → is_some o ≡ false → o ≡ none
is_none none h = refl
is_none (some x) h = cc h

module _ {W : Type 0} (lib : HpkeCalls) (kem : HpkeKem W) (left : Arrays) where
  -- What opens under a secret, which may be none, is not the ciphertext.
  abbrev pub RejectsSecret : List ℕ → List ℕ → Option (List ℕ) → Type 0
  RejectsSecret info ct none = Unit {0}
  RejectsSecret info ct (some ssb) =
      gcm_open_aad lib (or_left (key_schedule lib ssb info) left.tampered) info ct ≡ none

  opened_iff :
      (o : Option (List ℕ)) (msg : List ℕ) (alg text text' : String) (rest : H W (Unit {0}))
      (w : World W)
      → IsSilent (
          ((violation_if (not (is_some o)) alg "O5-roundtrip" text
                >> violation_if (not (opens_to o msg)) alg "O5-roundtrip" text')
              >> rest)
            w)
        ↔ (OpensTo msg o × IsSilent (rest w))
  opened_iff none msg alg text text' rest w = (λ h. elim h [ ], λ h. elim h.0 [ ])
  opened_iff (some out) msg alg text text' rest w =
      elim (Bool-cases (bytes_eq (take (length msg) out) msg)) [
        | inl same ↦ rw same (λ h. (bytes_eq→eq (take (length msg) out) msg same, h), λ h. h.1)
        | inr other ↦
            rw other (
              λ h. elim h [ ],
              λ h. absurd (bytes_eq_false→ne (take (length msg) out) msg other h.0),
            )
      ]

  rejects_iff :
      (o : Option (List ℕ)) (alg text oracle : String) (w : World W)
      → IsSilent (violation_if (is_some o) alg oracle text w) ↔ (o ≡ none)
  rejects_iff none alg text oracle w = (λ h. refl, λ h. tt)
  rejects_iff (some out) alg text oracle w = (λ h. elim h [ ], λ h. cc h)

  upstream_iff :
      (sk : kem.SecretKey) (enc : List ℕ) (tflag : ℕ) (info ct : List ℕ) (o : Option (List ℕ))
      (w w' : World W)
      → kem.kem_decaps sk (xor_at enc (tflag % kem.enc_len) 0x01) w ≡ (o, w')
      → IsSilent (upstream_tamper lib kem left sk enc tflag info ct w) ↔ RejectsSecret info ct o
  unfolding upstream_tamper tampered_open
  upstream_iff sk enc tflag info ct none w w' e = rw (e, IsSilent) (λ h. tt, λ h. tt)
  upstream_iff sk enc tflag info ct (some ssb) w w' e = rw e (
      rejects_iff (gcm_open_aad lib (or_left (key_schedule lib ssb info) left.tampered) info ct)
        kem.kem_name "tampered encapsulated key still opened ciphertext" "O5-upstream-tamper" w')

  -- The checks of the composition end without a violation exactly if the recipient's key opens the
  -- ciphertext to the message, the key for the other info does not open it when the flag asks, and
  -- neither does what the decapsulation makes of the corrupted encapsulation, if it succeeds.
  pub hpke_checks_iff :
      (sk : kem.SecretKey) (enc ss : List ℕ) (tflag : ℕ) (info msg ct : List ℕ)
      (o : Option (List ℕ)) (w w' : World W)
      → kem.kem_decaps sk (xor_at enc (tflag % kem.enc_len) 0x01) w ≡ (o, w')
      → IsSilent (hpke_checks lib kem left sk enc ss tflag info msg ct w) ↔ (
          OpensTo msg (gcm_open_aad lib (or_left (key_schedule lib ss info) left.received) info ct)
          × (bit_and tflag 1 ≡ 1
              → gcm_open_aad lib (or_left (key_schedule lib ss altinfo) left.alternative) info ct
                ≡ none)
          × RejectsSecret info ct o)
  unfolding hpke_checks roundtrip context_binding
  hpke_checks_iff sk enc ss tflag info msg ct o w w' e =
      let opened = gcm_open_aad lib (or_left (key_schedule lib ss info) left.received) info ct in
      let other =
        gcm_open_aad lib (or_left (key_schedule lib ss altinfo) left.alternative) info ct in
      let last = upstream_tamper lib kem left sk enc tflag info ct in
      let upstream = upstream_iff sk enc tflag info ct o w w' e in
      let binding =
        guarded_iff (bit_and tflag 1 == 1) (is_some other) kem.kem_name "O5-context-binding"
          "different info still opened ciphertext" (context_binding lib kem left ss info ct) last w
          w (RejectsSecret info ct o) (λ _. refl) upstream upstream in
      let first =
        opened_iff opened msg kem.kem_name "recipient failed to open sealed message"
          "opened plaintext != message" _ w in
      (
        λ h.
            let (opens, next_checks) = first.0 h in
            let (bound, rejected) = binding.0 next_checks in
            let none_when : bit_and tflag 1 ≡ 1 → other ≡ none =
              λ odd. is_none other (bound ((==_iff (bit_and tflag 1) 1).1 odd)) in
            (opens, none_when, rejected),
        λ (opens, bound, rejected).
            let asked : (bit_and tflag 1 == 1) ≡ true → is_some other ≡ false =
              λ odd. ap is_some (bound ((==_iff (bit_and tflag 1) 1).0 odd)) in
            first.1 (opens, binding.1 (asked, rejected)),
      )
