-- ===== src/Harness/Hpke.antt =====
-- The composition of harness/comp_hpke_harness.c, without its fault hook CMF_FAULT_HPKE.
pub mod Binding
pub mod Alarm
use cmfuzz.Base.{
  ℕ, ◌+◌, ◌-◌, ◌%◌, List, [], ◌∷◌, Option, none, some, Bool, true, false, not, ◌||◌, ltb, ◌==◌,
  if◌then◌else◌, bit_and, take, drop, length,
}
use cmfuzz.Engine.Prng.{prng_seed}
use cmfuzz.Engine.Reader.{reader_init, u8, rest}
use cmfuzz.Engine.Oracle.{Run, next, finish}
use cmfuzz.Harness.World.{
  World, H, Call, ◌>>=◌, ◌>>◌, pass, call, or_done, violation_if, when, xor_at,
}
use cmfuzz.Harness.Kem.{Kem}
use cmfuzz.Harness.Compose.{is_some, opens_to}
use cmfuzz.Harness.HpkeParts.{
  HpkeKem, HpkeCalls, mlkem_kem, key_schedule, gcm_seal_aad, gcm_open_aad,
}

-- `if (bad) { kem_teardown(pk, sk); return 0; }`
abbrev pub finish_if : {W : Type 0} → Bool → H W (Unit {0})
finish_if true w = finish
finish_if false w = next (tt, w)

-- `altinfo`.
abbrev pub altinfo : List ℕ
altinfo = 0xa5 ∷ 0 ∷ 0 ∷ 0 ∷ 0 ∷ 0 ∷ 0 ∷ 0 ∷ []

-- What arrays for a key and a nonce hold after a key schedule whose result nothing looks at; `left`
-- is what they held before.
abbrev pub or_left : Option (List ℕ × List ℕ) → List ℕ × List ℕ → List ℕ × List ℕ
or_left none left = left
or_left (some a) left = a

-- The three pairs of arrays that are filled so, as they come from the stack.
pub record Arrays : Type 0 where
  pub received : List ℕ × List ℕ
  pub alternative : List ℕ × List ℕ
  pub tampered : List ℕ × List ℕ

module _ {W : Type 0} (lib : HpkeCalls) (kem : HpkeKem W) (left : Arrays) where
  -- The recipient opens the message.
  unfoldable pub roundtrip : List ℕ → List ℕ → List ℕ → List ℕ → H W (Unit {0})
  roundtrip ss info msg ct =
      let opened = gcm_open_aad lib (or_left (key_schedule lib ss info) left.received) info ct in
      violation_if (not (is_some opened)) kem.kem_name "O5-roundtrip"
        "recipient failed to open sealed message"
      >> violation_if (not (opens_to opened msg)) kem.kem_name "O5-roundtrip"
          "opened plaintext != message"

  -- The key schedule with another info; the associated data is the same.
  unfoldable pub context_binding : List ℕ → List ℕ → List ℕ → H W (Unit {0})
  context_binding ss info ct =
      let opened =
        gcm_open_aad lib (or_left (key_schedule lib ss altinfo) left.alternative) info ct in
      violation_if (is_some opened) kem.kem_name "O5-context-binding"
        "different info still opened ciphertext"

  unfoldable pub tampered_open : List ℕ → List ℕ → Option (List ℕ) → H W (Unit {0})
  tampered_open info ct none = pass
  tampered_open info ct (some ssb) =
      let opened = gcm_open_aad lib (or_left (key_schedule lib ssb info) left.tampered) info ct in
      violation_if (is_some opened) kem.kem_name "O5-upstream-tamper"
        "tampered encapsulated key still opened ciphertext"

  unfoldable pub upstream_tamper : kem.SecretKey → List ℕ → ℕ → List ℕ → List ℕ → H W (Unit {0})
  unfolding tampered_open
  upstream_tamper sk enc tflag info ct = do
    ssb ← call (kem.kem_decaps sk (xor_at enc (tflag % kem.enc_len) 0x01))
    tampered_open info ct ssb

  -- What follows the recipient's decapsulation.
  unfoldable pub hpke_checks :
      kem.SecretKey → List ℕ → List ℕ → ℕ → List ℕ → List ℕ → List ℕ → H W (Unit {0})
  unfolding roundtrip context_binding upstream_tamper
  hpke_checks sk enc ss tflag info msg ct = do
    roundtrip ss info msg ct
    when (bit_and tflag 1 == 1) (context_binding ss info ct)
    upstream_tamper sk enc tflag info ct

  -- From kem_setup to the end.
  unfoldable pub hpke_run : ℕ → List ℕ → List ℕ → H W (Unit {0})
  unfolding hpke_checks
  hpke_run tflag info msg = do
    pair ← or_done kem.kem_setup
    finish_if (ltb 64 kem.enc_len || ltb 64 kem.ss_len)
    sent ← or_done (kem.kem_encaps pair.0)
    key_nonce ← or_done (λ w. (key_schedule lib sent.1 info, w))
    let ct = gcm_seal_aad lib key_nonce info msg
    ss ← or_done (kem.kem_decaps pair.1 sent.0)
    hpke_checks pair.1 sent.0 ss tflag info msg ct

  -- `LLVMFuzzerTestOneInput`.
  unfoldable pub hpke_input : List ℕ → H W (Unit {0})
  unfolding hpke_run
  hpke_input bytes w =
      let (split, r1) = u8 (reader_init bytes (length bytes)) in
      let (tflag, r2) = u8 r1 in
      let (p, _) = rest r2 in
      let body = take 2048 p in
      let infolen = if length body == 0 then 0 else split % (length body + 1) in
      let run =
        hpke_run tflag (take infolen body) (drop infolen body)
          (record w { prng = prng_seed bytes }) in
      if ltb (length bytes) 6 then finish else run

-- The build for ML-KEM-768, with what OQS_KEM_new gives: kem_setup fails without it.
unfoldable pub hpke_mlkem_input :
    {W : Type 0} → HpkeCalls → Option (Kem W) → ℕ → Arrays → List ℕ → H W (Unit {0})
unfolding hpke_input
hpke_mlkem_input lib none ss_len left bytes w = finish
hpke_mlkem_input lib (some k) ss_len left bytes w = hpke_input lib (mlkem_kem k ss_len) left bytes w
