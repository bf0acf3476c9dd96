-- ===== src/Runner/Campaign/Vectors.antt =====
-- Every run of the runner's first loop makes sound vectors, and the whole run.
use cmfuzz.Base.{
  ℕ, zero, suc, ◌+◌, ◌%◌, ◌<◌, ◌≡◌, refl, sym, ap, ◌∙◌, arith, List, [], ◌∷◌, Option, none, some,
  Bool, true, false, ◌==◌, if◌then◌else◌, All, Bool-cases, Option-cases, inl, inr, map, subst,
}
use cmfuzz.Base.Text.{codes}
use cmfuzz.Protocol.Hex.{tohex}
use cmfuzz.Protocol.Vec.{Vec}
use cmfuzz.Protocol.Payload.{Views, verify_parse}
use cmfuzz.Protocol.Payload.Laws.{verify_parse-nil}
use cmfuzz.Protocol.Ops.{Primitives, outputs, promised, judged, verdict_byte}
use cmfuzz.Runner.OpenSsl.{OpenSsl}
use cmfuzz.Runner.Vote.{is_verify_op}
use cmfuzz.Runner.Random.{rnd}
use cmfuzz.Runner.Reference.Contract.{SslKeeps}
use cmfuzz.Runner.Request.{draw_vector, verify_blob, verify_reply}
use cmfuzz.Runner.Request.Sizes.{vec_of}
use cmfuzz.Runner.Payload.{
  Signer, Keys, make_payload, ecdsa_signer, rsa_signer, or_make, with_key, ecdsa_make_payload,
  rsa_make_payload,
}
use cmfuzz.Runner.Payload.Verdict.{make_payload-IsJudged}
use cmfuzz.Runner.Payload.Bytes.{make_payload-IsByte}
use cmfuzz.Runner.Payload.Signers.{
  SignerKeeps, SslSigns, ecdsa_signer-SignerKeeps, rsa_signer-SignerKeeps,
}
use cmfuzz.Runner.Campaign.{
  Made, Program, verify_vector, make_op, make_vector, make_vectors, no_keys, runner_main,
  run_status,
}
use cmfuzz.Runner.Campaign.Agreement.{IsSound, Sounds, Follows, run_status-zero}
use cmfuzz.Runner.Campaign.Sound.{
  PrimitivesFit, verify_vec, verify_vector-IsSound, compute_vector-IsSound,
}

-- A vector with fields that make it sound.
abbrev HasFields : Primitives → Made → Type 0
HasFields p m = (v : Vec) × IsSound p m v

verdict_text : (b : Bool) → (if b then codes "01" else codes "00") ≡ tohex (verdict_byte b)
unfolding tohex
verdict_text true = refl
verdict_text false = refl

judged_of :
    (ok : List ℕ → List ℕ → List ℕ → Bool) (v : Vec) (o : Option Views)
    → verify_parse v.msg ≡ o
    → judged ok v
      ≡ elim o [ none ↦ verdict_byte false | some w ↦ verdict_byte (ok w.pub_key w.sig w.msg) ]
judged_of ok v o e =
    ap
      (λ (x : Option Views). elim x [
        | none ↦ verdict_byte false
        | some w ↦ verdict_byte (ok w.pub_key w.sig w.msg)
      ])
      e

module _ (p : Primitives) (fit : PrimitivesFit p) where
  module _ (op : ℕ) (ok : List ℕ → List ℕ → List ℕ → Bool) (other : (op == 12) ≡ false)
      (same : (v : Vec) → promised p op v ≡ judged ok v) where
    none-HasFields : HasFields p (verify_vector op none)
    unfolding verify_blob verify_reply
    none-HasFields = (
      verify_vec op [],
      verify_vector-IsSound p fit op none [] other refl tt (omega arith) (
          verdict_text false
          ∙ sym (
              ap tohex
                (same (verify_vec op []) ∙ judged_of ok (verify_vec op []) none verify_parse-nil))),
    )

    payload-HasFields :
        (k : Signer) (s : ℕ)
        → SignerKeeps k ok
        → HasFields p (verify_vector op (make_payload k s).0)
    unfolding verify_blob verify_reply
    payload-HasFields k s keeps = elim (Option-cases (make_payload k s).0) [
      | inl nothing ↦
          subst (λ (o : Option (List ℕ × Bool)). HasFields p (verify_vector op o)) (sym nothing)
            none-HasFields
      | inr (r, made) ↦
          let (w, parses, key, verdict, short) = make_payload-IsJudged k s r keeps.fits made in
          let bytes = make_payload-IsByte k s r keeps.gives made in
          let v = verify_vec op r.0 in
          let says : promised p op v ≡ verdict_byte r.1 =
            same v
            ∙ judged_of ok v (some w) parses
            ∙ ap verdict_byte (sym (keeps.verdicts w.pub_key w.msg w.sig key) ∙ verdict) in
          subst (λ (o : Option (List ℕ × Bool)). HasFields p (verify_vector op o)) (sym made)
            (
              v,
              verify_vector-IsSound p fit op (some r) r.0 other refl bytes short
                  (verdict_text r.1 ∙ sym (ap tohex says)),
            )
    ]

    with_key-HasFields :
        (ssl : OpenSsl) (k : Option ssl.Pkey) (f : ssl.Pkey → Signer) (s : ℕ)
        → ((key : ssl.Pkey) → SignerKeeps (f key) ok)
        → HasFields p (verify_vector op (with_key ssl k f s).0)
    with_key-HasFields ssl none f s keeps = none-HasFields
    with_key-HasFields ssl (some key) f s keeps = payload-HasFields (f key) s (keeps key)

  module _ (ssl : OpenSsl) (keeps : SslKeeps ssl p) (signs : SslSigns ssl p) where
    make_op-HasFields :
        (e : ssl.Entropy) (op : ℕ) (keys : Keys ssl) (s : ℕ)
        → op < 27
        → HasFields p (make_op ssl e op keys s).0.0
    unfolding make_op ecdsa_make_payload rsa_make_payload outputs
    make_op-HasFields e op keys s below = elim (Bool-cases (op == 13)) [
      | inl ecdsa ↦ rw ecdsa (
          with_key-HasFields 13 p.ecdsa_ok refl (λ v. refl) ssl
            (or_make ssl keys.ecdsa_key (ssl.ec_gen e)) (ecdsa_signer ssl e) s
            (ecdsa_signer-SignerKeeps ssl p signs e))
      | inr not_ecdsa ↦ elim (Bool-cases (op == 14)) [
        | inl rsa ↦
            rw (not_ecdsa, rsa)
              (with_key-HasFields 14 p.rsa_pss_ok refl (λ v. refl) ssl
                (or_make ssl keys.rsa_key (ssl.rsa_gen e)) (rsa_signer ssl e) s
                (rsa_signer-SignerKeeps ssl p signs e))
        | inr not_rsa ↦
            let compute : is_verify_op op ≡ false = rw (not_ecdsa, not_rsa) refl in
            rw (not_ecdsa, not_rsa)
              (
                vec_of op (draw_vector op s).0,
                compute_vector-IsSound p fit ssl keeps e op s below compute,
              )
      ]
    ]

-- Vectors, with fields for each of them.
abbrev AllHaveFields : Primitives → List Made → Type 0
AllHaveFields p ms = (xs : List (Made × Vec)) × (map (λ x. x.0) xs ≡ ms) × Sounds p xs

module _ (p : Primitives) (fit : PrimitivesFit p) (ssl : OpenSsl) (keeps : SslKeeps ssl p)
    (signs : SslSigns ssl p) (es : ℕ → ssl.Entropy) where
  make_vectors-AllHaveFields :
      (i n : ℕ) (keys : Keys ssl) (s : ℕ) → AllHaveFields p (make_vectors ssl es i n keys s).0
  unfolding make_vectors make_vector
  make_vectors-AllHaveFields i zero keys s = ([], refl, tt)
  make_vectors-AllHaveFields i (suc n) keys s =
      let (r, t) = rnd s in
      let ((m, keys2), u) = make_op ssl (es i) (r % 27) keys t in
      let (v, sound) =
        make_op-HasFields p fit ssl keeps signs (es i) (r % 27) keys t (omega arith) in
      let (xs, same, sounds) = make_vectors-AllHaveFields (i + 1) n keys2 u in
      ((m, v) ∷ xs, ap (◌∷◌ m) same, (sound, sounds))

-- Whatever the seed and the number of vectors, whatever the library draws, and however many backends
-- there are: if OpenSSL and every backend compute what the ops promise (a backend may leave ops out,
-- and refuse the all-zero X25519 secret), no output is longer than an entry of the reply table, and
-- each backend runs the shared loop with an array for its results that is no shorter, then the runner reports no divergence and exits with 0. So
-- neither the protocol, nor the tampered payloads, nor the planted boundary inputs give a false
-- alarm.
pub runner_main-zero :
    (p : Primitives)
    → PrimitivesFit p
    → (ssl : OpenSsl) → SslKeeps ssl p
    → SslSigns ssl p
    → (es : ℕ → ssl.Entropy) (n seed : ℕ) (programs : List Program) → All (Follows p) programs
    → runner_main ssl es n seed programs ≡ 0
unfolding runner_main
runner_main-zero p fit ssl keeps signs es n seed programs follow =
    let (xs, same, sounds) =
      make_vectors-AllHaveFields p fit ssl keeps signs es 0 n (no_keys ssl) seed in
    ap (λ (ms : List Made). run_status ms programs) (sym same)
    ∙ run_status-zero p xs programs sounds follow
