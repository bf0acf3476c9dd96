-- ===== src/Protocol/Payload/Laws.antt =====
-- `cmf_verify_parse` is the inverse of packing, on all inputs.
use cmfuzz.Base.{
  ℕ, zero, suc, ◌+◌, ◌-◌, ◌/◌, ◌%◌, ◌≤◌, ◌<◌, ◌≡◌, ◌↔◌, refl, sym, ap, ap₂, ◌∙◌, arith, List, [],
  ◌∷◌, ◌++◌, none, some, false, ltb, get_or, take, drop, length, length-append, length-take,
  length-drop, take-append, drop-append, take_all, take-append-drop, drop-drop, get_or-append, All,
  All-get_or, Bool-cases, some_inj, inl, inr,
}
use cmfuzz.Base.Bits.{or_shift}
use cmfuzz.Engine.Prng.{IsByte}
use cmfuzz.Protocol.Vec.{be16}
use cmfuzz.Protocol.Vec.Laws.{be16-sum}
use cmfuzz.Protocol.Payload.{Views, signature_views, verify_parse}

-- A length field: high byte first.
abbrev pub field : ℕ → List ℕ
field n = (n / 256) ∷ (n % 256) ∷ []

-- The layout of a verify payload.
abbrev pub layout : Views → List ℕ
layout v = field (length v.pub_key) ++ (v.pub_key ++ (field (length v.sig) ++ (v.sig ++ v.msg)))

pub be16-field :
    (pre post : List ℕ) (off n : ℕ) → length pre ≡ off → be16 (pre ++ (field n ++ post)) off ≡ n
be16-field pre post off n h =
    let hi = get_or-append off 0 off pre (field n ++ post) 0 h (omega arith) in
    let lo = get_or-append off 1 (off + 1) pre (field n ++ post) 0 h (omega arith) in
    rw (hi, lo) (or_shift 8 (n / 256) (n % 256) (omega arith) ∙ omega arith)

pub length-layout :
    (v : Views) → length (layout v) ≡ 4 + length v.pub_key + length v.sig + length v.msg
length-layout v = omega (
  arith,
  length-append v.pub_key (field (length v.sig) ++ (v.sig ++ v.msg)),
  length-append v.sig v.msg,
)

-- The second half, from where the signature's length field stands.
signature_views-layout :
    (p : List ℕ) (off : ℕ) (v : Views)
    → drop off p ≡ field (length v.sig) ++ (v.sig ++ v.msg)
    → be16 p off ≡ length v.sig
    → length p ≡ off + 2 + length v.sig + length v.msg
    → signature_views p off v.pub_key ≡ some v
unfolding signature_views
signature_views-layout p off v d e n =
    let sl : ℕ = length v.sig in
    let at_sig : drop (off + 2) p ≡ v.sig ++ v.msg =
      sym (drop-drop off 2 (off + 2) p refl) ∙ ap (drop 2) d in
    let sig_eq : take sl (drop (off + 2) p) ≡ v.sig =
      ap (take sl) at_sig ∙ take-append sl v.sig v.msg refl in
    let at_msg : drop (off + 2 + sl) p ≡ v.msg =
      sym (drop-drop (off + 2) sl (off + 2 + sl) p refl)
      ∙ ap (drop sl) at_sig
      ∙ drop-append sl v.sig v.msg refl in
    let msg_eq : take (length p - (off + 2 + sl)) (drop (off + 2 + sl) p) ≡ v.msg =
      ap (take _) at_msg ∙ take_all _ v.msg (omega arith) in
    let fits : ltb (length p) (off + 2 + sl) ≡ false = ground arith in
    rw (e, fits) (λ i. some (record { pub_key = v.pub_key; sig = sig_eq i; msg = msg_eq i }))

-- A payload is accepted by what stands at its two length fields.
verify_parse_at :
    (p : List ℕ) (v : Views)
    → take (length v.pub_key) (drop 2 p) ≡ v.pub_key
    → drop (2 + length v.pub_key) p ≡ field (length v.sig) ++ (v.sig ++ v.msg)
    → be16 p 0 ≡ length v.pub_key
    → be16 p (2 + length v.pub_key) ≡ length v.sig
    → length p ≡ 4 + length v.pub_key + length v.sig + length v.msg
    → verify_parse p ≡ some v
unfolding verify_parse
verify_parse_at p v key behind kl sl size =
    let long : ltb (length p) 2 ≡ false = ground arith in
    let room : ltb (length p) (2 + length v.pub_key + 2) ≡ false = ground arith in
    let second = signature_views-layout p (2 + length v.pub_key) v behind sl (omega arith) in
    rw (long, kl, room, key) second

pub verify_parse-layout : (v : Views) → verify_parse (layout v) ≡ some v
verify_parse-layout v =
    let key = v.pub_key in
    let front = field (length key) ++ key in
    let behind = field (length v.sig) ++ (v.sig ++ v.msg) in
    let front_size : length front ≡ 2 + length key = omega arith in
    verify_parse_at (layout v) v (take-append (length key) key behind refl)
      (drop-append (2 + length key) front behind front_size)
      (be16-field [] (key ++ behind) 0 (length key) refl)
      (be16-field front (v.sig ++ v.msg) (2 + length key) (length v.sig) front_size)
      (length-layout v)

two_bytes :
    (p : List ℕ) (off : ℕ)
    → off + 2 ≤ length p
    → take 2 (drop off p) ≡ get_or p off 0 ∷ get_or p (off + 1) 0 ∷ []
two_bytes [] off h = absurd (omega arith)
two_bytes (x ∷ []) off h = absurd (omega arith)
two_bytes (x ∷ y ∷ p) zero h = refl
two_bytes (x ∷ y ∷ p) (suc off) h =
    let next : suc off + 1 ≡ suc (off + 1) = omega arith in
    two_bytes (y ∷ p) off (omega arith)
    ∙ ap (λ (j : ℕ). get_or (y ∷ p) off 0 ∷ get_or (x ∷ y ∷ p) j 0 ∷ []) (sym next)

-- The two bytes at an offset, as a field, are the bytes themselves.
field-be16 :
    (p : List ℕ) (off : ℕ)
    → All IsByte p
    → off + 2 ≤ length p
    → field (be16 p off) ≡ take 2 (drop off p)
field-be16 p off h room =
    let hi : get_or p off 0 < 256 = All-get_or IsByte p off 0 h (omega arith) in
    let lo : get_or p (off + 1) 0 < 256 = All-get_or IsByte p (off + 1) 0 h (omega arith) in
    let sum = be16-sum p off h in
    ap₂ (λ (a b : ℕ). a ∷ b ∷ []) (omega (arith, sum)) (omega (arith, sum))
    ∙ sym (two_bytes p off room)

-- What a payload with a key of `a` and a signature of `b` bytes holds.
abbrev views_at : List ℕ → ℕ → ℕ → Views
views_at p a b = record {
  pub_key = take a (drop 2 p);
  sig = take b (drop (2 + a + 2) p);
  msg = drop (2 + a + 2 + b) p;
}

-- A payload whose length fields stay inside it is the layout of its views.
layout_of_fields :
    (p : List ℕ) (a b : ℕ)
    → field a ≡ take 2 p
    → field b ≡ take 2 (drop (2 + a) p)
    → 2 + a + 2 + b ≤ length p
    → layout (views_at p a b) ≡ p
layout_of_fields p a b fa fb room =
    let la : length (take a (drop 2 p)) ≡ a =
      omega (arith, length-take a (drop 2 p), length-drop 2 p) in
    let lb : length (take b (drop (2 + a + 2) p)) ≡ b =
      omega (arith, length-take b (drop (2 + a + 2) p), length-drop (2 + a + 2) p) in
    let key = take a (drop 2 p) in
    let sig = take b (drop (2 + a + 2) p) in
    let body : sig ++ drop (2 + a + 2 + b) p ≡ drop 2 (drop (2 + a) p) =
      ap (◌++◌ sig) (sym (drop-drop (2 + a + 2) b (2 + a + 2 + b) p refl))
      ∙ take-append-drop b (drop (2 + a + 2) p)
      ∙ sym (drop-drop (2 + a) 2 (2 + a + 2) p refl) in
    let second : field (length sig) ++ (sig ++ drop (2 + a + 2 + b) p) ≡ drop a (drop 2 p) =
      ap₂ ◌++◌ (ap field lb ∙ fb) body
      ∙ take-append-drop 2 (drop (2 + a) p)
      ∙ sym (drop-drop 2 a (2 + a) p refl) in
    ap₂ ◌++◌ (ap field la ∙ fa) (ap (◌++◌ key) second ∙ take-append-drop a (drop 2 p))
    ∙ take-append-drop 2 p

signature_views_accepts :
    (p : List ℕ) (off : ℕ) (key : List ℕ) (v : Views)
    → signature_views p off key ≡ some v
    → (off + 2 + be16 p off ≤ length p)
      × (v ≡ record {
        pub_key = key;
        sig = take (be16 p off) (drop (off + 2) p);
        msg = drop (off + 2 + be16 p off) p;
      })
unfolding signature_views
signature_views_accepts p off key v e =
    let last : ℕ = off + 2 + be16 p off in
    elim (Bool-cases (ltb (length p) last)) [
      | inl short ↦ cc (sym (rw short at e))
      | inr fits ↦ (
        ground arith,
        sym (some_inj _ _ (rw fits at e)) ∙ λ i. record {
          pub_key = key;
          sig = take (be16 p off) (drop (off + 2) p);
          msg = take_all (length p - last) (drop last p) (omega (arith, length-drop last p)) i;
        },
      )
    ]

-- The tests that an accepted payload passed, and its views.
verify_parse_accepts :
    (p : List ℕ) (v : Views)
    → verify_parse p ≡ some v
    → (2 + be16 p 0 + 2 + be16 p (2 + be16 p 0) ≤ length p)
      × (v ≡ views_at p (be16 p 0) (be16 p (2 + be16 p 0)))
unfolding verify_parse
verify_parse_accepts p v e = elim (Bool-cases (ltb (length p) 2)) [
  | inl short ↦ cc (sym (rw short at e))
  | inr long ↦ elim (Bool-cases (ltb (length p) (2 + be16 p 0 + 2))) [
    | inl cut ↦ cc (sym (rw (long, cut) at e))
    | inr room ↦
        signature_views_accepts p (2 + be16 p 0) (take (be16 p 0) (drop 2 p)) v
          (rw (long, room) at e)
  ]
]

pub verify_parse-nil : verify_parse [] ≡ none
unfolding verify_parse
verify_parse-nil = refl

-- The parts of an accepted payload are no longer than it.
pub verify_parse-shorter :
    (p : List ℕ) (v : Views)
    → verify_parse p ≡ some v
    → (length v.pub_key ≤ length p) × (length v.sig ≤ length p) × (length v.msg ≤ length p)
verify_parse-shorter p v e =
    let (room, views) = verify_parse_accepts p v e in
    let a = be16 p 0 in
    let b = be16 p (2 + a) in
    (
      omega (
        arith,
        ap (λ (w : Views). length w.pub_key) views,
        length-take a (drop 2 p),
        length-drop 2 p,
      ),
      omega (
        arith,
        ap (λ (w : Views). length w.sig) views,
        length-take b (drop (2 + a + 2) p),
        length-drop (2 + a + 2) p,
      ),
      omega (arith, ap (λ (w : Views). length w.msg) views, length-drop (2 + a + 2 + b) p),
    )

-- On any byte string `cmf_verify_parse` succeeds exactly on the layout of its result: two length
-- fields, high byte first, each followed by its part, and the message behind them. So what it
-- accepts it partitions without a read outside, and every layout is accepted.
pub verify_parse_iff :
    (p : List ℕ) (v : Views) → All IsByte p → (verify_parse p ≡ some v) ↔ (p ≡ layout v)
verify_parse_iff p v h = (accepted, λ e. ap verify_parse e ∙ verify_parse-layout v)
  where
    accepted : verify_parse p ≡ some v → p ≡ layout v
    accepted e =
        let (room, views) = verify_parse_accepts p v e in
        let a = be16 p 0 in
        let b = be16 p (2 + a) in
        sym (
          ap layout views
          ∙ layout_of_fields p a b (field-be16 p 0 h (omega arith))
              (field-be16 p (2 + a) h (omega arith)) room)
