-- ===== src/Runner/Request/Agreement.antt =====
-- A backend parses each request into the fields that the reference computed on.
use cmfuzz.Base.{
  ℕ, ◌+◌, ◌-◌, ◌%◌, ◌<◌, ◌≤◌, ◌≡◌, refl, sym, ap, ap₂, ◌∙◌, arith, List, [], ◌++◌, some, Bool, true,
  false, ◌==◌, ==_iff, subst, get_or, take, drop, length, length-take, length-drop,
  take-append-drop, Bool-cases, inl, inr, All, All-append, All-set, All-get_or, All-drop,
  append_assoc, take_all,
}
use cmfuzz.Base.Int.{pos}
use cmfuzz.Base.Bits.{and_127, and_255}
use cmfuzz.Engine.Prng.{IsByte}
use cmfuzz.Protocol.Vec.{vec_parse}
use cmfuzz.Protocol.Vec.Request.{request_line, blob_of, vec_parse-request_line}
use cmfuzz.Protocol.Payload.Laws.{field}
use cmfuzz.Runner.Random.{rnd, rnd_bytes, length-rnd_bytes, rnd_bytes-IsByte}
use cmfuzz.Runner.Payload.{length_field}
use cmfuzz.Runner.Payload.Verdict.{length_field-field}
use cmfuzz.Runner.Request.{
  Drawn, x25519_edge, choose_length, choose_aad, plant_edge, mask_last, adjust_tail, lay_out,
  draw_vector,
}

-- The request for a vector parses to the op and to the fields that the reference computed on.
abbrev pub Agrees : ℕ → Drawn → Type 0
Agrees op d =
    vec_parse (request_line op d.blob)
    ≡ some (record {
      op = pos op;
      key = d.input.key;
      nonce = d.input.nonce;
      aad = d.input.aad;
      msg = d.input.msg;
      blob = d.blob;
    })

lay_out-Agrees :
    (op : ℕ) (front : List ℕ) (aadlen : ℕ) (tail : List ℕ)
    → length front ≡ 44
    → aadlen < 64
    → aadlen ≤ length tail
    → All IsByte front
    → All IsByte tail
    → Agrees op (lay_out front aadlen tail)
lay_out-Agrees op front aadlen tail size few fits bf bt =
    let key = take 32 front in
    let nonce = take 12 (drop 32 front) in
    let aad = take aadlen tail in
    let msg = drop aadlen tail in
    let ks : length key ≡ 32 = omega (arith, length-take 32 front) in
    let ns : length nonce ≡ 12 =
      omega (arith, length-take 12 (drop 32 front), length-drop 32 front) in
    let aad_size : length aad ≡ aadlen = omega (arith, length-take aadlen tail) in
    let whole : nonce ≡ drop 32 front =
      take_all 12 (drop 32 front) (omega (arith, length-drop 32 front)) in
    let fields : length_field aadlen ≡ field (length aad) =
      length_field-field aadlen (omega arith) ∙ ap field (sym aad_size) in
    let blob : front ++ (length_field aadlen ++ tail) ≡ blob_of key nonce aad msg =
      ap₂ ◌++◌ (sym (take-append-drop 32 front))
        (ap₂ ◌++◌ fields (sym (take-append-drop aadlen tail)))
      ∙ append_assoc key (drop 32 front) (field (length aad) ++ (aad ++ msg))
      ∙ ap (λ (n : List ℕ). key ++ (n ++ (field (length aad) ++ (aad ++ msg)))) (sym whole) in
    let field_bytes : All IsByte (length_field aadlen) =
      (omega arith, (omega (arith, and_255 aadlen), tt)) in
    let bytes : All IsByte (blob_of key nonce aad msg) = subst (All IsByte) blob (
      All-append IsByte front (length_field aadlen ++ tail) bf
        (All-append IsByte (length_field aadlen) tail field_bytes bt)) in
    subst
      (λ (b : List ℕ).
        vec_parse (request_line op b)
        ≡ some (record { op = pos op; key = key; nonce = nonce; aad = aad; msg = msg; blob = b }))
      (sym blob) (vec_parse-request_line key nonce aad msg ks ns op bytes)

-- At most 63 bytes of additional data, and none for X25519.
pub choose_aad_lem : (op s : ℕ) → ((choose_aad op s).0 < 64) × (op ≡ 12 → (choose_aad op s).0 ≡ 0)
unfolding choose_aad
choose_aad_lem op s = (ground arith, λ e. ground (arith, e))

-- Only for X25519 are the bytes behind the header changed.
adjust_tail-other :
    (op : ℕ) (tail : List ℕ) (s : ℕ) → (op == 12) ≡ false → (adjust_tail op tail s).0 ≡ tail
unfolding adjust_tail
adjust_tail-other op tail s e = rw e refl

mask_last-IsByte : (tail : List ℕ) → All IsByte tail → All IsByte (mask_last tail)
unfolding mask_last
mask_last-IsByte tail h =
    All-set IsByte tail (length tail - 1) _ h
      (omega (arith, and_127 (get_or tail (length tail - 1) 0)))

plant_edge-IsByte :
    (b : Bool) (tail : List ℕ) (s : ℕ) → All IsByte tail → All IsByte (plant_edge b tail s).0
unfolding plant_edge
plant_edge-IsByte true tail s h =
    All-append IsByte _ (drop 32 tail)
      (All-get_or (All IsByte) x25519_edge ((rnd s).0 % 8) [] edge_bytes tt)
      (All-drop IsByte 32 tail h)
  where
    edge_bytes : All (All IsByte) x25519_edge
    edge_bytes = omega arith
plant_edge-IsByte false tail s h = h

pub adjust_tail-IsByte :
    (op : ℕ) (tail : List ℕ) (s : ℕ) → All IsByte tail → All IsByte (adjust_tail op tail s).0
unfolding adjust_tail
adjust_tail-IsByte op tail s h = elim (Bool-cases (op == 12)) [
  | inl e ↦ rw e (mask_last-IsByte _ (plant_edge-IsByte ((rnd s).0 % 3 == 0) tail (rnd s).1 h))
  | inr e ↦ rw e h
]

adjust_tail-room :
    (op aadlen : ℕ) (tail : List ℕ) (s : ℕ)
    → (op ≡ 12 → aadlen ≡ 0)
    → aadlen ≤ length tail
    → aadlen ≤ length (adjust_tail op tail s).0
adjust_tail-room op aadlen tail s none_at h = elim (Bool-cases (op == 12)) [
  | inl e ↦ omega (arith, none_at ((==_iff op 12).0 e))
  | inr e ↦ omega (arith, ap length (adjust_tail-other op tail s e))
]

-- Whatever the generator's state, for every op the request line of the vector that is drawn parses
-- to that op and to exactly the key, nonce, additional data and message that the OpenSSL reference
-- is run on: boundary lengths, planted X25519 points and the cleared top bit included. So a
-- backend that follows the protocol is compared on the same inputs.
pub draw_vector-Agrees : (op s : ℕ) → Agrees op (draw_vector op s).0
unfolding draw_vector
draw_vector-Agrees op s =
    let (r, s1) = rnd s in
    let (msglen, s2) = choose_length op (r % 512) s1 in
    let (aadlen, s3) = choose_aad op s2 in
    let (front, s4) = rnd_bytes 44 s3 in
    let (bytes, s5) = rnd_bytes (aadlen + msglen) s4 in
    let few = choose_aad_lem op s2 in
    let room : aadlen ≤ length bytes = omega (arith, length-rnd_bytes (aadlen + msglen) s4) in
    lay_out-Agrees op front aadlen (adjust_tail op bytes s5).0 (length-rnd_bytes 44 s3) few.0
      (adjust_tail-room op aadlen bytes s5 few.1 room) (rnd_bytes-IsByte 44 s3)
      (adjust_tail-IsByte op bytes s5 (rnd_bytes-IsByte (aadlen + msglen) s4))
