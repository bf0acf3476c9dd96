-- ===== src/Runner/Request/Sizes.antt =====
-- The fields of a drawn vector are bytes, and few.
use cmfuzz.Base.{
  zero, suc, ◌∷◌, refl, ◌∙◌, ==_iff, ℕ, ◌+◌, ◌-◌, ◌%◌, ◌≤◌, ◌<◌, ◌≡◌, arith, List, [], Bool, true,
  false, ◌==◌, get_or, drop, length, length-append, length-set, length-take, length-drop, All,
  All-take, All-drop, All-get_or, Bool-cases, inl, inr,
}
use cmfuzz.Base.Int.{pos}
use cmfuzz.Engine.Prng.{IsByte}
use cmfuzz.Protocol.Vec.{Vec}
use cmfuzz.Backend.Contract.{IsSent}
use cmfuzz.Runner.Random.{rnd, rnd_bytes, length-rnd_bytes, rnd_bytes-IsByte}
use cmfuzz.Runner.Request.{
  Drawn, boundary_len, x25519_edge, pin_length, choose_length, choose_aad, plant_edge, mask_last,
  adjust_tail, lay_out, draw_vector,
}
use cmfuzz.Runner.Request.Agreement.{choose_aad_lem, adjust_tail-IsByte}

-- The fields of the request for a drawn vector.
abbrev pub vec_of : ℕ → Drawn → Vec
vec_of op d = record {
  op = pos op;
  key = d.input.key;
  nonce = d.input.nonce;
  aad = d.input.aad;
  msg = d.input.msg;
  blob = d.blob;
}

pin_length-short : (b : Bool) (n s : ℕ) → n ≤ 511 → (pin_length b n s).0 ≤ 511
unfolding pin_length
pin_length-short true n s h =
    All-get_or (λ l. l ≤ 511) boundary_len ((rnd s).0 % 18) 0 (omega arith) (omega arith)
pin_length-short false n s h = h

choose_length_lem :
    (op n s : ℕ)
    → n ≤ 511
    → ((choose_length op n s).0 ≤ 511) × (op ≡ 12 → (choose_length op n s).0 ≡ 32)
unfolding choose_length
choose_length_lem op n s h = elim (Bool-cases (op == 12)) [
  | inl e ↦ rw e (omega arith, λ _. refl)
  | inr e ↦ rw e (pin_length-short ((rnd s).0 % 4 == 0) n (rnd s).1 h, λ twelve. ground arith)
]

All-get_or_below :
    (P : List ℕ → Type 0) (xs : List (List ℕ)) (i : ℕ)
    → All P xs
    → i < length xs
    → P (get_or xs i [])
All-get_or_below P [] i h below = absurd (omega arith)
All-get_or_below P (x ∷ xs) zero h below = h.0
All-get_or_below P (x ∷ xs) (suc i) h below = All-get_or_below P xs i h.1 (omega arith)

plant_edge-length :
    (b : Bool) (tail : List ℕ) (s : ℕ)
    → 32 ≤ length tail
    → length (plant_edge b tail s).0 ≡ length tail
unfolding plant_edge
plant_edge-length true tail s h =
    let edge = get_or x25519_edge ((rnd s).0 % 8) [] in
    let row : length edge ≡ 32 =
      All-get_or_below (λ r. length r ≡ 32) x25519_edge ((rnd s).0 % 8) (omega arith)
        (omega arith) in
    omega (arith, length-append edge (drop 32 tail), length-drop 32 tail)
plant_edge-length false tail s h = refl

-- The bytes behind the header keep their number.
adjust_tail-length :
    (op : ℕ) (tail : List ℕ) (s : ℕ)
    → (op ≡ 12 → 32 ≤ length tail)
    → length (adjust_tail op tail s).0 ≡ length tail
unfolding adjust_tail mask_last
adjust_tail-length op tail s h = elim (Bool-cases (op == 12)) [
  | inl e ↦
      let (r, t) = rnd s in
      let planted = (plant_edge (r % 3 == 0) tail t).0 in
      rw e (
        length-set planted (length planted - 1) _
        ∙ plant_edge-length (r % 3 == 0) tail t (h ((==_iff op 12).0 e)))
  | inr e ↦ rw e refl
]

lay_out-IsSent :
    (op : ℕ) (front : List ℕ) (aadlen msglen : ℕ) (tail : List ℕ)
    → length front ≡ 44
    → aadlen < 64
    → (msglen ≤ 511) × (op ≡ 12 → msglen ≡ 32)
    → length tail ≡ aadlen + msglen
    → All IsByte front
    → All IsByte tail
    → IsSent op (vec_of op (lay_out front aadlen tail)) × (length (drop aadlen tail) ≤ 511)
lay_out-IsSent op front aadlen msglen tail size few short room bf bt =
    let msg : length (drop aadlen tail) ≡ msglen = omega (arith, length-drop aadlen tail) in
    (
      record {
        request = record {
          has_key = (
            omega (arith, length-take 32 front),
            All-take IsByte 32 front bf,
            omega (arith, short.0),
            omega (arith, length-take aadlen tail),
          );
          nonce_bytes = (
            All-take IsByte 12 (drop 32 front) (All-drop IsByte 32 front bf),
            omega (arith, length-take 12 (drop 32 front), length-drop 32 front),
          );
          aad_bytes = (All-take IsByte aadlen tail bt, omega (arith, length-take aadlen tail));
          msg_bytes = (All-drop IsByte aadlen tail bt, omega (arith, short.0));
        };
        whole_peer = λ twelve. omega (arith, short.1 twelve);
      },
      omega (arith, short.0),
    )

draw_vector_lem :
    (op s : ℕ)
    → IsSent op (vec_of op (draw_vector op s).0) × (length (draw_vector op s).0.input.msg ≤ 511)
unfolding draw_vector
draw_vector_lem op s =
    let (r, s1) = rnd s in
    let (msglen, s2) = choose_length op (r % 512) s1 in
    let (aadlen, s3) = choose_aad op s2 in
    let (front, s4) = rnd_bytes 44 s3 in
    let (bytes, s5) = rnd_bytes (aadlen + msglen) s4 in
    let few = choose_aad_lem op s2 in
    let short = choose_length_lem op (r % 512) s1 (omega arith) in
    let drawn : length bytes ≡ aadlen + msglen = length-rnd_bytes (aadlen + msglen) s4 in
    lay_out-IsSent op front aadlen msglen (adjust_tail op bytes s5).0 (length-rnd_bytes 44 s3) few.0
      short (adjust_tail-length op bytes s5 (λ e. omega (arith, short.1 e)) ∙ drawn)
      (rnd_bytes-IsByte 44 s3)
      (adjust_tail-IsByte op bytes s5 (rnd_bytes-IsByte (aadlen + msglen) s4))

pub draw_vector-IsSent : (op s : ℕ) → IsSent op (vec_of op (draw_vector op s).0)
draw_vector-IsSent op s = (draw_vector_lem op s).0

pub draw_vector-short : (op s : ℕ) → length (draw_vector op s).0.input.msg ≤ 511
draw_vector-short op s = (draw_vector_lem op s).1
