-- ===== src/Runner/Request/Buffers.antt =====
-- The buffers of the runner's first loop: `o[8192]` of the reference's output, and the 8300
-- characters of an entry of `refhex`.
use cmfuzz.Base.{
  ℕ, ◌+◌, ◌*◌, ◌≤◌, arith, List, Option, none, some, ◌==◌, length, Bool-cases, inl, inr,
}
use cmfuzz.Protocol.Hex.RoundTrip.{length-tohex}
use cmfuzz.Runner.OpenSsl.{OpenSsl}
use cmfuzz.Runner.Normalize.{length-x25519_normalize}
use cmfuzz.Runner.Reference.{ref_compute}
use cmfuzz.Runner.Reference.Bounds.{AtMost, OutputSizes, ref_compute-AtMost}
use cmfuzz.Runner.Request.{draw_vector, hex_reply, reference_reply}
use cmfuzz.Runner.Request.Sizes.{draw_vector-short}

length-hex_reply : (n : ℕ) (o : Option (List ℕ)) → AtMost n o → length (hex_reply o) ≤ 2 * n + 3
length-hex_reply n none h = omega arith
length-hex_reply n (some out) h = omega (arith, length-tohex out)

AtMost-later : (m n : ℕ) (o : Option (List ℕ)) → m ≤ n → AtMost m o → AtMost n o
AtMost-later m n none h a = tt
AtMost-later m n (some out) h a = omega arith

-- If no call of OpenSSL writes more than its manual says, then for every op and every state of the
-- generator the message that is drawn has at most 511 bytes, the reference's output at most 591 of
-- the 8192 that `o` has, and the reply with its NUL fits the 8300 characters of `refhex`.
pub reference_reply-fits :
    (ssl : OpenSsl)
    → OutputSizes ssl
    → (e : ssl.Entropy) (op s : ℕ)
    → (length (draw_vector op s).0.input.msg ≤ 511)
      × AtMost 591 (ref_compute ssl e op (draw_vector op s).0.input)
      × (length (reference_reply ssl e op (draw_vector op s).0.input) + 1 ≤ 8300)
unfolding reference_reply
reference_reply-fits ssl sizes e op s =
    let input = (draw_vector op s).0.input in
    let short = draw_vector-short op s in
    let o = ref_compute ssl e op input in
    let few : AtMost 591 o =
      AtMost-later (length input.msg + 80) 591 o (omega arith)
        (ref_compute-AtMost ssl sizes input e op) in
    let hex : length (hex_reply o) ≤ 1185 = omega (arith, length-hex_reply 591 o few) in
    (
      short,
      few,
      elim (Bool-cases (op == 12)) [
        | inl same ↦ rw same (omega (arith, length-x25519_normalize (hex_reply o)))
        | inr other ↦ rw other (omega arith)
      ],
    )
