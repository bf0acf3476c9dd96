-- ===== src/Runner/Campaign/Sound.antt =====
-- The vectors that the runner makes are sound.
use cmfuzz.Base.{
  ℕ, ◌≤◌, ◌<◌, ◌≡◌, refl, sym, ap, ◌∙◌, arith, List, [], ◌++◌, Option, none, some, Bool, false,
  ◌==◌, All, All-get_or, All-replicate, All-append, replicate, length, subst,
}
use cmfuzz.Engine.Prng.{IsByte}
use cmfuzz.Protocol.Hex.{tohex}
use cmfuzz.Protocol.Vec.{Vec, vec_parse}
use cmfuzz.Protocol.Vec.Laws.{vec_parse-IsWell}
use cmfuzz.Protocol.Vec.Request.{request_line, parsed, vec_parse-request_line}
use cmfuzz.Protocol.Ops.{Primitives, outputs, promised}
use cmfuzz.Backend.Serve.{outcome_of}
use cmfuzz.Backend.Contract.{IsRequest}
use cmfuzz.Runner.OpenSsl.{OpenSsl}
use cmfuzz.Runner.Vote.{is_verify_op}
use cmfuzz.Runner.Reference.{ref_compute}
use cmfuzz.Runner.Reference.Contract.{SslKeeps, ref_compute-Fulfils}
use cmfuzz.Runner.Request.{draw_vector, verify_blob, verify_reply, hex_reply, reference_reply}
use cmfuzz.Runner.Request.Agreement.{draw_vector-Agrees}
use cmfuzz.Runner.Request.Sizes.{vec_of, draw_vector-IsSent}
use cmfuzz.Runner.Collect.Text.{text_of}
use cmfuzz.Runner.Campaign.{verify_vector, compute_vector}
use cmfuzz.Runner.Campaign.Stored.{folded, FitsReply, folded-Fulfils}
use cmfuzz.Runner.Campaign.Agreement.{IsSound}

-- Every output is bytes, and fits a reply.
abbrev pub PrimitivesFit : Primitives → Type 0
PrimitivesFit p = (v : Vec) → IsRequest v → All FitsReply (outputs p v)

promised-FitsReply :
    (p : Primitives) (v : Vec) (op : ℕ)
    → PrimitivesFit p
    → IsRequest v
    → FitsReply (promised p op v)
promised-FitsReply p v op fit request =
    All-get_or FitsReply (outputs p v) op [] (fit v request) (tt, omega arith)

hex_reply-text_of : (o : Option (List ℕ)) → hex_reply o ≡ text_of (outcome_of o)
hex_reply-text_of none = refl
hex_reply-text_of (some out) = refl

-- The fields of the request for a payload.
abbrev pub verify_vec : ℕ → List ℕ → Vec
verify_vec op pl = parsed op (replicate 32 0) (replicate 12 0) [] pl

module _ (p : Primitives) (fit : PrimitivesFit p) where
  pub compute_vector-IsSound :
      (ssl : OpenSsl)
      → SslKeeps ssl p
      → (e : ssl.Entropy) (op s : ℕ) → op < 27
      → is_verify_op op ≡ false
      → IsSound p (compute_vector ssl e op (draw_vector op s).0) (vec_of op (draw_vector op s).0)
  unfolding reference_reply
  compute_vector-IsSound ssl keeps e op s below compute =
      let d = (draw_vector op s).0 in
      let v = vec_of op d in
      let sent = draw_vector-IsSent op s in
      let request = sent.request in
      let parses = draw_vector-Agrees op s in
      record {
        carries = (parses, refl, (vec_parse-IsWell (request_line op d.blob) parses).bytes);
        sent = sent;
        fits = promised-FitsReply p v op fit request;
        reference =
            ap (folded op) (hex_reply-text_of (ref_compute ssl e op d.input))
            ∙ folded-Fulfils p op v (outcome_of (ref_compute ssl e op d.input))
                (ref_compute-Fulfils ssl p keeps e v op request.has_key below compute);
      }

  verify_vec-IsRequest :
      (op : ℕ) (pl : List ℕ) → All IsByte pl → length pl ≤ 2048 → IsRequest (verify_vec op pl)
  verify_vec-IsRequest op pl bytes short = record {
    has_key = (refl, All-replicate IsByte 32 0 (omega arith), omega arith, omega arith);
    nonce_bytes = (All-replicate IsByte 12 0 (omega arith), refl);
    aad_bytes = (tt, omega arith);
    msg_bytes = (bytes, short);
  }

  -- A vector of a verify op, by what its payload says.
  pub verify_vector-IsSound :
      (op : ℕ) (made : Option (List ℕ × Bool)) (pl : List ℕ)
      → (op == 12) ≡ false
      → verify_blob made ≡ replicate 46 0 ++ pl
      → All IsByte pl
      → length pl ≤ 2048
      → verify_reply made ≡ tohex (promised p op (verify_vec op pl))
      → IsSound p (verify_vector op made) (verify_vec op pl)
  verify_vector-IsSound op made pl other blob bytes short reply =
      let v = verify_vec op pl in
      let request = verify_vec-IsRequest op pl bytes short in
      let all_bytes : All IsByte (replicate 46 0 ++ pl) =
        All-append IsByte (replicate 46 0) pl (All-replicate IsByte 46 0 (omega arith)) bytes in
      record {
        carries = (
          ap (λ (b : List ℕ). vec_parse (request_line op b)) blob
              ∙ vec_parse-request_line (replicate 32 0) (replicate 12 0) [] pl refl refl op
                  all_bytes,
          refl,
          subst (All IsByte) (sym blob) all_bytes,
        );
        sent = record { request = request; whole_peer = λ e. absurd (ground arith) };
        fits = promised-FitsReply p v op fit request;
        reference = rw other reply;
      }
