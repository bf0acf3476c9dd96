-- ===== src/Tests/Runner.antt =====
-- Runs of harness/subproc/diff_subproc_runner.c.
use Prim.Native.String.{String}
use cmfuzz.Base.{
  ◌≤◌, ℕ, ◌+◌, ◌≡◌, ◌↔◌, refl, arith, List, [], ◌∷◌, Option, none, some, Bool, true, false, All,
  length, take, map, replicate, ◌⊎◌, bytes_eq, ap, some_inj, length-take, length-replicate,
}
use cmfuzz.Base.Text.{codes}
use cmfuzz.Runner.OpenSsl.{OpenSsl}
use cmfuzz.Runner.Reference.{ref_compute}
use cmfuzz.Runner.Reference.Bounds.{AtMost, OutputSizes}
use cmfuzz.Runner.Request.Buffers.{reference_reply-fits}
use cmfuzz.Runner.Normalize.{x25519_normalize, IsDegenerate, x25519_normalize_iff}
use cmfuzz.Runner.Request.{draw_vector, reference_reply}
use cmfuzz.Runner.Request.Agreement.{Agrees, draw_vector-Agrees}
use cmfuzz.Runner.Payload.{Signer, make_payload}
use cmfuzz.Runner.Random.{rnd, rnd_bytes}
use cmfuzz.Runner.Payload.Verdict.{IsJudged, FitsBuffers, make_payload-IsJudged}
use cmfuzz.Runner.Vote.{Voter, Backend, count_value, minority, other_voters, judge, vote_events}
use cmfuzz.Runner.Vote.Best.{AllGave, electorate}
use cmfuzz.Runner.Vote.Verdict.{
  HasMajority, dissenters, Accepts, vote_events_majority, judge-silent_iff, judge-silent_verify_iff,
}
use cmfuzz.Runner.Vote.Voters.{answering, other_voters-take}
use cmfuzz.Runner.Tally.{Vector, events_from, tally_run, exit_status}
use cmfuzz.Runner.Tally.Exit.{AllAgree, exit_status_iff}
use cmfuzz.Runner.Tally.Blame.{sum, unresolved, tally_run-accounts}

abbrev reply : String → Option ℕ → List ℕ → Voter
reply name b value = record { value = value; name = name; backend = b }

abbrev reference : Voter
reference = reply "openssl" none (codes "aa")

abbrev one_outlier : List Voter
one_outlier = reply "wolfssl" (some 0) (codes "aa") ∷ reply "nettle" (some 1) (codes "ab") ∷ []

abbrev backends : List Backend
backends =
    record { name = "wolfssl"; replies = codes "aa" ∷ []; na = 0 }
    ∷ record { name = "nettle"; replies = codes "ab" ∷ []; na = 0 }
    ∷ []

abbrev vectors : List Vector
vectors = record { op = 0; ref_hex = codes "aa" } ∷ []

exit_status_iff_example : (exit_status backends vectors ≡ 0) ↔ AllAgree 0 backends vectors
exit_status_iff_example = exit_status_iff backends vectors

tally_run-accounts_example :
    ((tally_run backends vectors).failures ≡ length (events_from 0 backends vectors))
    × ((tally_run backends vectors).failures
        ≡ sum (tally_run backends vectors).bdiv
          + (tally_run backends vectors).ref_outlier
          + unresolved (events_from 0 backends vectors))
tally_run-accounts_example = tally_run-accounts backends vectors

judge-silent_iff_example :
    (judge 0 reference one_outlier ≡ []) ↔ AllGave reference.value one_outlier
judge-silent_iff_example = judge-silent_iff 0 reference one_outlier refl

judge-silent_verify_iff_example :
    (judge 13 reference one_outlier ≡ []) ↔ All (λ v. Accepts v ↔ Accepts reference) one_outlier
judge-silent_verify_iff_example = judge-silent_verify_iff 13 reference one_outlier refl

other_voters-take_example : other_voters 0 backends ≡ take 15 (answering 0 0 backends)
other_voters-take_example = other_voters-take 0 backends

x25519_normalize_iff_example :
    (x25519_normalize (codes "00") ≡ x25519_normalize (codes "ERR"))
    ↔ ((codes "00" ≡ codes "ERR") ⊎ (IsDegenerate (codes "00") × IsDegenerate (codes "ERR")))
x25519_normalize_iff_example = x25519_normalize_iff (codes "00") (codes "ERR")

-- A key whose signatures are the message cut to three bytes.
abbrev short_signer : Signer
short_signer = record {
  sign = λ msg. some (take 3 msg);
  verdict = λ msg sig. true;
  public_bytes = some (4 ∷ 1 ∷ 2 ∷ []);
}

short_signer-FitsBuffers : FitsBuffers short_signer
short_signer-FitsBuffers = (
  λ msg sig e. omega (arith, ap length (some_inj _ _ e), length-take 3 msg),
  λ key e. omega (arith, ap length (some_inj _ _ e)),
)

abbrev or_empty : Option (List ℕ × Bool) → List ℕ × Bool
or_empty none = ([], false)
or_empty (some r) = r

abbrev judged : List ℕ × Bool
judged = or_empty (make_payload short_signer 7).0

judged_made : (make_payload short_signer 7).0 ≡ some judged
unfolding make_payload rnd rnd_bytes
judged_made = refl

make_payload-IsJudged_example : IsJudged short_signer judged
make_payload-IsJudged_example =
    make_payload-IsJudged short_signer 7 judged short_signer-FitsBuffers judged_made

aa_majority : HasMajority (codes "aa") (electorate reference one_outlier)
unfolding count_value bytes_eq
aa_majority = omega arith

vote_events_majority_example :
    vote_events reference one_outlier
    ≡ map minority (dissenters (codes "aa") (electorate reference one_outlier))
vote_events_majority_example = vote_events_majority reference one_outlier (codes "aa") aa_majority

abbrev other_reply : List Voter
other_reply = reply "nettle" (some 0) (codes "ab") ∷ []

-- A library that answers with zeros of the documented sizes.
abbrev zero_ssl : OpenSsl
zero_ssl = record {
  Entropy = Unit {0};
  CipherCtx = Unit {0};
  MdCtx = Unit {0};
  KdfCtx = Unit {0};
  MacCtx = Unit {0};
  Pkey = Unit {0};
  PkeyCtx = Unit {0};
  cipher_ctx_new = some tt;
  encrypt_init = λ c k. c;
  set_ivlen = λ c n. c;
  set_key_iv = λ c k n. c;
  update_aad = λ c a. c;
  encrypt_update = λ c m. (m, c);
  encrypt_final = λ c. ([], c);
  get_tag = λ c n. replicate n 0;
  digest = λ md m. some (replicate 32 0);
  md_ctx_new = some tt;
  digest_init = λ c md. some c;
  digest_update = λ c m. some c;
  digest_final_xof = λ c n. some (replicate n 0);
  hmac = λ md k m. some (replicate 32 0);
  hkdf_ctx_new = some tt;
  hkdf_derive = λ c md k s i n. some (replicate n 0);
  pbkdf2 = λ p s i md n. some (replicate n 0);
  mac_ctx_new = λ m. some tt;
  mac_init = λ c k ci. some c;
  mac_update = λ c m. some c;
  mac_final = λ c n. some (replicate n 0);
  raw_private_key = λ t k. some tt;
  raw_public_key = λ t k. some tt;
  sign_init = λ c md k. some c;
  digest_sign = λ e c n m. some (replicate n 0);
  verify_init = λ c md k. some c;
  digest_verify = λ c s m. true;
  pkey_ctx_new = λ k. some tt;
  derive_init = λ c. some c;
  derive_set_peer = λ c k. some c;
  derive = λ c n. some (replicate n 0);
  ec_gen = λ e. some tt;
  rsa_gen = λ e. some tt;
  encoded_public_key = λ k. some (replicate 65 0);
  rsa_modulus = λ k. some (replicate 256 0);
  set_pss = λ c n md. some c;
}

zeros-AtMost : (n : ℕ) → AtMost n (some (replicate n 0))
zeros-AtMost n = omega (arith, length-replicate {A = ℕ} n 0)

zero_ssl-OutputSizes : OutputSizes zero_ssl
zero_ssl-OutputSizes = record {
  digest_size = λ md m. omega arith;
  hmac_size = λ md k m. omega arith;
  xof_size = λ c n. zeros-AtMost n;
  update_size = λ c m. omega arith;
  final_size = λ c. omega arith;
  tag_size = λ c n. zeros-AtMost n;
  hkdf_size = λ c md k s i n. zeros-AtMost n;
  pbkdf2_size = λ p s i md n. zeros-AtMost n;
  mac_size = λ c n. zeros-AtMost n;
  sign_size = λ e c n m. zeros-AtMost n;
  derive_size = λ c n. zeros-AtMost n;
}

reference_reply-fits_example :
    (length (draw_vector 3 42).0.input.msg ≤ 511)
    × AtMost 591 (ref_compute zero_ssl tt 3 (draw_vector 3 42).0.input)
    × (length (reference_reply zero_ssl tt 3 (draw_vector 3 42).0.input) + 1 ≤ 8300)
reference_reply-fits_example = reference_reply-fits zero_ssl zero_ssl-OutputSizes tt 3 42

draw_vector-Agrees_example : Agrees 3 (draw_vector 3 42).0
draw_vector-Agrees_example = draw_vector-Agrees 3 42
