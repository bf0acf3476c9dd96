-- ===== src/Tests/Campaign.antt =====
-- A run of the whole of harness/subproc/diff_subproc_runner.c on stand-ins for the libraries.
use cmfuzz.Base.{
  ℕ, zero, suc, ◌+◌, ◌≤◌, ◌≡◌, refl, subst, arith, List, [], ◌∷◌, ◌++◌, append-nil, Option, none,
  some, Bool, true, false, bytes_eq, replicate, if◌then◌else◌, take, length-append, length-take,
  All, All-append, All-take, some_inj,
}
use cmfuzz.Base.Int.{pos}
use cmfuzz.Base.Tables.{◌&◌}
use cmfuzz.Engine.Prng.{IsByte}
use cmfuzz.Protocol.Names.{Cipher, chacha20_poly1305, key_bytes, digest_size}
use cmfuzz.Protocol.Stream.Lines.{lines, join_map}
use cmfuzz.Protocol.Vec.{Vec}
use cmfuzz.Protocol.Payload.{Views, verify_parse}
use cmfuzz.Protocol.Ops.{outputs, judged, verdict_byte}
use cmfuzz.Backend.Serve.{Outcome, abstain, failed, computed, serve_line, serve, switch_op}
use cmfuzz.Backend.Serve.Loop.{serve-printed}
use cmfuzz.Backend.Nettle.{nettle_cases}
use cmfuzz.Backend.Nettle.Contract.{nettle_missing, nettle-Owes}
use cmfuzz.Backend.Wolfssl.{wolfssl_cases}
use cmfuzz.Backend.Wolfssl.Contract.{wolfssl_missing, wolfssl-Owes}
use cmfuzz.Runner.OpenSsl.{OpenSsl}
use cmfuzz.Runner.Reference.Contract.{SslKeeps}
use cmfuzz.Runner.Payload.Signers.{SslSigns, SmallBytes}
use cmfuzz.Runner.Campaign.{Program, runner_main}
use cmfuzz.Runner.Campaign.Stored.{FitsReply}
use cmfuzz.Runner.Campaign.Agreement.{Follows}
use cmfuzz.Runner.Campaign.Sound.{PrimitivesFit}
use cmfuzz.Runner.Campaign.Vectors.{runner_main-zero}
use cmfuzz.Tests.Libraries.{
  fit, simple, simple_nettle, simple_nettle-NettleKeeps, simple_wolf, simple_wolf-WolfKeeps,
}

abbrev simple_ssl : OpenSsl
simple_ssl = record {
  Entropy = Unit {0};
  CipherCtx = Cipher × List ℕ;
  MdCtx = List ℕ;
  KdfCtx = Unit {0};
  MacCtx = List ℕ;
  Pkey = List ℕ;
  PkeyCtx = List ℕ;
  cipher_ctx_new = some (chacha20_poly1305, []);
  encrypt_init = λ c ci. (ci, []);
  set_ivlen = λ c n. c;
  set_key_iv = λ c key nonce. (c.0, take (key_bytes c.0) key ++ nonce);
  update_aad = λ c aad. (c.0, c.1 ++ aad);
  encrypt_update = λ c msg. (msg, c);
  encrypt_final = λ c. ([], c);
  get_tag = λ c n. c.1;
  digest = λ md msg. some (fit (digest_size md) msg);
  md_ctx_new = some [];
  digest_init = λ c md. some c;
  digest_update = λ c msg. some (c ++ msg);
  digest_final_xof = λ c n. some c;
  hmac = λ md key msg. some (key ++ msg);
  hkdf_ctx_new = some tt;
  hkdf_derive = λ c md ikm salt info n. some ((salt ++ ikm) ++ info);
  pbkdf2 = λ password salt rounds md n. some (password ++ salt);
  mac_ctx_new = λ name. some [];
  mac_init = λ c key cipher. some key;
  mac_update = λ c msg. some (c ++ msg);
  mac_final = λ c n. some c;
  raw_private_key = λ t key. some key;
  raw_public_key = λ t key. some key;
  sign_init = λ c md key. some key;
  digest_sign = λ e c room msg. some (fit room (c ++ msg));
  verify_init = λ c md key. some c;
  digest_verify = λ c sig msg. bytes_eq sig (fit 32 msg);
  pkey_ctx_new = λ key. some key;
  derive_init = λ ctx. some ctx;
  derive_set_peer = λ ctx peer. some peer;
  derive = λ ctx n. if bytes_eq ctx (replicate 32 0) then none else some ctx;
  ec_gen = λ e. some (7 ∷ []);
  rsa_gen = λ e. some (9 ∷ []);
  encoded_public_key = λ key. some (fit 65 key);
  rsa_modulus = λ key. some (fit 256 key);
  set_pss = λ c n md. some c;
}

simple_ssl-SslKeeps : SslKeeps simple_ssl simple
simple_ssl-SslKeeps = record {
  digests = λ md msg. refl;
  hmacs = λ md key msg. refl;
  xofs = λ md msg n. refl;
  seals = λ ci key nonce aad msg. refl;
  no_aad = λ c. λ i. (c.0, append-nil c.1 i);
  hkdfs = λ md ikm salt info n. refl;
  pbkdf2s = λ password salt rounds md n. refl;
  poly1305s = λ key msg. refl;
  cmacs = λ key msg. refl;
  signs = λ e seed msg. refl;
  multiplies = λ k u. refl;
}

fit-SmallBytes : (n : ℕ) (msg : List ℕ) → SmallBytes n (fit n msg)
fit-SmallBytes zero msg = (omega arith, tt)
fit-SmallBytes (suc n) [] =
    let (few, bytes) = fit-SmallBytes n [] in (omega arith, (omega arith, bytes))
fit-SmallBytes (suc n) (b ∷ msg) =
    let (few, bytes) = fit-SmallBytes n msg in (omega arith, (omega arith, bytes))

fit_of : (n : ℕ) (msg out : List ℕ) → some (fit n msg) ≡ some out → SmallBytes n out
fit_of n msg out e = subst (SmallBytes n) (some_inj _ _ e) (fit-SmallBytes n msg)

simple_ssl-SslSigns : SslSigns simple_ssl simple
simple_ssl-SslSigns = record {
  signatures = λ e c room msg sig h. fit_of room (c ++ msg) sig h;
  points = λ k key h. fit_of 65 k key h;
  moduli = λ k key h. fit_of 256 k key h;
  ecdsa_verdicts = λ k key msg sig h. refl;
  rsa_verdicts = λ k key msg sig h. refl;
}

append-SmallBytes :
    (m n : ℕ) (xs ys : List ℕ) → SmallBytes m xs → SmallBytes n ys → SmallBytes (m + n) (xs ++ ys)
append-SmallBytes m n xs ys (few, bytes) (few2, bytes2) =
    (omega (arith, length-append xs ys), All-append IsByte xs ys bytes bytes2)

fits_reply : (n : ℕ) (out : List ℕ) → n ≤ 4149 → SmallBytes n out → FitsReply out
fits_reply n out h (few, bytes) = (bytes, omega arith)

verdict_byte-FitsReply : (b : Bool) → FitsReply (verdict_byte b)
verdict_byte-FitsReply true = ((omega arith, tt), omega arith)
verdict_byte-FitsReply false = ((omega arith, tt), omega arith)

judged-FitsReply : (ok : List ℕ → List ℕ → List ℕ → Bool) (v : Vec) → FitsReply (judged ok v)
judged-FitsReply ok v = by_views (verify_parse v.msg)
  where
    by_views :
        (o : Option Views)
        → FitsReply (elim o [
          | none ↦ verdict_byte false
          | some w ↦ verdict_byte (ok w.pub_key w.sig w.msg)
        ])
    by_views none = verdict_byte-FitsReply false
    by_views (some w) = verdict_byte-FitsReply (ok w.pub_key w.sig w.msg)

take-SmallBytes : (n m : ℕ) (xs : List ℕ) → SmallBytes m xs → SmallBytes m (take n xs)
take-SmallBytes n m xs (few, bytes) = (omega (arith, length-take n xs), All-take IsByte n xs bytes)

simple-PrimitivesFit : PrimitivesFit simple
unfolding outputs
simple-PrimitivesFit v request =
    let key : SmallBytes 32 v.key = (omega (arith, request.has_key), request.has_key.1) in
    let nonce : SmallBytes 12 v.nonce =
      (omega (arith, request.nonce_bytes), request.nonce_bytes.0) in
    let aad : SmallBytes 63 v.aad = (request.aad_bytes.1, request.aad_bytes.0) in
    let msg : SmallBytes 2048 v.msg = (request.msg_bytes.1, request.msg_bytes.0) in
    let hash =
      λ (n : ℕ) (h : n ≤ 64). fits_reply n (fit n v.msg) (omega arith) (fit-SmallBytes n v.msg) in
    let mac =
      fits_reply 2080 (v.key ++ v.msg) (omega arith)
        (append-SmallBytes 32 2048 v.key v.msg key msg) in
    let part = λ (n : ℕ). take-SmallBytes n 32 v.key key in
    let seal = λ (n : ℕ).
      fits_reply 2155 (v.msg ++ ((take n v.key ++ v.nonce) ++ v.aad)) (omega arith) (
        append-SmallBytes 2048 107 v.msg ((take n v.key ++ v.nonce) ++ v.aad) msg (
          append-SmallBytes 44 63 (take n v.key ++ v.nonce) v.aad
            (append-SmallBytes 32 12 (take n v.key) v.nonce (part n) nonce) aad)) in
    let whole = fits_reply 2048 v.msg (omega arith) msg in
    (hash 32 (omega arith)
      & hash 64 (omega arith)
      & mac
      & seal 32
      & seal 32
      & hash 32 (omega arith)
      & hash 64 (omega arith)
      & whole
      & whole
      & fits_reply 2143 ((v.key ++ v.msg) ++ v.aad) (omega arith) (
          append-SmallBytes 2080 63 (v.key ++ v.msg) v.aad
            (append-SmallBytes 32 2048 v.key v.msg key msg) aad)
      & fits_reply 2080 (v.msg ++ v.key) (omega arith)
          (append-SmallBytes 2048 32 v.msg v.key msg key)
      & fits_reply 64 (fit 64 (v.key ++ v.msg)) (omega arith) (fit-SmallBytes 64 (v.key ++ v.msg))
      & fits_reply 2048 (take 32 v.msg) (omega arith) (take-SmallBytes 32 2048 v.msg msg)
      & judged-FitsReply simple.ecdsa_ok v
      & judged-FitsReply simple.rsa_pss_ok v
      & hash 20 (omega arith)
      & hash 28 (omega arith)
      & hash 48 (omega arith)
      & hash 32 (omega arith)
      & hash 16 (omega arith)
      & mac
      & mac
      & mac
      & seal 16
      & seal 24
      & mac
      & mac
      & tt)

-- A process that runs the shared loop.
abbrev serving : (ℕ → Vec → Outcome) → List ℕ → List ℕ
serving cases stdin = join_map (serve_line false (switch_op cases)) (lines stdin)

abbrev backends : List Program
backends =
    record { name = "nettle"; process = serving (nettle_cases simple_nettle) }
    ∷ record { name = "wolfssl"; process = serving (wolfssl_cases simple_wolf) }
    ∷ []

serving-process :
    (room : ℕ) (cases : ℕ → Vec → Outcome) (stdin out : List ℕ)
    → serve room false (switch_op cases) stdin ≡ some out
    → serving cases stdin ≡ out
serving-process room cases stdin out e = serve-printed room false (switch_op cases) stdin out e

backends-Follows : All (Follows simple) backends
backends-Follows = (
  record {
    missing = nettle_missing;
    cases = nettle_cases simple_nettle;
    room = 8192;
    enough = omega arith;
    serves = λ stdin out e. serving-process 8192 (nettle_cases simple_nettle) stdin out e;
    owes = λ v op h. nettle-Owes simple_nettle simple simple_nettle-NettleKeeps v op h;
  },
  (
    record {
      missing = wolfssl_missing;
      cases = wolfssl_cases simple_wolf;
      room = (4096 + 64);
      enough = omega arith;
      serves = λ stdin out e. serving-process (4096 + 64) (wolfssl_cases simple_wolf) stdin out e;
      owes = λ v op h. wolfssl-Owes simple_wolf simple simple_wolf-WolfKeeps v op h;
    },
    tt,
  ),
)

runner_main-zero_example : runner_main simple_ssl (λ i. tt) 100 42 backends ≡ 0
runner_main-zero_example =
    runner_main-zero simple simple-PrimitivesFit simple_ssl simple_ssl-SslKeeps simple_ssl-SslSigns
      (λ i. tt) 100 42 backends backends-Follows

-- A request for the reference.
abbrev asked : Vec
asked = record {
  op = pos 23;
  key = replicate 32 7;
  nonce = replicate 12 0;
  aad = [];
  msg = 1 ∷ 2 ∷ [];
  blob = [];
}

abbrev answered : List (ℕ × Outcome)
answered = (0, computed (0xab ∷ 7 ∷ [])) ∷ (13, abstain) ∷ (12, failed) ∷ []
