-- ===== src/Tests/Backends.antt =====
-- Runs of harness/subproc/compute_*.c.
use cmfuzz.Base.{ℕ, ◌≡◌, ◌↔◌, refl, arith, List, [], ◌∷◌, ◌++◌, some, false, map, replicate}
use cmfuzz.Base.Int.{pos}
use cmfuzz.Base.Text.{codes}
use cmfuzz.Protocol.Hex.{newline, hexdecode}
use cmfuzz.Protocol.Stream.Lines.{lines}
use cmfuzz.Protocol.Stream.{getline, c_string}
use cmfuzz.Protocol.Decimal.{atoi}
use cmfuzz.Protocol.Vec.{Vec, vec_parse}
use cmfuzz.Protocol.Ops.{le_number, decode_scalar}
use cmfuzz.Backend.Serve.{serve_line, serve, switch_op}
use cmfuzz.Backend.Serve.Loop.{AllFit, serve-lockstep}
use cmfuzz.Backend.Contract.{Owes, IsSent, offers}
use cmfuzz.Backend.Nettle.{clamp, nettle_cases}
use cmfuzz.Backend.Nettle.Clamp.{le_number-clamp}
use cmfuzz.Backend.AwsLc.{aws_lc_cases}
use cmfuzz.Backend.AwsLc.Contract.{aws_lc_missing, aws_lc-Owes}
use cmfuzz.Backend.BoringSsl.{boringssl_cases}
use cmfuzz.Backend.BoringSsl.Contract.{boringssl_missing, boringssl-Owes}
use cmfuzz.Backend.Libgcrypt.{gcrypt_cases}
use cmfuzz.Backend.Libgcrypt.Contract.{gcrypt_missing, gcrypt-Owes}
use cmfuzz.Backend.Wolfssl.{wolfssl_cases}
use cmfuzz.Backend.Wolfssl.Contract.{wolfssl_missing, wolfssl-Owes}
use cmfuzz.Tests.Libraries.{
  simple, simple_nettle, simple_boring, simple_boring-BoringKeeps, simple_boring-XofsKeep,
  simple_gcrypt, simple_gcrypt-GcryptKeeps, simple_wolf, simple_wolf-WolfKeeps,
}

-- A request for SHA-256, a line that is none, an op that is none, and a line that is cut off.
abbrev requests : List ℕ
requests =
    codes "0 6162"
    ++ (newline ∷ (codes "hello" ++ (newline ∷ (codes "99 00" ++ (newline ∷ codes "7 61")))))

serve-lockstep_example : AllFit 8192 (switch_op (nettle_cases simple_nettle)) (lines requests) ↔ (
    (out : List ℕ) × (serve 8192 false (switch_op (nettle_cases simple_nettle)) requests ≡ some out)
    × (lines out
        ≡ map (serve_line false (switch_op (nettle_cases simple_nettle))) (lines requests)))
serve-lockstep_example = serve-lockstep 8192 false (switch_op (nettle_cases simple_nettle)) requests

requests-AllFit : AllFit 8192 (switch_op (nettle_cases simple_nettle)) (lines requests)
unfolding lines getline c_string vec_parse hexdecode atoi nettle_cases
requests-AllFit = (refl, (refl, (refl, (refl, tt))))

le_number-clamp_example : le_number (clamp (replicate 32 255)) ≡ decode_scalar (replicate 32 255)
le_number-clamp_example = le_number-clamp (replicate 32 255) refl (omega arith)

-- A payload whose signature is accepted: the message, which is empty, padded with zeros.
abbrev request : Vec
request = record {
  op = pos 13;
  key = replicate 32 7;
  nonce = replicate 12 0;
  aad = 5 ∷ [];
  msg = 0 ∷ 1 ∷ 9 ∷ 0 ∷ 32 ∷ replicate 32 0;
  blob = [];
}

request-IsSent : (op : ℕ) → IsSent op request
request-IsSent op = record {
  request = record {
    has_key = (refl, omega arith, omega arith, omega arith);
    nonce_bytes = (omega arith, refl);
    aad_bytes = (omega arith, omega arith);
    msg_bytes = (omega arith, omega arith);
  };
  whole_peer = λ e. omega arith;
}

aws_lc-Owes_example :
    Owes (offers aws_lc_missing 13) simple 13 request (aws_lc_cases simple_boring 13 request)
aws_lc-Owes_example =
    aws_lc-Owes simple_boring simple simple_boring-BoringKeeps simple_boring-XofsKeep request 13
      (request-IsSent 13)

boringssl-Owes_example :
    Owes (offers boringssl_missing 9) simple 9 request (boringssl_cases simple_boring 9 request)
boringssl-Owes_example =
    boringssl-Owes simple_boring simple simple_boring-BoringKeeps request 9 (request-IsSent 9)

gcrypt-Owes_example :
    Owes (offers gcrypt_missing 26) simple 26 request (gcrypt_cases simple_gcrypt 26 request)
gcrypt-Owes_example =
    gcrypt-Owes simple_gcrypt simple simple_gcrypt-GcryptKeeps request 26 (request-IsSent 26)

wolfssl-Owes_example :
    Owes (offers wolfssl_missing 12) simple 12 request (wolfssl_cases simple_wolf 12 request)
wolfssl-Owes_example =
    wolfssl-Owes simple_wolf simple simple_wolf-WolfKeeps request 12 (request-IsSent 12)
