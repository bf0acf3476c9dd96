-- ===== src/Backend/BoringSsl.antt =====
-- harness/subproc/compute_boringssl.c. Its functions are those of compute_aws_lc.c, from which they
-- are taken here; this build of the library has no SHA-3 and no SHAKE.
pub mod Contract
use cmfuzz.Base.{ℕ, ◌+◌, List, Option, Bool, ◌==◌, if◌then◌else◌}
use cmfuzz.Protocol.Names.{Md, Cipher}
use cmfuzz.Protocol.Vec.{Vec}
use cmfuzz.Backend.Serve.{Outcome, abstain, switch_op, serve}
use cmfuzz.Backend.AwsLc.{
  BoringCalls, digest, hmac256, aead, hkdf, pbkdf2, ed25519, x25519, ecdsa_verify, rsa_pss_verify,
}

module _ (lib : BoringCalls) where
  unfoldable pub boringssl_cases : ℕ → Vec → Outcome
  boringssl_cases op v =
      if op == 0
      then digest lib Md.sha256 v
      else if op == 1
      then digest lib Md.sha512 v
      else if op == 2
      then hmac256 lib v
      else if op == 3
      then aead lib Cipher.chacha20_poly1305 v
      else if op == 4
      then aead lib Cipher.aes_256_gcm v
      else if op == 5
      then abstain
      else if op == 6
      then abstain
      else if op == 7
      then abstain
      else if op == 8
      then abstain
      else if op == 9
      then hkdf lib v
      else if op == 10
      then pbkdf2 lib v
      else if op == 11
      then ed25519 lib v
      else if op == 12
      then x25519 lib v
      else if op == 13
      then ecdsa_verify lib v
      else if op == 14
      then rsa_pss_verify lib v
      else abstain

  -- `main`; `fault` is a build with CMF_DIFF_FAULT.
  pub boringssl_main : Bool → List ℕ → Option (List ℕ)
  unfolding boringssl_cases
  boringssl_main fault stdin = serve (4096 + 64) fault (switch_op boringssl_cases) stdin
