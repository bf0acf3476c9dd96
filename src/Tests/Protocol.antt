-- ===== src/Tests/Protocol.antt =====
-- Runs of harness/subproc/compute_common.h.
use cmfuzz.Base.{ℕ, ◌≡◌, ◌↔◌, refl, arith, List, [], ◌∷◌, ◌++◌, some, replicate}
use cmfuzz.Base.Int.{pos}
use cmfuzz.Base.Text.{codes}
use cmfuzz.Protocol.Hex.{is_trailing, hexdecode, tohex}
use cmfuzz.Protocol.Hex.RoundTrip.{hexdecode-tohex}
use cmfuzz.Protocol.Decimal.{atoi}
use cmfuzz.Protocol.Vec.{fill_vec, vec_parse}
use cmfuzz.Protocol.Vec.Laws.{IsWell, vec_parse-IsWell}
use cmfuzz.Protocol.Payload.{Views, verify_parse}
use cmfuzz.Protocol.Payload.Laws.{layout, verify_parse_iff}

hexdecode-tohex_example :
    hexdecode (tohex (0x4B ∷ 0x0A ∷ []) ++ codes "\r\n") ≡ some (0x4B ∷ 0x0A ∷ [])
unfolding is_trailing
hexdecode-tohex_example =
    hexdecode-tohex (0x4B ∷ 0x0A ∷ []) (codes "\r\n") (omega arith) (refl, (refl, tt))

-- A field that asks for five bytes of additional data where two are left.
abbrev greedy_blob : List ℕ
greedy_blob = replicate 44 0 ++ (0 ∷ 5 ∷ 1 ∷ 2 ∷ [])

abbrev greedy_line : List ℕ
greedy_line = codes "3 " ++ (replicate 88 b'0' ++ codes "00050102\n")

greedy_line_parsed : vec_parse greedy_line ≡ some (fill_vec (pos 3) greedy_blob)
unfolding vec_parse hexdecode atoi
greedy_line_parsed = refl

vec_parse-IsWell_example : IsWell (fill_vec (pos 3) greedy_blob)
vec_parse-IsWell_example = vec_parse-IsWell greedy_line greedy_line_parsed

abbrev payload : List ℕ
payload = 0 ∷ 2 ∷ 10 ∷ 11 ∷ 0 ∷ 1 ∷ 20 ∷ 30 ∷ 31 ∷ []

abbrev views : Views
views = record { pub_key = 10 ∷ 11 ∷ []; sig = 20 ∷ []; msg = 30 ∷ 31 ∷ [] }

verify_parse_iff_example : (verify_parse payload ≡ some views) ↔ (payload ≡ layout views)
verify_parse_iff_example = verify_parse_iff payload views (omega arith)
