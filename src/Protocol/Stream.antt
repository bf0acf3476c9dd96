-- ===== src/Protocol/Stream.antt =====
-- Text streams as the C library hands them out.
pub mod Lines
use cmfuzz.Base.{ℕ, List, [], ◌∷◌, ◌==◌, if◌then◌else◌}
use cmfuzz.Protocol.Hex.{newline}

-- What string functions see of a line: all before the first NUL.
unfoldable pub c_string : List ℕ → List ℕ
c_string [] = []
c_string (c ∷ cs) = let later = c_string cs in if c == 0 then [] else c ∷ later

-- `getline`: the next line with its newline, and what is left of the stream. A last line without a
-- newline is returned as it is, and at the end there is nothing.
unfoldable pub getline : List ℕ → List ℕ × List ℕ
getline [] = ([], [])
getline (c ∷ cs) =
    let later = getline cs in if c == newline then (c ∷ [], cs) else (c ∷ later.0, later.1)
