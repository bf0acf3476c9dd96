-- ===== src/Engine/Reader.antt =====
-- The byte reader of engine/cmfuzz_common.h.
pub mod Laws
use cmfuzz.Base.{
  ℕ, zero, suc, ◌+◌, ◌-◌, ◌*◌, ◌%◌, ◌^◌, bit_or, List, ltb, if◌then◌else◌, get_or, drop, take,
  length,
}

-- `cmf_reader_t`.
pub record Reader : Type 0 where
  pub buf : List ℕ
  pub len : ℕ
  pub pos : ℕ

pub reader_init : List ℕ → ℕ → Reader
reader_init d l = record { buf = d; len = l; pos = 0 }

-- `cmf_u8`. A read outside the array would give 0 here; `Laws.IsValid` rules it out.
pub u8 : Reader → ℕ × Reader
u8 r = if ltb r.pos r.len then (get_or r.buf r.pos 0, record r { pos = r.pos + 1 }) else (0, r)

-- One round of `cmf_u32`: `v = (v << 8) | cmf_u8(r)` on 32 bits.
u32_round : ℕ × Reader → ℕ × Reader
u32_round (v, r) = let (b, r') = u8 r in (bit_or (v * 2 ^ 8 % 2 ^ 32) b, r')

pub u32 : Reader → ℕ × Reader
unfolding u32_round
u32 r = u32_round (u32_round (u32_round (u32_round (0, r))))

-- `cmf_rest`: the slice `data[pos .. len)`, and the reader at its end.
pub rest : Reader → List ℕ × Reader
rest r = (take (r.len - r.pos) (drop r.pos r.buf), record r { pos = r.len })
