-- ===== src/Utf/Utf8/Units.antt =====
-- The bytes of RFC 3629, case by case, and what the decoder makes of them.
use system_fundamentals_c_pr.Base.{
  ℕ, ◌+◌, ◌/◌, ◌%◌, ◌≤◌, ◌<◌, ◌≡◌, some, List, [], ◌∷◌, length, arith,
}
use system_fundamentals_c_pr.Utf.Glyph.{utf8_glyph}
use system_fundamentals_c_pr.Utf.Spec.{utf8_units}
use system_fundamentals_c_pr.Utf.Utf8.{
  remaining_utf8_bytes, get_utf8_decoding_function, utf8_one_byte_decode,
}
use system_fundamentals_c_pr.Utf.Utf8.RoundTrip.{
  two_byte_decode_lem, three_byte_decode_lem, four_byte_decode_lem,
}

-- The first byte `b` says that `n` follow, and the bytes `units` decode to `c` whatever stands
-- behind them.
pub record Decodes (c b n : ℕ) (others : List ℕ) : Type 0 where
  pub units : utf8_units c ≡ b ∷ others
  pub remaining : remaining_utf8_bytes b ≡ n

module _ (c : ℕ) where
  pub units_1 : c < 0x80 → Decodes c c 0 []
  unfolding utf8_units remaining_utf8_bytes
  units_1 h = record { units = ground arith; remaining = ground arith }

  pub units_2 : 0x80 ≤ c → c < 0x800 → Decodes c (0xc0 + c / 64) 1 ((0x80 + c % 64) ∷ [])
  unfolding utf8_units remaining_utf8_bytes
  units_2 l h = record { units = ground arith; remaining = ground arith }

  pub units_3 :
      0x800 ≤ c
      → c < 0x10000
      → Decodes c (0xe0 + c / 4096) 2 ((0x80 + c / 64 % 64) ∷ (0x80 + c % 64) ∷ [])
  unfolding utf8_units remaining_utf8_bytes
  units_3 l h = record { units = ground arith; remaining = ground arith }

  pub units_4 :
      0x10000 ≤ c
      → c < 0x200000
      → Decodes c
          (0xf0 + c / 262144)
          3
          ((0x80 + c / 4096 % 64) ∷ (0x80 + c / 64 % 64) ∷ (0x80 + c % 64) ∷ [])
  unfolding utf8_units remaining_utf8_bytes
  units_4 l h = record { units = ground arith; remaining = ground arith }

  module _ (x y z : ℕ) where
    pub decode_1 : get_utf8_decoding_function 1 (utf8_glyph c x y z) ≡ some c
    unfolding get_utf8_decoding_function utf8_one_byte_decode
    decode_1 = ground arith

    pub decode_2 :
        c < 0x800
        → get_utf8_decoding_function 2 (utf8_glyph (0xc0 + c / 64) (0x80 + c % 64) x y) ≡ some c
    unfolding get_utf8_decoding_function
    decode_2 h = rw two_byte_decode_lem (ground arith)

    pub decode_3 :
        c < 0x10000
        → get_utf8_decoding_function 3
            (utf8_glyph (0xe0 + c / 4096) (0x80 + c / 64 % 64) (0x80 + c % 64) x)
          ≡ some c
    unfolding get_utf8_decoding_function
    decode_3 h = rw three_byte_decode_lem (ground arith)

  pub decode_4 :
      c < 0x200000
      → get_utf8_decoding_function 4 (
          utf8_glyph
            (0xf0 + c / 262144)
            (0x80 + c / 4096 % 64)
            (0x80 + c / 64 % 64)
            (0x80 + c % 64))
        ≡ some c
  unfolding get_utf8_decoding_function
  decode_4 h = rw four_byte_decode_lem (ground arith)

pub one-le-length-utf8_units : (c : ℕ) → 1 ≤ length (utf8_units c)
unfolding utf8_units
one-le-length-utf8_units c = ground arith
