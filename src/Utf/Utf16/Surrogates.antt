-- ===== src/Utf/Utf16/Surrogates.antt =====
-- The UTF-16 codecs of hw2 against arithmetic.
use system_fundamentals_c_pr.Base.{
  ℕ, ◌+◌, ◌-◌, ◌*◌, ◌/◌, ◌%◌, ◌^◌, ◌≤◌, ◌<◌, ◌≡◌, ◌↔◌, false, bit_or, arith, bit_or_add,
  bit_and_mask, take,
}
use system_fundamentals_c_pr.Utf.Glyph.{
  Utf16Glyph, utf16_glyph, utf16_glyph_bytes, reverse_bytes_16,
}
use system_fundamentals_c_pr.Utf.Spec.{utf16_units, little_endian, big_endian}
use system_fundamentals_c_pr.Utf.Utf16.{
  is_upper_surrogate_pair, utf16_glyph_to_code_point, code_point_to_utf16le_glyph,
  code_point_to_utf16be_glyph,
}

pub reverse_bytes_16_lem : (x : ℕ) → reverse_bytes_16 x ≡ x % 256 * 256 + x / 256
unfolding reverse_bytes_16
reverse_bytes_16_lem x = omega arith

zero-bit_or : (r : ℕ) → r < 2 ^ 32 → bit_or 0 r ≡ r
zero-bit_or r h = omega (arith, bit_or_add 32 0 r)

-- The bytes that a conversion writes for a code point are its UTF-16 with the low byte first.
pub le_glyph_bytes :
    (c : ℕ)
    → c < 0x110000
    → (let (g, n) = code_point_to_utf16le_glyph c in take n (utf16_glyph_bytes g))
      ≡ little_endian (utf16_units c)
unfolding code_point_to_utf16le_glyph utf16_units
le_glyph_bytes c h = ground (arith, bit_and_mask 10 (c - 0x10000), zero-bit_or c)

pub be_glyph_bytes :
    (c : ℕ)
    → c < 0x110000
    → (let (g, n) = code_point_to_utf16be_glyph c in take n (utf16_glyph_bytes g))
      ≡ big_endian (utf16_units c)
unfolding code_point_to_utf16be_glyph utf16_units
be_glyph_bytes c h = ground (
  arith,
  bit_and_mask 10 (c - 0x10000),
  zero-bit_or c,
  reverse_bytes_16_lem ((c - 0x10000) / 1024 + 0xd800),
  reverse_bytes_16_lem ((c - 0x10000) % 1024 + 0xdc00),
  reverse_bytes_16_lem c,
)

-- A pair of surrogates is decoded to its code point exactly if the upper one is neither the first
-- nor the last of its range, that is from U+10400 up to U+10FBFF.
pub utf16_glyph_to_code_point-pair :
    (c : ℕ)
    → 0x10000 ≤ c
    → c < 0x110000
    → (utf16_glyph_to_code_point
          (utf16_glyph (0xd800 + (c - 0x10000) / 1024) (0xdc00 + (c - 0x10000) % 1024))
        ≡ c)
      ↔ ((0x10400 ≤ c) × (c < 0x10fc00))
unfolding utf16_glyph_to_code_point
utf16_glyph_to_code_point-pair c l h = (λ e. ground (arith, fields), λ e. ground (arith, fields))
  where
    fields : bit_or ((c - 0x10000) / 1024 * 1024) ((c - 0x10000) % 1024) ≡ c - 0x10000
    fields = omega (arith, bit_or_add 10 ((c - 0x10000) / 1024) ((c - 0x10000) % 1024))

-- A unit in `lower_bytes` is taken as it is, unless `upper_bytes` looks like a surrogate.
pub utf16_glyph_to_code_point-single :
    (g : Utf16Glyph)
    → is_upper_surrogate_pair g ≡ false
    → utf16_glyph_to_code_point g ≡ g.lower_bytes
unfolding utf16_glyph_to_code_point
utf16_glyph_to_code_point-single g h = ground arith
