-- ===== src/Utf/Utf16.antt =====
-- hw2/src/utf.c, utf16le.c and utf16be.c: surrogates and the codecs for one code point.
pub mod Surrogates
use system_fundamentals_c_pr.Base.{
  ℕ, ◌+◌, ◌-◌, ◌*◌, ◌/◌, ◌%◌, ◌^◌, Bool, not, ◌&&◌, bit_and, bit_or, ltb, leb, if◌then◌else◌,
}
use system_fundamentals_c_pr.Utf.Glyph.{Utf16Glyph, utf16_glyph, reverse_bytes_16}

unfoldable pub is_upper_surrogate_pair : Utf16Glyph → Bool
is_upper_surrogate_pair glyph = ltb 0xd800 glyph.upper_bytes && ltb glyph.upper_bytes 0xdbff

unfoldable pub is_lower_surrogate_pair : Utf16Glyph → Bool
is_lower_surrogate_pair glyph = ltb 0xdc00 glyph.lower_bytes && ltb glyph.lower_bytes 0xdfff

unfoldable pub is_code_point_surrogate : ℕ → Bool
is_code_point_surrogate code_point = leb 0x10000 code_point

-- The operands are of type `int`, here its patterns of 32 bits: `lower_bytes - 0xDC00` may be negative.
unfoldable pub utf16_glyph_to_code_point : Utf16Glyph → ℕ
unfolding is_upper_surrogate_pair
utf16_glyph_to_code_point glyph =
    if not (is_upper_surrogate_pair glyph)
    then glyph.lower_bytes
    else (bit_or ((glyph.upper_bytes - 0xd800) * 2 ^ 10)
          ((glyph.lower_bytes + 2 ^ 32 - 0xdc00) % 2 ^ 32)
        + 0x10000)
      % 2 ^ 32

-- The glyph and `*size_of_glyph`. The fields are of 16 bits, which cuts the values stored.
unfoldable pub code_point_to_utf16le_glyph : ℕ → Utf16Glyph × ℕ
unfolding is_code_point_surrogate
code_point_to_utf16le_glyph code_point =
    if is_code_point_surrogate code_point
    then (let rest = code_point - 0x10000 in
        (
          utf16_glyph ((rest / 2 ^ 10 + 0xd800) % 2 ^ 16) ((bit_and rest 0x3ff + 0xdc00) % 2 ^ 16),
          4,
        ))
    else (utf16_glyph (bit_or 0 code_point % 2 ^ 16) 0, 2)

unfoldable pub code_point_to_utf16be_glyph : ℕ → Utf16Glyph × ℕ
unfolding is_code_point_surrogate
code_point_to_utf16be_glyph code_point =
    if is_code_point_surrogate code_point
    then (let rest = code_point - 0x10000 in
        (
          utf16_glyph (reverse_bytes_16 ((rest / 2 ^ 10 + 0xd800) % 2 ^ 16))
              (reverse_bytes_16 ((bit_and rest 0x3ff + 0xdc00) % 2 ^ 16)),
          4,
        ))
    else (utf16_glyph (reverse_bytes_16 (bit_or 0 code_point % 2 ^ 16)) 0, 2)
