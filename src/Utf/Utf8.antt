-- ===== src/Utf/Utf8.antt =====
-- hw2/src/utf8.c: the codecs for one code point.
pub mod RoundTrip
pub mod Units
use system_fundamentals_c_pr.Base.{
  ℕ, zero, suc, ◌+◌, ◌*◌, ◌/◌, ◌%◌, ◌^◌, Option, none, some, bit_and, bit_or, leb, ◌==◌,
  if◌then◌else◌,
}
use system_fundamentals_c_pr.Utf.Glyph.{
  Utf8Glyph, utf8_glyph, or_byte, top_two_remaining, top_three_remaining, top_four_remaining,
  top_five_remaining, top_three_bits, top_four_bits, top_five_bits,
}

unfoldable pub utf8_glyph_size_of_code_point : ℕ → ℕ
utf8_glyph_size_of_code_point code_point =
    if leb code_point 0x7f
    then 1
    else if leb code_point 0x7ff
    then 2
    else if leb code_point 0xffff
    then 3
    else 4

-- `memeset(&ret, 0, sizeof ret)`
abbrev pub zero_glyph : Utf8Glyph
zero_glyph = utf8_glyph 0 0 0 0

-- What the stack held is left in the bytes that the function does not set.
unfoldable pub utf8_one_byte_encode : Utf8Glyph → ℕ → Utf8Glyph
utf8_one_byte_encode stack code_point = record stack { byte_0 = code_point % 256 }

unfoldable pub utf8_two_byte_encode : ℕ → Utf8Glyph
utf8_two_byte_encode code_point =
    let ret = or_byte zero_glyph 1 (bit_or 0x80 (bit_and code_point 0x3f) % 256) in
    or_byte ret 0 (bit_or 0xc0 (bit_and (code_point / 2 ^ 6) 0x1f) % 256)

-- `for (i = n; i > 0; i--, code_point >>= 6)`: the continuation bytes, the last one first. The
-- second component is what is left of the code point.
abbrev pub continuation_bytes : ℕ → ℕ → Utf8Glyph → Utf8Glyph
continuation_bytes zero code_point ret = ret
continuation_bytes (suc i) code_point ret =
    continuation_bytes i (code_point / 2 ^ 6)
      (or_byte ret (suc i) (bit_or 0x80 (bit_and code_point 0x3f) % 256))

-- `code_point` after `n` rounds of `code_point >>= 6`.
abbrev pub shifted : ℕ → ℕ → ℕ
shifted zero code_point = code_point
shifted (suc i) code_point = shifted i (code_point / 2 ^ 6)

unfoldable pub utf8_three_byte_encode : ℕ → Utf8Glyph
utf8_three_byte_encode code_point =
    let ret = continuation_bytes 2 code_point zero_glyph in
    or_byte ret 0 (bit_or 0xe0 (bit_and (shifted 2 code_point) 0x0f) % 256)

unfoldable pub utf8_four_byte_encode : ℕ → Utf8Glyph
utf8_four_byte_encode code_point =
    let ret = continuation_bytes 3 code_point zero_glyph in
    or_byte ret 0 (bit_or 0xf0 (bit_and (shifted 3 code_point) 0x07) % 256)

-- The function that `get_utf8_encoding_function` points to, called; `none` is a call of NULL.
unfoldable pub get_utf8_encoding_function : ℕ → Utf8Glyph → ℕ → Option Utf8Glyph
get_utf8_encoding_function (suc zero) stack code_point =
    some (utf8_one_byte_encode stack code_point)
get_utf8_encoding_function (suc (suc zero)) stack code_point =
    some (utf8_two_byte_encode code_point)
get_utf8_encoding_function (suc (suc (suc zero))) stack code_point =
    some (utf8_three_byte_encode code_point)
get_utf8_encoding_function (suc (suc (suc (suc zero)))) stack code_point =
    some (utf8_four_byte_encode code_point)
get_utf8_encoding_function _ stack code_point = none

-- The glyph and `*size_of_glyph`.
unfoldable pub code_point_to_utf8_glyph : Utf8Glyph → ℕ → Option Utf8Glyph × ℕ
code_point_to_utf8_glyph stack code_point =
    let size = utf8_glyph_size_of_code_point code_point in
    (get_utf8_encoding_function size stack code_point, size)

unfoldable pub remaining_utf8_bytes : ℕ → ℕ
remaining_utf8_bytes first_byte =
    if top_five_bits first_byte == 0x1e
    then 3
    else if top_four_bits first_byte == 0xe
    then 2
    else if top_three_bits first_byte == 0x6
    then 1
    else 0

unfoldable pub utf8_one_byte_decode : Utf8Glyph → ℕ
utf8_one_byte_decode glyph = glyph.byte_0

unfoldable pub utf8_two_byte_decode : Utf8Glyph → ℕ
utf8_two_byte_decode glyph =
    bit_or (bit_or 0 (top_three_remaining glyph.byte_0 * 2 ^ 6)) (top_two_remaining glyph.byte_1)

unfoldable pub utf8_three_byte_decode : Utf8Glyph → ℕ
utf8_three_byte_decode glyph =
    let ret = bit_or 0 (top_four_remaining glyph.byte_0 * 2 ^ 12) in
    let ret' = bit_or ret (top_two_remaining glyph.byte_1 * 2 ^ 6) in
    bit_or ret' (top_two_remaining glyph.byte_2)

unfoldable pub utf8_four_byte_decode : Utf8Glyph → ℕ
utf8_four_byte_decode glyph =
    let ret = bit_or 0 (top_five_remaining glyph.byte_0 * 2 ^ 18) in
    let ret' = bit_or ret (top_two_remaining glyph.byte_1 * 2 ^ 12) in
    let ret'' = bit_or ret' (top_two_remaining glyph.byte_2 * 2 ^ 6) in
    bit_or ret'' (top_two_remaining glyph.byte_3)

-- The function that `get_utf8_decoding_function` points to, called; `none` is a call of NULL.
unfoldable pub get_utf8_decoding_function : ℕ → Utf8Glyph → Option ℕ
get_utf8_decoding_function (suc zero) glyph = some (utf8_one_byte_decode glyph)
get_utf8_decoding_function (suc (suc zero)) glyph = some (utf8_two_byte_decode glyph)
get_utf8_decoding_function (suc (suc (suc zero))) glyph = some (utf8_three_byte_decode glyph)
get_utf8_decoding_function (suc (suc (suc (suc zero)))) glyph = some (utf8_four_byte_decode glyph)
get_utf8_decoding_function _ glyph = none
