-- ===== src/Utf/Utf8/RoundTrip.antt =====
-- The codecs of hw2/src/utf8.c against arithmetic.
use native.Mathlib.Decide.{dec_lt}
use native.Mathlib.Nat.{mod-eq_of_lt, mod-lt, one-le-pow}
use system_fundamentals_c_pr.Base.{
  ℕ, zero, suc, ◌+◌, ◌-◌, ◌*◌, ◌/◌, ◌%◌, ◌^◌, ◌≤◌, ◌<◌, ◌≡◌, some, bit_and, bit_or, arith,
  bit_or_add, bit_and_mask, take,
}
use system_fundamentals_c_pr.Utf.Glyph.{Utf8Glyph, utf8_glyph, utf8_glyph_bytes}
use system_fundamentals_c_pr.Utf.Spec.{utf8_units}
use system_fundamentals_c_pr.Utf.Utf8.{
  utf8_one_byte_encode, utf8_two_byte_encode, utf8_three_byte_encode, utf8_four_byte_encode,
  utf8_one_byte_decode, utf8_two_byte_decode, utf8_three_byte_decode, utf8_four_byte_decode,
  get_utf8_encoding_function, get_utf8_decoding_function, utf8_glyph_size_of_code_point,
  code_point_to_utf8_glyph, remaining_utf8_bytes,
}

zero-bit_or : (r : ℕ) → r < 2 ^ 32 → bit_or 0 r ≡ r
zero-bit_or r h = omega (arith, bit_or_add 32 0 r)

below : (k t x : ℕ) → t * 2 ^ k + 2 ^ k ≤ 256 → t * 2 ^ k + x % 2 ^ k < 256
below k t x h = omega (arith, mod-lt x (one-le-pow k 2 (omega arith)))

-- `t` on top of the `k` low bits of `x`, with nothing else set.
under_mark :
    (k t x : ℕ)
    → t * 2 ^ k + 2 ^ k ≤ 256
    → bit_or 0 (bit_or (t * 2 ^ k) (bit_and x (2 ^ k - 1)) % 256) ≡ t * 2 ^ k + x % 2 ^ k
under_mark k t x h =
    rw
      (
        bit_and_mask k x,
        bit_or_add k t (x % 2 ^ k) (mod-lt x (one-le-pow k 2 (omega arith))),
        mod-eq_of_lt (below k t x h),
      )
      (zero-bit_or _ (omega (arith, below k t x h)))

continuation : (x : ℕ) → bit_or 0 (bit_or 0x80 (bit_and x 0x3f) % 256) ≡ 0x80 + x % 64
continuation x = under_mark 6 2 x (omega arith)

two_byte_lem :
    (c : ℕ) → utf8_two_byte_encode c ≡ utf8_glyph (0xc0 + c / 64 % 32) (0x80 + c % 64) 0 0
unfolding utf8_two_byte_encode
two_byte_lem c = rw (under_mark 5 6 (c / 64) (omega arith), continuation c)

three_byte_lem :
    (c : ℕ)
    → utf8_three_byte_encode c
      ≡ utf8_glyph (0xe0 + c / 64 / 64 % 16) (0x80 + c / 64 % 64) (0x80 + c % 64) 0
unfolding utf8_three_byte_encode
three_byte_lem c =
    rw (under_mark 4 14 (c / 64 / 64) (omega arith), continuation (c / 64), continuation c)

four_byte_lem :
    (c : ℕ)
    → utf8_four_byte_encode c
      ≡ utf8_glyph
          (0xf0 + c / 64 / 64 / 64 % 8)
          (0x80 + c / 64 / 64 % 64)
          (0x80 + c / 64 % 64)
          (0x80 + c % 64)
unfolding utf8_four_byte_encode
four_byte_lem c = rw (
  under_mark 3 30 (c / 64 / 64 / 64) (omega arith),
  continuation (c / 64 / 64),
  continuation (c / 64),
  continuation c,
)

-- Fields of six bits, joined from the top.
join_2 : (a b : ℕ) → a < 64 → b < 64 → bit_or (bit_or 0 (a * 64)) b ≡ a * 64 + b
join_2 a b ha hb = rw (zero-bit_or (a * 64) (omega arith)) (bit_or_add 6 a b hb)

join_3 :
    (a b c : ℕ)
    → a < 64
    → b < 64
    → c < 64
    → bit_or (bit_or (bit_or 0 (a * 4096)) (b * 64)) c ≡ a * 4096 + b * 64 + c
join_3 a b c ha hb hc =
    rw (zero-bit_or (a * 4096) (omega arith), bit_or_add 12 a (b * 64) (omega arith))
      (ground (arith, bit_or_add 6 (a * 64 + b) c))

join_4 :
    (a b c d : ℕ)
    → a < 64
    → b < 64
    → c < 64
    → d < 64
    → bit_or (bit_or (bit_or (bit_or 0 (a * 262144)) (b * 4096)) (c * 64)) d
      ≡ a * 262144 + b * 4096 + c * 64 + d
join_4 a b c d ha hb hc hd =
    rw (zero-bit_or (a * 262144) (omega arith), bit_or_add 18 a (b * 4096) (omega arith))
      (ground (arith, bit_or_add 12 (a * 64 + b) (c * 64), bit_or_add 6 (a * 4096 + b * 64 + c) d))

pub two_byte_decode_lem :
    (g : Utf8Glyph) → utf8_two_byte_decode g ≡ g.byte_0 % 32 * 64 + g.byte_1 % 64
unfolding utf8_two_byte_decode
two_byte_decode_lem g = join_2 (g.byte_0 % 32) (g.byte_1 % 64) (omega arith) (omega arith)

pub three_byte_decode_lem :
    (g : Utf8Glyph)
    → utf8_three_byte_decode g ≡ g.byte_0 % 16 * 4096 + g.byte_1 % 64 * 64 + g.byte_2 % 64
unfolding utf8_three_byte_decode
three_byte_decode_lem g =
    join_3 (g.byte_0 % 16) (g.byte_1 % 64) (g.byte_2 % 64) (omega arith) (omega arith) (omega arith)

pub four_byte_decode_lem :
    (g : Utf8Glyph)
    → utf8_four_byte_decode g
      ≡ g.byte_0 % 8 * 262144 + g.byte_1 % 64 * 4096 + g.byte_2 % 64 * 64 + g.byte_3 % 64
unfolding utf8_four_byte_decode
four_byte_decode_lem g =
    join_4 (g.byte_0 % 8) (g.byte_1 % 64) (g.byte_2 % 64) (g.byte_3 % 64) (omega arith)
      (omega arith) (omega arith) (omega arith)

-- A glyph whose first `n` bytes are the encoding of `c`.
pub record Encodes (c : ℕ) (g : Utf8Glyph) (n : ℕ) : Type 0 where
  pub size : utf8_glyph_size_of_code_point c ≡ n
  pub bytes : take n (utf8_glyph_bytes g) ≡ utf8_units c
  pub count : remaining_utf8_bytes g.byte_0 + 1 ≡ n
  pub decoded : get_utf8_decoding_function n g ≡ some c

one_byte : (stack : Utf8Glyph) (c : ℕ) → c < 0x80 → Encodes c (utf8_one_byte_encode stack c) 1
unfolding utf8_one_byte_encode utf8_glyph_size_of_code_point utf8_units remaining_utf8_bytes
    get_utf8_decoding_function utf8_one_byte_decode
one_byte stack c h = record {
  size = ground arith;
  bytes = ground arith;
  count = ground arith;
  decoded = ground arith;
}

two_bytes : (c : ℕ) → 0x80 ≤ c → c < 0x800 → Encodes c (utf8_two_byte_encode c) 2
unfolding utf8_glyph_size_of_code_point utf8_units remaining_utf8_bytes get_utf8_decoding_function
two_bytes c l h = rw (two_byte_lem c) (record {
  size = ground arith;
  bytes = ground arith;
  count = ground arith;
  decoded = rw two_byte_decode_lem (ground arith);
})

three_bytes : (c : ℕ) → 0x800 ≤ c → c < 0x10000 → Encodes c (utf8_three_byte_encode c) 3
unfolding utf8_glyph_size_of_code_point utf8_units remaining_utf8_bytes get_utf8_decoding_function
three_bytes c l h = rw (three_byte_lem c) (record {
  size = ground arith;
  bytes = ground arith;
  count = ground arith;
  decoded = rw three_byte_decode_lem (ground arith);
})

four_bytes : (c : ℕ) → 0x10000 ≤ c → c < 0x200000 → Encodes c (utf8_four_byte_encode c) 4
unfolding utf8_glyph_size_of_code_point utf8_units remaining_utf8_bytes get_utf8_decoding_function
four_bytes c l h = rw (four_byte_lem c) (record {
  size = ground arith;
  bytes = ground arith;
  count = ground arith;
  decoded = rw four_byte_decode_lem (ground arith);
})

-- Every code point of 21 bits is encoded in the number of bytes that RFC 3629 gives, as those bytes,
-- whatever the stack held; the first byte tells the decoder how many follow, and it returns the code
-- point.
pub code_point_to_utf8_glyph-Encodes :
    (stack : Utf8Glyph) (c : ℕ)
    → c < 0x200000
    → (g : Utf8Glyph) × (n : ℕ) × (code_point_to_utf8_glyph stack c ≡ (some g, n)) × Encodes c g n
unfolding code_point_to_utf8_glyph get_utf8_encoding_function
code_point_to_utf8_glyph-Encodes stack c h = elim (dec_lt c 0x80) [
  | yes a ↦ let e = one_byte stack c a in (utf8_one_byte_encode stack c, 1, rw e.size, e)
  | no a ↦ elim (dec_lt c 0x800) [
    | yes b ↦ let e = two_bytes c (omega arith) b in (utf8_two_byte_encode c, 2, rw e.size, e)
    | no b ↦ elim (dec_lt c 0x10000) [
      | yes d ↦ let e = three_bytes c (omega arith) d in (utf8_three_byte_encode c, 3, rw e.size, e)
      | no d ↦ let e = four_bytes c (omega arith) h in (utf8_four_byte_encode c, 4, rw e.size, e)
    ]
  ]
]

-- A continuation byte.
abbrev pub IsContinuation : ℕ → Type 0
IsContinuation b = (0x80 ≤ b) × (b < 0xc0)

-- The bytes after the first that count.
abbrev pub Continues : ℕ → Utf8Glyph → Type 0
Continues zero g = g.byte_0 < 0x80
Continues (suc zero) g = IsContinuation g.byte_1
Continues (suc (suc zero)) g = IsContinuation g.byte_1 × IsContinuation g.byte_2
Continues (suc (suc (suc n))) g =
    (g.byte_0 < 256) × IsContinuation g.byte_1 × IsContinuation g.byte_2 × IsContinuation g.byte_3

-- Where the bytes that follow the first are continuation bytes and the decoder's result is no
-- shorter in the encoding, the bytes of the glyph are the encoding of that result.
pub utf8_units-decoding :
    (g : Utf8Glyph) (n c : ℕ)
    → remaining_utf8_bytes g.byte_0 ≡ n
    → Continues n g
    → get_utf8_decoding_function (suc n) g ≡ some c
    → utf8_glyph_size_of_code_point c ≡ suc n
    → take (suc n) (utf8_glyph_bytes g) ≡ utf8_units c
unfolding remaining_utf8_bytes get_utf8_decoding_function utf8_glyph_size_of_code_point utf8_units
    utf8_one_byte_decode
utf8_units-decoding g zero c r k d s = ground arith
utf8_units-decoding g (suc zero) c r k d s = ground (arith, two_byte_decode_lem g)
utf8_units-decoding g (suc (suc zero)) c r k d s = ground (arith, three_byte_decode_lem g)
utf8_units-decoding g (suc (suc (suc zero))) c r k d s = ground (arith, four_byte_decode_lem g)
utf8_units-decoding g (suc (suc (suc (suc n)))) c r k d s = ground arith
