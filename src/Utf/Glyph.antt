-- ===== src/Utf/Glyph.antt =====
-- hw2/include/utf.h and hw2/src/wrappers.c: bytes with their bit fields, the two kinds of glyph, and
-- the helpers on memory. The build is the one for a little-endian machine, as on x86-64, where the
-- first bit field of a union stands in the low bits.
use system_fundamentals_c_pr.Base.{
  ℕ, zero, suc, ◌+◌, ◌*◌, ◌/◌, ◌%◌, ◌-◌, List, [], ◌∷◌, get_or, set, ltb, if◌then◌else◌, bit_or,
}

-- The bit fields of `utf8_byte_t`, a number below 256.
abbrev pub top_two_remaining : ℕ → ℕ
top_two_remaining b = b % 64

abbrev pub top_three_remaining : ℕ → ℕ
top_three_remaining b = b % 32

abbrev pub top_four_remaining : ℕ → ℕ
top_four_remaining b = b % 16

abbrev pub top_five_remaining : ℕ → ℕ
top_five_remaining b = b % 8

abbrev pub top_three_bits : ℕ → ℕ
top_three_bits b = b / 32

abbrev pub top_four_bits : ℕ → ℕ
top_four_bits b = b / 16

abbrev pub top_five_bits : ℕ → ℕ
top_five_bits b = b / 8

-- `utf8_glyph_t`: its four bytes, of which a prefix counts.
pub record Utf8Glyph : Type 0 where
  pub byte_0 : ℕ
  pub byte_1 : ℕ
  pub byte_2 : ℕ
  pub byte_3 : ℕ

abbrev pub utf8_glyph : ℕ → ℕ → ℕ → ℕ → Utf8Glyph
utf8_glyph a b c d = record { byte_0 = a; byte_1 = b; byte_2 = c; byte_3 = d }

-- `glyph.bytes[i].byte = v`; there is no fifth byte.
abbrev pub set_byte : Utf8Glyph → ℕ → ℕ → Utf8Glyph
set_byte g zero v = record g { byte_0 = v }
set_byte g (suc zero) v = record g { byte_1 = v }
set_byte g (suc (suc zero)) v = record g { byte_2 = v }
set_byte g (suc (suc (suc zero))) v = record g { byte_3 = v }
set_byte g (suc (suc (suc (suc i)))) v = g

abbrev pub byte_at : Utf8Glyph → ℕ → ℕ
byte_at g zero = g.byte_0
byte_at g (suc zero) = g.byte_1
byte_at g (suc (suc zero)) = g.byte_2
byte_at g (suc (suc (suc i))) = g.byte_3

-- `glyph.bytes[i].byte |= buf`
abbrev pub or_byte : Utf8Glyph → ℕ → ℕ → Utf8Glyph
or_byte g i buf = set_byte g i (bit_or (byte_at g i) buf)

-- The bytes of a glyph in memory.
abbrev pub utf8_glyph_bytes : Utf8Glyph → List ℕ
utf8_glyph_bytes g = g.byte_0 ∷ g.byte_1 ∷ g.byte_2 ∷ g.byte_3 ∷ []

-- `utf16_glyph_t`: two numbers of 16 bits, as the machine reads them.
pub record Utf16Glyph : Type 0 where
  pub upper_bytes : ℕ
  pub lower_bytes : ℕ

abbrev pub utf16_glyph : ℕ → ℕ → Utf16Glyph
utf16_glyph u l = record { upper_bytes = u; lower_bytes = l }

-- The two bytes of a number of 16 bits in memory, the low one first, and back.
abbrev pub bytes_16 : ℕ → List ℕ
bytes_16 x = (x % 256) ∷ (x / 256) ∷ []

abbrev pub from_bytes_16 : List ℕ → ℕ
from_bytes_16 bs = get_or bs 0 0 + get_or bs 1 0 * 256

abbrev pub utf16_glyph_bytes : Utf16Glyph → List ℕ
utf16_glyph_bytes g =
    (g.upper_bytes % 256)
    ∷ (g.upper_bytes / 256)
    ∷ (g.lower_bytes % 256)
    ∷ (g.lower_bytes / 256)
    ∷ []

-- The loop of `reverse_bytes`, which swaps the bytes at `i` and `j` while `j < i`.
reverse_loop : ℕ → List ℕ → ℕ → ℕ → List ℕ
reverse_loop zero ptr i j = ptr
reverse_loop (suc fuel) ptr i j =
    let swapped = set (set ptr i (get_or ptr j 0)) j (get_or ptr i 0) in
    let rest = reverse_loop fuel swapped (i - 1) (j + 1) in if ltb j i then rest else ptr

-- Every round brings `i` and `j` closer, so `count` rounds are enough.
unfoldable pub reverse_bytes : List ℕ → ℕ → List ℕ
unfolding reverse_loop
reverse_bytes bufp count = reverse_loop count bufp (count - 1) 0

-- `reverse_bytes(&x, 2)` on a variable of 16 bits.
unfoldable pub reverse_bytes_16 : ℕ → ℕ
unfolding reverse_bytes
reverse_bytes_16 x = from_bytes_16 (reverse_bytes (bytes_16 x) 2)
