-- ===== src/Utf/Tests.antt =====
-- hw2: the theorems at concrete files, and runs of the conversions.
use system_fundamentals_c_pr.Base.{
  All, ℕ, ◌<◌, ◌≤◌, ◌≡◌, ◌↔◌, refl, Bool, true, false, none, some, List, [], ◌∷◌, take, ℤ, pos,
  arith,
}
use system_fundamentals_c_pr.Utf.Glyph.{
  Utf8Glyph, utf8_glyph, utf8_glyph_bytes, Utf16Glyph, utf16_glyph, reverse_bytes,
}
use system_fundamentals_c_pr.Utf.Files.{InFile, returns, run, read_to_bigendian}
use system_fundamentals_c_pr.Utf.Spec.{utf8_units, utf16_units, little_endian}
use system_fundamentals_c_pr.Utf.Utf8.{
  utf8_three_byte_decode, code_point_to_utf8_glyph, remaining_utf8_bytes,
  get_utf8_decoding_function, utf8_glyph_size_of_code_point,
}
use system_fundamentals_c_pr.Utf.Utf8.RoundTrip.{
  code_point_to_utf8_glyph-Encodes, Encodes, utf8_units-decoding,
}
use system_fundamentals_c_pr.Utf.Utf16.{
  code_point_to_utf16le_glyph, is_lower_surrogate_pair, utf16_glyph_to_code_point,
}
use system_fundamentals_c_pr.Utf.Utf16.Surrogates.{utf16_glyph_to_code_point-pair}
use system_fundamentals_c_pr.Utf.Convert.{
  Format, reversed_bom, from_utf8_round, from_utf8_to_utf16le, from_utf8_to_utf16be,
  from_utf16le_to_utf8, from_utf16be_to_utf8, from_utf16le_to_utf16be, from_utf16be_to_utf16le,
}
use system_fundamentals_c_pr.Utf.Convert.OfUtf8.{
  from_utf8_to_utf16le-utf8_text, from_utf8_to_utf16be-utf8_text,
}
use system_fundamentals_c_pr.Utf.Convert.OfUtf16.{
  IsTranslated, from_utf16le_to_utf8-utf16le_text, from_utf16be_to_utf8-utf16be_text,
}
use system_fundamentals_c_pr.Utf.Convert.Swap.{
  from_utf16le_to_utf16be-little_endian, from_utf16be_to_utf16le-big_endian,
}
use system_fundamentals_c_pr.Utf.Convert.Ends.{from_utf8-returns}
use system_fundamentals_c_pr.Utf.Program.{
  Stack, get_encoding_function, check_bom, main, success, determine_format,
}
use system_fundamentals_c_pr.Utf.Program.Laws.{
  check_bom-marked, main-utf8_text, main-utf16_text, get_encoding_function-converter,
}
use Prim.Native.String.{String}
use system_fundamentals_c_pr.Utf.Args.{parse_args, usage, compares_null}
use system_fundamentals_c_pr.Utf.Args.Places.{chosen, parse_args-places, parse_args-one_file}

-- Locals that hold what was left there.
abbrev dirty : Utf8Glyph
dirty = utf8_glyph 1 2 3 4

abbrev dirty_16 : Utf16Glyph
dirty_16 = utf16_glyph 7 0xd900

abbrev file : List ℕ → InFile
file rest = record { rest = rest; failing = false }

-- U+0041, U+00E9, U+20AC, U+1F600
abbrev sample : List ℕ
sample = 0x41 ∷ 0xe9 ∷ 0x20ac ∷ 0x1f600 ∷ []

abbrev sample_utf8 : List ℕ
sample_utf8 = 0x41 ∷ 0xc3 ∷ 0xa9 ∷ 0xe2 ∷ 0x82 ∷ 0xac ∷ 0xf0 ∷ 0x9f ∷ 0x98 ∷ 0x80 ∷ []

abbrev sample_le : List ℕ
sample_le = 0x41 ∷ 0 ∷ 0xe9 ∷ 0 ∷ 0xac ∷ 0x20 ∷ 0x3d ∷ 0xd8 ∷ 0 ∷ 0xde ∷ []

abbrev sample_be : List ℕ
sample_be = 0 ∷ 0x41 ∷ 0 ∷ 0xe9 ∷ 0x20 ∷ 0xac ∷ 0xd8 ∷ 0x3d ∷ 0xde ∷ 0 ∷ []

from_utf8_to_utf16le_example :
    from_utf8_to_utf16le dirty (file sample_utf8) ≡ returns (pos 0) (0xff ∷ 0xfe ∷ sample_le)
unfolding utf8_units utf16_units
from_utf8_to_utf16le_example = from_utf8_to_utf16le-utf8_text dirty false sample (omega arith)

from_utf8_to_utf16be_test :
    from_utf8_to_utf16be dirty (file sample_utf8) ≡ returns (pos 0) (0xfe ∷ 0xff ∷ sample_be)
unfolding utf8_units utf16_units
from_utf8_to_utf16be_test = from_utf8_to_utf16be-utf8_text dirty false sample (omega arith)

sample-IsTranslated : All IsTranslated sample
sample-IsTranslated = omega arith

from_utf16le_to_utf8_example :
    from_utf16le_to_utf8 dirty_16 dirty (file (0xff ∷ 0xfe ∷ sample_le))
    ≡ returns (pos 0) sample_utf8
unfolding utf8_units utf16_units
from_utf16le_to_utf8_example =
    from_utf16le_to_utf8-utf16le_text dirty_16 dirty false sample sample-IsTranslated

from_utf16be_to_utf8_test :
    from_utf16be_to_utf8 dirty_16 dirty (file (0xfe ∷ 0xff ∷ sample_be))
    ≡ returns (pos 0) sample_utf8
unfolding utf8_units utf16_units
from_utf16be_to_utf8_test =
    from_utf16be_to_utf8-utf16be_text dirty_16 dirty false sample sample-IsTranslated

dirty_low : is_lower_surrogate_pair dirty_16 ≡ false
unfolding is_lower_surrogate_pair
dirty_low = refl

abbrev units : List ℕ
units = 0xfeff ∷ 0x41 ∷ 0xd83d ∷ 0xde00 ∷ []

from_utf16le_to_utf16be_test :
    from_utf16le_to_utf16be dirty_16 (file (little_endian units))
    ≡ returns (pos 0) (0xfe ∷ 0xff ∷ 0xfe ∷ 0xff ∷ 0 ∷ 0x41 ∷ 0xd8 ∷ 0x3d ∷ 0xde ∷ 0 ∷ [])
from_utf16le_to_utf16be_test =
    from_utf16le_to_utf16be-little_endian dirty_16 dirty_low false units (omega arith)

from_utf16be_to_utf16le_test :
    from_utf16be_to_utf16le dirty_16 [] (file (0 ∷ 0x41 ∷ 0 ∷ 0x42 ∷ []))
    ≡ returns (pos 0) (0 ∷ 0xff ∷ 0 ∷ 0xff ∷ 0xfe ∷ 0 ∷ 0 ∷ 0xff ∷ 0xfe ∷ 0 ∷ [])
from_utf16be_to_utf16le_test =
    from_utf16be_to_utf16le-big_endian dirty_16 dirty_low false (0x41 ∷ 0x42 ∷ []) []

Encodes_example :
    (g : Utf8Glyph) × (n : ℕ) × (code_point_to_utf8_glyph dirty 0x20ac ≡ (some g, n))
    × Encodes 0x20ac g n
Encodes_example = code_point_to_utf8_glyph-Encodes dirty 0x20ac (omega arith)

decoding_test : take 3 (utf8_glyph_bytes (utf8_glyph 0xe2 0x82 0xac 9)) ≡ utf8_units 0x20ac
unfolding remaining_utf8_bytes get_utf8_decoding_function utf8_glyph_size_of_code_point
    utf8_three_byte_decode
decoding_test =
    utf8_units-decoding (utf8_glyph 0xe2 0x82 0xac 9) 2 0x20ac refl (omega arith) refl refl

pair_test :
    (utf16_glyph_to_code_point (utf16_glyph 0xd83d 0xde00) ≡ 0x1f600)
    ↔ ((0x10400 ≤ 0x1f600) × (0x1f600 < 0x10fc00))
pair_test = utf16_glyph_to_code_point-pair 0x1f600 (omega arith) (omega arith)

abbrev stack : Stack
stack = record { utf8_buf = dirty; utf16_buf = dirty_16; beyond = [] }

returns_example :
    ((ret : ℤ) × (out : List ℕ) × (from_utf8_to_utf16le dirty (file (0xf0 ∷ 0x80 ∷ []))
        ≡ returns ret out))
    × ((ret : ℤ) × (out : List ℕ) × (from_utf8_to_utf16be dirty (file (0xf0 ∷ 0x80 ∷ []))
          ≡ returns ret out))
returns_example = from_utf8-returns dirty (file (0xf0 ∷ 0x80 ∷ []))

converter_test :
    (get_encoding_function Format.utf8 (some Format.utf16le)
      ≡ some (λ s. from_utf8_to_utf16le s.utf8_buf))
    × (get_encoding_function Format.utf8 none ≡ none)
converter_test = get_encoding_function-converter Format.utf8 Format.utf16le

marked_test :
    (check_bom (file (0xff ∷ 0xfe ∷ 0x41 ∷ 0 ∷ [])) ≡ some (Format.utf16le, 2))
    × (check_bom (file (0xff ∷ 0xfe ∷ [])) ≡ none)
    × (check_bom (file (0xff ∷ [])) ≡ none)
    × (check_bom (file []) ≡ none)
marked_test =
    check_bom-marked 0xff 0xfe 0x41 (omega arith) (omega arith) (omega arith) (0 ∷ []) false

main_of_utf8_example :
    (main (some Format.utf16le) stack (file (0xef ∷ 0xbb ∷ 0xbf ∷ sample_utf8))
      ≡ success (0xff ∷ 0xfe ∷ 0xff ∷ 0xfe ∷ sample_le))
    × (main (some Format.utf16be) stack (file (0xef ∷ 0xbb ∷ 0xbf ∷ sample_utf8))
        ≡ success (0xfe ∷ 0xff ∷ 0xfe ∷ 0xff ∷ sample_be))
unfolding utf8_units utf16_units
main_of_utf8_example = main-utf8_text stack false sample (omega arith)

main_of_utf16_example :
    (main (some Format.utf8) stack (file (0xff ∷ 0xfe ∷ sample_le)) ≡ success sample_utf8)
    × (main (some Format.utf8) stack (file (0xfe ∷ 0xff ∷ sample_be)) ≡ success sample_utf8)
unfolding utf8_units utf16_units
main_of_utf16_example =
    main-utf16_text stack false 0x41 (0xe9 ∷ 0x20ac ∷ 0x1f600 ∷ []) sample-IsTranslated

-- A sequence that the end of the file cuts short is filled up with what the buffer held.
cut_short :
    from_utf8_to_utf16le dirty (file (0xe2 ∷ 0x82 ∷ []))
    ≡ returns (pos 0) (0xff ∷ 0xfe ∷ 0x83 ∷ 0x20 ∷ [])
unfolding from_utf8_to_utf16le run from_utf8_round read_to_bigendian remaining_utf8_bytes
    get_utf8_decoding_function utf8_three_byte_decode code_point_to_utf16le_glyph reversed_bom
cut_short = refl

swapped_bytes : reverse_bytes (1 ∷ 2 ∷ 3 ∷ 4 ∷ 5 ∷ []) 4 ≡ 4 ∷ 3 ∷ 2 ∷ 1 ∷ 5 ∷ []
unfolding reverse_bytes
swapped_bytes = refl

formats : determine_format "UTF16BE" ≡ some Format.utf16be
unfolding determine_format
formats = refl

-- No output file is there.
abbrev absent : String → Bool
absent name = false

parse_args-places_example :
    (parse_args absent absent (λ name. none) ("-e" ∷ "UTF8" ∷ "a" ∷ "b" ∷ [])
      ≡ chosen (some Format.utf8) "a" "b")
    × (parse_args absent absent (λ name. none) ("a" ∷ "-e" ∷ "UTF8" ∷ "b" ∷ [])
        ≡ chosen (some Format.utf8) "a" "b")
    × (parse_args absent absent (λ name. none) ("a" ∷ "b" ∷ "-e" ∷ "UTF8" ∷ [])
        ≡ chosen none "a" "b")
    × (parse_args absent absent (λ name. none) ("a" ∷ "b" ∷ []) ≡ chosen none "a" "b")
unfolding determine_format
parse_args-places_example =
    parse_args-places absent absent (λ name. none) "a" "b" "UTF8" Format.utf8 refl refl refl refl
      refl

parse_args-one_file_example :
    (parse_args absent absent (λ name. none) ("a" ∷ []) ≡ compares_null)
    × (parse_args absent absent (λ name. none) ("-e" ∷ "UTF16LE" ∷ "a" ∷ []) ≡ compares_null)
    × (parse_args absent absent (λ name. none) ("a" ∷ "-e" ∷ "UTF16LE" ∷ []) ≡ compares_null)
unfolding determine_format
parse_args-one_file_example =
    parse_args-one_file absent absent (λ name. none) "a" "UTF16LE" Format.utf16le refl refl

-- Two names of one file that is there are refused.
same_file : parse_args (λ name. true) (λ name. true) (λ name. some 7) ("a" ∷ "b" ∷ []) ≡ usage
unfolding parse_args
same_file = refl
