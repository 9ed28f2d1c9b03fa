-- ===== src/Utf/Program.antt =====
-- hw2/src/utf.c and main.c: the choice of a conversion, and what the program does with a file.
pub mod Laws
use text.Mathlib.Text.{◌==◌ as str_eq}
use Prim.Native.String.{String}
use system_fundamentals_c_pr.Base.{
  ℕ, ◌+◌, ◌*◌, ◌%◌, List, [], ◌∷◌, ◌++◌, Option, none, some, length, ltb, ◌==◌, if◌then◌else◌, ℤ,
  sub_ℕ, eq_ℤ, pos,
}
use system_fundamentals_c_pr.Utf.Glyph.{Utf8Glyph, Utf16Glyph, reverse_bytes}
use system_fundamentals_c_pr.Utf.Files.{
  InFile, got, failed, read_to_bigendian, store, Outcome, returns, crashes, out_of_fuel,
  ending_value,
}
use system_fundamentals_c_pr.Utf.Convert.{
  Format, format_value, from_utf8_to_utf16le, from_utf8_to_utf16be, from_utf16le_to_utf8,
  from_utf16be_to_utf8, from_utf16le_to_utf16be, from_utf16be_to_utf16le,
}

-- What the stack holds where a conversion's locals will stand.
pub record Stack : Type 0 where
  pub utf8_buf : Utf8Glyph
  pub utf16_buf : Utf16Glyph
  pub beyond : List ℕ

-- `sendfile` copies what is left of the file, as far as the device goes.
unfoldable pub transcribe : InFile → Outcome
transcribe infile = returns (ending_value infile.failing) infile.rest

-- `encoding_to`, which is 0 where no `-e` was given.
abbrev pub to_value : Option Format → ℕ
to_value none = 0
to_value (some format) = format_value format

abbrev pub difference : Format → Format → ℤ
difference a b = sub_ℕ (format_value a) (format_value b)

-- The `switch` over the constants of `encoding_from_to_t`; `none` is NULL.
unfoldable pub get_encoding_function : Format → Option Format → Option (Stack → InFile → Outcome)
get_encoding_function encoding_from encoding_to =
    let translate = sub_ℕ (format_value encoding_from) (to_value encoding_to) in
    if eq_ℤ translate (difference Format.utf8 Format.utf16le)
    then some (λ s. from_utf8_to_utf16le s.utf8_buf)
    else if eq_ℤ translate (difference Format.utf8 Format.utf16be)
    then some (λ s. from_utf8_to_utf16be s.utf8_buf)
    else if eq_ℤ translate (difference Format.utf16le Format.utf16be)
    then some (λ s. from_utf16le_to_utf16be s.utf16_buf)
    else if eq_ℤ translate (difference Format.utf16be Format.utf16le)
    then some (λ s. from_utf16be_to_utf16le s.utf16_buf s.beyond)
    else if eq_ℤ translate (difference Format.utf16be Format.utf8)
    then some (λ s. from_utf16be_to_utf8 s.utf16_buf s.utf8_buf)
    else if eq_ℤ translate (difference Format.utf16le Format.utf8)
    then some (λ s. from_utf16le_to_utf8 s.utf16_buf s.utf8_buf)
    else if eq_ℤ translate (pos 0)
    then some (λ s. transcribe)
    else none

-- The value of four bytes in memory, and its two low ones.
abbrev pub from_int_bytes : List ℕ → ℕ
from_int_bytes [] = 0
from_int_bytes (b ∷ bs) = b + 256 * from_int_bytes bs

abbrev pub lower_two_bytes : ℕ → ℕ
lower_two_bytes b = b % 0x10000

-- The tests on the three bytes read into `bom`, which was 0.
unfoldable pub recognise_bom : List ℕ → Option (Format × ℕ)
unfolding reverse_bytes
recognise_bom bytes =
    if from_int_bytes bytes == format_value Format.utf8
    then some (Format.utf8, 3)
    else (let bom = from_int_bytes (reverse_bytes bytes 2) in
        if lower_two_bytes bom == format_value Format.utf16le
        then some (Format.utf16le, 2)
        else if lower_two_bytes bom == format_value Format.utf16be
        then some (Format.utf16be, 2)
        else none)

-- `encoding_from` and `bom_length`; `none` is `exit(EXIT_FAILURE)`.
unfoldable pub check_bom : InFile → Option (Format × ℕ)
unfolding recognise_bom read_to_bigendian
check_bom fd = elim (read_to_bigendian fd 3) [
  | failed ↦ none
  | got bs rest ↦
      if ltb (length bs) 3 then none else recognise_bom (store (0 ∷ 0 ∷ 0 ∷ 0 ∷ []) 0 bs)
]

unfoldable pub determine_format : String → Option Format
determine_format argument =
    if str_eq argument "UTF16LE"
    then some Format.utf16le
    else if str_eq argument "UTF16BE"
    then some Format.utf16be
    else if str_eq argument "UTF8"
    then some Format.utf8
    else none

-- How the program ends: with the bytes of the output file, by `exit(EXIT_FAILURE)`, by a crash, or not at
-- all.
pub data Exit : Type 0 where
  success : List ℕ → Exit
  failure : Exit
  crash : Exit
  unfinished : Exit

abbrev pub exit_of : Outcome → Exit
exit_of (returns ret out) = success out
exit_of crashes = crash
exit_of out_of_fuel = unfinished

-- `main` behind `parse_args`. The call `lseek(SEEK_SET, bom_length, infile)` names descriptor 0 and so
-- leaves the offset of `infile` at the start; the value that the conversion returns is not used.
unfoldable pub main : Option Format → Stack → InFile → Exit
main encoding_to stack infile = elim (check_bom infile) [
  | none ↦ failure
  | some (encoding_from, bom_length) ↦ elim (get_encoding_function encoding_from encoding_to) [
    | none ↦ crash
    | some convert ↦ exit_of (convert stack infile)
  ]
]
