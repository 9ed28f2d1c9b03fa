-- ===== src/Utf/Program/Laws.antt =====
-- hw2: what the whole program does.
use system_fundamentals_c_pr.Base.{
  All, ◌≡◌, refl, ◌<◌, List, [], ◌∷◌, ◌++◌, Bool, Option, none, some, arith, ◌==◌, ◌&&◌, ℕ,
  if◌then◌else◌, ap, ◌∙◌,
}
use system_fundamentals_c_pr.Utf.Files.{InFile, Outcome}
use system_fundamentals_c_pr.Utf.Convert.{
  Format, from_utf8_to_utf16le, from_utf8_to_utf16be, from_utf16le_to_utf8, from_utf16be_to_utf8,
  from_utf16le_to_utf16be, from_utf16be_to_utf16le,
}
use system_fundamentals_c_pr.Utf.Spec.{
  utf8_units, utf16_units, little_endian, big_endian, utf8_text, utf16le_text, utf16be_text, text,
}
use system_fundamentals_c_pr.Utf.Convert.OfUtf8.{
  from_utf8_to_utf16le-utf8_text, from_utf8_to_utf16be-utf8_text,
}
use system_fundamentals_c_pr.Utf.Convert.OfUtf16.{
  IsTranslated, unmarked, from_utf16le_to_utf8-utf16le_text, from_utf16be_to_utf8-utf16be_text,
}
use system_fundamentals_c_pr.Utf.Program.{
  Stack, transcribe, get_encoding_function, check_bom, main, exit_of, success,
}

-- The conversion from one format to another.
abbrev pub converter : Format → Format → Stack → InFile → Outcome
converter Format.utf8 Format.utf16le s = from_utf8_to_utf16le s.utf8_buf
converter Format.utf8 Format.utf16be s = from_utf8_to_utf16be s.utf8_buf
converter Format.utf16le Format.utf16be s = from_utf16le_to_utf16be s.utf16_buf
converter Format.utf16be Format.utf16le s = from_utf16be_to_utf16le s.utf16_buf s.beyond
converter Format.utf16le Format.utf8 s = from_utf16le_to_utf8 s.utf16_buf s.utf8_buf
converter Format.utf16be Format.utf8 s = from_utf16be_to_utf8 s.utf16_buf s.utf8_buf
converter Format.utf8 Format.utf8 s = transcribe
converter Format.utf16le Format.utf16le s = transcribe
converter Format.utf16be Format.utf16be s = transcribe

-- The differences of the format values tell all pairs of formats apart: each pair gets its own
-- conversion, a pair of equal formats the plain copy, and without a target format it is NULL.
pub get_encoding_function-converter :
    (from to : Format)
    → (get_encoding_function from (some to) ≡ some (converter from to))
      × (get_encoding_function from none ≡ none)
unfolding get_encoding_function
get_encoding_function-converter Format.utf8 Format.utf16le = (refl, refl)
get_encoding_function-converter Format.utf8 Format.utf16be = (refl, refl)
get_encoding_function-converter Format.utf8 Format.utf8 = (refl, refl)
get_encoding_function-converter Format.utf16le Format.utf16le = (refl, refl)
get_encoding_function-converter Format.utf16le Format.utf16be = (refl, refl)
get_encoding_function-converter Format.utf16le Format.utf8 = (refl, refl)
get_encoding_function-converter Format.utf16be Format.utf16le = (refl, refl)
get_encoding_function-converter Format.utf16be Format.utf16be = (refl, refl)
get_encoding_function-converter Format.utf16be Format.utf8 = (refl, refl)

abbrev pub file : List ℕ → Bool → InFile
file rest failing = record { rest = rest; failing = failing }

-- The format that the first three bytes of a file mark, with the length of the mark.
abbrev pub marked : ℕ → ℕ → ℕ → Option (Format × ℕ)
marked a b c =
    if a == 0xef && b == 0xbb && c == 0xbf
    then some (Format.utf8, 3)
    else if a == 0xff && b == 0xfe
    then some (Format.utf16le, 2)
    else if a == 0xfe && b == 0xff
    then some (Format.utf16be, 2)
    else none

module _ (a b c : ℕ) (ha : a < 256) (hb : b < 256) (hc : c < 256) (rest : List ℕ)
    (failing : Bool) where
  -- The format of a file is told from its first three bytes, and a file of fewer bytes is refused, also
  -- one that is a mark of two bytes alone.
  pub check_bom-marked :
      (check_bom (file (a ∷ b ∷ c ∷ rest) failing) ≡ marked a b c)
      × (check_bom (file (a ∷ b ∷ []) failing) ≡ none)
      × (check_bom (file (a ∷ []) failing) ≡ none)
      × (check_bom (file [] failing) ≡ none)
  unfolding check_bom
  check_bom-marked = (ground arith, ground arith, ground arith, ground arith)

module _ (stack : Stack) (failing : Bool) (cs : List ℕ) where
  -- A file in UTF-8 with its mark becomes UTF-16LE or UTF-16BE with two marks, one that the conversion
  -- writes and one that it translates.
  pub main-utf8_text :
      All (λ c. c < 0x110000) cs
      → (main (some Format.utf16le) stack (file (0xef ∷ 0xbb ∷ 0xbf ∷ utf8_text cs) failing)
          ≡ success (0xff ∷ 0xfe ∷ 0xff ∷ 0xfe ∷ utf16le_text cs))
        × (main (some Format.utf16be) stack (file (0xef ∷ 0xbb ∷ 0xbf ∷ utf8_text cs) failing)
            ≡ success (0xfe ∷ 0xff ∷ 0xfe ∷ 0xff ∷ utf16be_text cs))
  unfolding main check_bom get_encoding_function utf8_units utf16_units
  main-utf8_text h = (
    ap exit_of
        (from_utf8_to_utf16le-utf8_text stack.utf8_buf failing (0xfeff ∷ cs) (omega arith, h)),
    ap exit_of
        (from_utf8_to_utf16be-utf8_text stack.utf8_buf failing (0xfeff ∷ cs) (omega arith, h)),
  )

marked_le :
    (failing : Bool) (c : ℕ) (rest : List ℕ)
    → check_bom (file (0xff ∷ 0xfe ∷ little_endian (utf16_units c) ++ rest) failing)
      ≡ some (Format.utf16le, 2)
unfolding check_bom utf16_units
marked_le failing c rest = ground arith

marked_be :
    (failing : Bool) (c : ℕ) (rest : List ℕ)
    → check_bom (file (0xfe ∷ 0xff ∷ big_endian (utf16_units c) ++ rest) failing)
      ≡ some (Format.utf16be, 2)
unfolding check_bom utf16_units
marked_be failing c rest = ground arith

main_by :
    (to from : Format) (stack : Stack) (infile : InFile) (n : ℕ)
    → check_bom infile ≡ some (from, n)
    → main (some to) stack infile ≡ exit_of (converter from to stack infile)
unfolding main
main_by to from stack infile n e = rw (e, main, (get_encoding_function-converter from to).0)

module _ (stack : Stack) (failing : Bool) (c : ℕ) (cs : List ℕ)
    (h : All IsTranslated (c ∷ cs)) where
  -- A file in UTF-16 with its mark and at least one code point becomes the UTF-8 of its text without
  -- any U+FEFF, and so without a mark, where the text holds no surrogate, and above U+FFFF only
  -- U+10400 to U+10FBFF.
  pub main-utf16_text :
      (main (some Format.utf8) stack (file (0xff ∷ 0xfe ∷ utf16le_text (c ∷ cs)) failing)
        ≡ success (text unmarked (c ∷ cs)))
      × (main (some Format.utf8) stack (file (0xfe ∷ 0xff ∷ utf16be_text (c ∷ cs)) failing)
          ≡ success (text unmarked (c ∷ cs)))
  main-utf16_text = (
    main_by Format.utf8 Format.utf16le stack _ 2 (marked_le failing c (utf16le_text cs))
        ∙ ap exit_of
            (from_utf16le_to_utf8-utf16le_text stack.utf16_buf stack.utf8_buf failing (c ∷ cs) h),
    main_by Format.utf8 Format.utf16be stack _ 2 (marked_be failing c (utf16be_text cs))
        ∙ ap exit_of
            (from_utf16be_to_utf8-utf16be_text stack.utf16_buf stack.utf8_buf failing (c ∷ cs) h),
  )
