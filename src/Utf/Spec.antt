-- ===== src/Utf/Spec.antt =====
-- What the encodings are, in arithmetic and without the code: RFC 3629 for UTF-8, RFC 2781 for UTF-16.
use system_fundamentals_c_pr.Base.{
  ℕ, ◌+◌, ◌/◌, ◌%◌, ◌-◌, ◌≤◌, ◌<◌, ◌⊎◌, List, [], ◌∷◌, ◌++◌, ltb, if◌then◌else◌,
}

-- The bytes of a code point in UTF-8.
unfoldable pub utf8_units : ℕ → List ℕ
utf8_units c =
    if ltb c 0x80
    then c ∷ []
    else if ltb c 0x800
    then (0xc0 + c / 64) ∷ (0x80 + c % 64) ∷ []
    else if ltb c 0x10000
    then (0xe0 + c / 4096) ∷ (0x80 + c / 64 % 64) ∷ (0x80 + c % 64) ∷ []
    else (0xf0 + c / 262144) ∷ (0x80 + c / 4096 % 64) ∷ (0x80 + c / 64 % 64) ∷ (0x80 + c % 64) ∷ []

-- The units of 16 bits of a code point in UTF-16.
unfoldable pub utf16_units : ℕ → List ℕ
utf16_units c =
    if ltb c 0x10000
    then c ∷ []
    else (0xd800 + (c - 0x10000) / 1024) ∷ (0xdc00 + (c - 0x10000) % 1024) ∷ []

-- A list of units as bytes, the low byte first or the high byte first.
abbrev pub little_endian : List ℕ → List ℕ
little_endian [] = []
little_endian (u ∷ us) = (u % 256) ∷ (u / 256) ∷ little_endian us

abbrev pub big_endian : List ℕ → List ℕ
big_endian [] = []
big_endian (u ∷ us) = (u / 256) ∷ (u % 256) ∷ big_endian us

-- A text is a list of code points.
abbrev pub text : (ℕ → List ℕ) → List ℕ → List ℕ
text units [] = []
text units (c ∷ cs) = units c ++ text units cs

abbrev pub utf8_text : List ℕ → List ℕ
utf8_text = text utf8_units

abbrev pub utf16le_text : List ℕ → List ℕ
utf16le_text = text (λ c. little_endian (utf16_units c))

abbrev pub utf16be_text : List ℕ → List ℕ
utf16be_text = text (λ c. big_endian (utf16_units c))

-- A Unicode scalar value: a code point that is no surrogate.
abbrev pub IsScalar : ℕ → Type 0
IsScalar c = (c < 0xd800) ⊎ ((0xe000 ≤ c) × (c < 0x110000))
