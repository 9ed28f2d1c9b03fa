-- ===== src/Utf/Convert/OfUtf16.antt =====
-- `from_utf16le_to_utf8` and `from_utf16be_to_utf8` on whole files.
use system_fundamentals_c_pr.Base.{
  All, ℕ, suc, ◌+◌, ◌-◌, ◌/◌, ◌%◌, ◌≤◌, ◌<◌, ◌≡◌, ◌≢◌, ◌⊎◌, inl, inr, refl, Bool, true, false, List,
  [], ◌∷◌, ◌++◌, length, ap, ◌∙◌, ltb, lt→ltb, arith, if◌then◌else◌, ◌==◌, ==_of_ne,
}
use mathlib.Core.List.{append-nil}
use mathlib.Core.Path.{fun_ext}
use native.Mathlib.Decide.{ℕ_discrete}
use system_fundamentals_c_pr.Utf.Glyph.{Utf8Glyph, Utf16Glyph, utf16_glyph, reverse_bytes_16}
use system_fundamentals_c_pr.Utf.Files.{
  read_to_bigendian, store_16, stop, more, returns, run, ending_value,
}
use system_fundamentals_c_pr.Utf.Spec.{
  utf8_units, utf16_units, little_endian, big_endian, text, utf16le_text, utf16be_text,
}
use system_fundamentals_c_pr.Utf.Utf16.{is_upper_surrogate_pair, utf16_glyph_to_code_point}
use system_fundamentals_c_pr.Utf.Utf16.Surrogates.{
  reverse_bytes_16_lem, utf16_glyph_to_code_point-pair, utf16_glyph_to_code_point-single,
}
use system_fundamentals_c_pr.Utf.Utf8.RoundTrip.{code_point_to_utf8_glyph-Encodes}
use system_fundamentals_c_pr.Utf.Convert.{
  FromUtf16, write_utf8, take_unit, from_utf16_round, from_utf16le_to_utf8, from_utf16be_to_utf8,
}
use system_fundamentals_c_pr.Utf.Convert.Loop.{run-text, run_more, length-le-text}

-- The code points that the two conversions read as they are meant: no surrogate, and no pair whose
-- upper unit is the first or the last of its range.
abbrev pub IsTranslated : ℕ → Type 0
IsTranslated c = (c < 0xd800) ⊎ ((0xe000 ≤ c) × (c < 0x10000)) ⊎ ((0x10400 ≤ c) × (c < 0x10fc00))

-- What is written for a code point: nothing for U+FEFF, wherever it stands.
abbrev pub unmarked : ℕ → List ℕ
unmarked c = if c == 0xfeff then [] else utf8_units c

upper_only :
    (u l l' : ℕ)
    → is_upper_surrogate_pair (utf16_glyph u l') ≡ is_upper_surrogate_pair (utf16_glyph u l)
unfolding is_upper_surrogate_pair
upper_only u l l' = refl

not_upper :
    (c l : ℕ)
    → (c < 0xd800) ⊎ ((0xe000 ≤ c) × (c < 0x10000))
    → is_upper_surrogate_pair (utf16_glyph c l) ≡ false
unfolding is_upper_surrogate_pair
not_upper c l h = ground arith

upper :
    (c l : ℕ)
    → 0x10400 ≤ c
    → c < 0x10fc00
    → is_upper_surrogate_pair (utf16_glyph (0xd800 + (c - 0x10000) / 1024) l) ≡ true
unfolding is_upper_surrogate_pair
upper c l h k = ground arith

zero_low : is_upper_surrogate_pair (utf16_glyph 0 0) ≡ false
unfolding is_upper_surrogate_pair
zero_low = refl

mark_low : is_upper_surrogate_pair (utf16_glyph 0xfeff 0) ≡ false
unfolding is_upper_surrogate_pair
mark_low = refl

ge→ltb : (a b : ℕ) → b ≤ a → ltb a b ≡ false
ge→ltb a b h = ground arith

-- Units as bytes, where these functions give the first and the second byte of one.
abbrev unit_bytes : (ℕ → ℕ) → (ℕ → ℕ) → List ℕ → List ℕ
unit_bytes first second [] = []
unit_bytes first second (u ∷ us) = first u ∷ second u ∷ unit_bytes first second us

module _ (order : ℕ → ℕ)
    -- the first and the second byte of a unit
    (first second : ℕ → ℕ)
    (reads : (x u : ℕ) → u < 0x10000 → order (store_16 x (first u ∷ second u ∷ [])) ≡ u)
    (stack : Utf8Glyph) (failing : Bool) where
  abbrev pub state : Utf16Glyph → List ℕ → List ℕ → FromUtf16
  state buf rest out = record {
    buf = buf;
    infile = record { rest = rest; failing = failing };
    outfile = out;
  }

  -- `lower_bytes` holds no upper surrogate, which would be taken for one after the exchange.
  abbrev Stands : List ℕ → List ℕ → FromUtf16 → Type 0
  Stands rest out s =
      (u l : ℕ) × (s ≡ state (utf16_glyph u l) rest out)
      × (is_upper_surrogate_pair (utf16_glyph l 0) ≡ false)

  write :
      (g : Utf16Glyph) (rest out : List ℕ) (c : ℕ)
      → g.lower_bytes ≢ 0xfeff
      → c < 0x200000
      → utf16_glyph_to_code_point g ≡ c
      → write_utf8 stack (state g rest out)
        ≡ more (state (utf16_glyph 0 0) rest (out ++ utf8_units c))
  write g rest out c ne h e =
      let (u, n, eq, enc) = code_point_to_utf8_glyph-Encodes stack c h in
      ground (arith, e, eq, enc.bytes)

  unit_single :
      (l c : ℕ) (tail out : List ℕ)
      → is_upper_surrogate_pair (utf16_glyph c l) ≡ false
      → take_unit order stack (state (utf16_glyph c l) tail out)
        ≡ write_utf8 stack (state (utf16_glyph l c) tail out)
  unit_single l c tail out low = rw (low, take_unit)

  unit_pair :
      (l hi lo : ℕ) (tail out : List ℕ)
      → is_upper_surrogate_pair (utf16_glyph hi l) ≡ true
      → lo < 0x10000
      → take_unit order stack (state (utf16_glyph hi l) (first lo ∷ second lo ∷ tail) out)
        ≡ write_utf8 stack (state (utf16_glyph hi lo) tail out)
  unfolding read_to_bigendian
  unit_pair l hi lo tail out up h =
      rw (up, take_unit)
        (ap (λ x. write_utf8 stack (state (utf16_glyph hi x) tail out)) (reads l lo h))

  -- A round up to the unit that it reads first.
  first_unit :
      (u l c : ℕ) (tail out : List ℕ)
      → c < 0x10000
      → from_utf16_round order stack (state (utf16_glyph u l) (first c ∷ second c ∷ tail) out)
        ≡ take_unit order stack (state (utf16_glyph c l) tail out)
  unfolding from_utf16_round read_to_bigendian
  first_unit u l c tail out h =
      ap (λ x. take_unit order stack (state (utf16_glyph x l) tail out)) (reads u c h)

  -- What a round does on a code point.
  abbrev Written : ℕ → List ℕ → List ℕ → FromUtf16 → Type 0
  Written c tail out s =
      (u l : ℕ) × (from_utf16_round order stack s
        ≡ more (state (utf16_glyph u l) tail (out ++ unmarked c)))
      × (is_upper_surrogate_pair (utf16_glyph l 0) ≡ false)

  -- The mark is dropped, whatever the buffer held.
  mark :
      (u l : ℕ) (tail out : List ℕ)
      → from_utf16_round order stack
          (state (utf16_glyph u l) (first 0xfeff ∷ second 0xfeff ∷ tail) out)
        ≡ more (state (utf16_glyph l 0xfeff) tail out)
  mark u l tail out =
      first_unit u l 0xfeff tail out (omega arith)
      ∙ unit_single l 0xfeff tail out (not_upper 0xfeff _ (inr (omega arith, omega arith)))

  round_single :
      (u l c : ℕ) (tail out : List ℕ)
      → is_upper_surrogate_pair (utf16_glyph l 0) ≡ false
      → (c < 0xd800) ⊎ ((0xe000 ≤ c) × (c < 0x10000))
      → Written c tail out (state (utf16_glyph u l) (first c ∷ second c ∷ tail) out)
  round_single u l c tail out low h = elim (ℕ_discrete c 0xfeff) [
    | yes e ↦ rw e (l, 0xfeff, rw append-nil (mark u l tail out), mark_low)
    | no ne ↦ (
      0,
      0,
      rw (==_of_ne c 0xfeff ne) (
          first_unit u l c tail out (omega arith)
          ∙ unit_single l c tail out (not_upper c l h)
          ∙ write (utf16_glyph l c) tail out c ne (omega arith)
              (utf16_glyph_to_code_point-single (utf16_glyph l c) (upper_only l 0 c ∙ low))),
      zero_low,
    )
  ]

  round_pair :
      (u l c : ℕ) (tail out : List ℕ)
      → 0x10400 ≤ c
      → c < 0x10fc00
      → Written c tail out (
          state
            (utf16_glyph u l)
            (unit_bytes first second
                ((0xd800 + (c - 0x10000) / 1024) ∷ (0xdc00 + (c - 0x10000) % 1024) ∷ [])
              ++ tail)
            out)
  round_pair u l c tail out from below = (
    0,
    0,
    rw (==_of_ne c 0xfeff (omega arith)) (
        first_unit u l (0xd800 + (c - 0x10000) / 1024) _ out (omega arith)
        ∙ unit_pair l _ (0xdc00 + (c - 0x10000) % 1024) tail out (upper c l from below)
            (omega arith)
        ∙ write (utf16_glyph _ _) tail out c (omega arith) (omega arith)
            ((utf16_glyph_to_code_point-pair c (omega arith) (omega arith)).1 (from, below))),
    zero_low,
  )

  written :
      (u l c : ℕ) (tail out : List ℕ)
      → is_upper_surrogate_pair (utf16_glyph l 0) ≡ false
      → IsTranslated c
      → Written c tail out
          (state (utf16_glyph u l) (unit_bytes first second (utf16_units c) ++ tail) out)
  unfolding utf16_units
  written u l c tail out low (inl p) =
      rw (lt→ltb c 0x10000 (omega arith)) (round_single u l c tail out low (inl p))
  written u l c tail out low (inr (inl p)) =
      rw (lt→ltb c 0x10000 (omega arith)) (round_single u l c tail out low (inr p))
  written u l c tail out low (inr (inr p)) =
      rw (ge→ltb c 0x10000 (omega arith)) (round_pair u l c tail out p.0 p.1)

  round :
      (c : ℕ) (tail out : List ℕ) (s : FromUtf16)
      → IsTranslated c
      → Stands (unit_bytes first second (utf16_units c) ++ tail) out s
      → (s' : FromUtf16) × (from_utf16_round order stack s ≡ more s')
        × Stands tail (out ++ unmarked c) s'
  round c tail out s h (u, l, e, low) =
      let (u', l', w, low') = written u l c tail out low h in
      (state (utf16_glyph u' l') tail (out ++ unmarked c), rw e w, (u', l', refl, low'))

  ending :
      (out : List ℕ) (s : FromUtf16)
      → Stands [] out s
      → from_utf16_round order stack s ≡ stop (ending_value failing) out
  unfolding from_utf16_round read_to_bigendian
  ending out s (u, l, e, low) = rw e (ground arith)

  pub run-utf16_text :
      (cs : List ℕ) (fuel u : ℕ)
      → length cs < fuel
      → All IsTranslated cs
      → run
          (from_utf16_round order stack)
          fuel
          (state (utf16_glyph u 0xfeff) (text (λ c. unit_bytes first second (utf16_units c)) cs) [])
        ≡ returns (ending_value failing) (text unmarked cs)
  run-utf16_text cs fuel u h p =
      run-text (from_utf16_round order stack) (λ c. unit_bytes first second (utf16_units c))
        unmarked IsTranslated (ending_value failing) Stands round ending cs [] fuel _ h p
        (u, 0xfeff, refl, mark_low)

  one-le-length-bytes : (c : ℕ) → 1 ≤ length (unit_bytes first second (utf16_units c))
  unfolding utf16_units
  one-le-length-bytes c = ground arith

  pub run-marked_text :
      (buf : Utf16Glyph) (cs : List ℕ) (units : ℕ → List ℕ)
      → ((c : ℕ) → unit_bytes first second (utf16_units c) ≡ units c)
      → All IsTranslated cs
      → run
          (from_utf16_round order stack)
          (suc (suc (suc (length (text units cs)))))
          (state buf (first 0xfeff ∷ second 0xfeff ∷ text units cs) [])
        ≡ returns (ending_value failing) (text unmarked cs)
  run-marked_text buf cs units same p = rw (← fun_ext same) (
      run_more (from_utf16_round order stack) _ _ (mark buf.upper_bytes buf.lower_bytes _ [])
      ∙ run-utf16_text cs _ buf.lower_bytes
          (omega (
            arith,
            length-le-text (λ c. unit_bytes first second (utf16_units c)) cs one-le-length-bytes,
          ))
          p)

unit_bytes-little_endian :
    (us : List ℕ) → unit_bytes (λ u. u % 256) (λ u. u / 256) us ≡ little_endian us
unit_bytes-little_endian [] = refl
unit_bytes-little_endian (u ∷ us) = rw (unit_bytes-little_endian us)

unit_bytes-big_endian : (us : List ℕ) → unit_bytes (λ u. u / 256) (λ u. u % 256) us ≡ big_endian us
unit_bytes-big_endian [] = refl
unit_bytes-big_endian (u ∷ us) = rw (unit_bytes-big_endian us)

module _ (stack_16 : Utf16Glyph) (stack : Utf8Glyph) (failing : Bool) (cs : List ℕ)
    (h : All IsTranslated cs) where
  -- A file in UTF-16LE with its byte order mark is translated to the UTF-8 of its text without any
  -- U+FEFF, whatever the buffers held, where the text holds no surrogate, and above U+FFFF only
  -- U+10400 to U+10FBFF; the value returned is -1 exactly if the device fails behind the text.
  pub from_utf16le_to_utf8-utf16le_text :
      from_utf16le_to_utf8 stack_16 stack
        (record { rest = 0xff ∷ 0xfe ∷ utf16le_text cs; failing = failing })
      ≡ returns (ending_value failing) (text unmarked cs)
  unfolding from_utf16le_to_utf8
  from_utf16le_to_utf8-utf16le_text =
      run-marked_text (λ x. x) (λ u. u % 256) (λ u. u / 256) (λ x u p. omega arith) stack failing
        stack_16 cs _ (λ c. unit_bytes-little_endian (utf16_units c)) h

  -- A file in UTF-16BE with its byte order mark is translated to the UTF-8 of its text without any
  -- U+FEFF, whatever the buffers held, where the text holds no surrogate, and above U+FFFF only U+10400
  -- to U+10FBFF; the value returned is -1 exactly if the device fails behind the text.
  pub from_utf16be_to_utf8-utf16be_text :
      from_utf16be_to_utf8 stack_16 stack
        (record { rest = 0xfe ∷ 0xff ∷ utf16be_text cs; failing = failing })
      ≡ returns (ending_value failing) (text unmarked cs)
  unfolding from_utf16be_to_utf8
  from_utf16be_to_utf8-utf16be_text =
      run-marked_text reverse_bytes_16 (λ u. u / 256) (λ u. u % 256)
        (λ x u p. rw reverse_bytes_16_lem (omega arith)) stack failing stack_16 cs _
        (λ c. unit_bytes-big_endian (utf16_units c)) h
