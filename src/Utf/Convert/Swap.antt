-- ===== src/Utf/Convert/Swap.antt =====
-- The two conversions between the forms of UTF-16, on whole files.
use system_fundamentals_c_pr.Base.{
  All, ℕ, suc, ◌+◌, ◌*◌, ◌/◌, ◌%◌, ◌<◌, ◌≡◌, refl, Bool, false, List, [], ◌∷◌, ◌++◌, length, ap,
  ◌∙◌, arith,
}
use system_fundamentals_c_pr.Utf.Glyph.{Utf16Glyph, utf16_glyph, bytes_16, reverse_bytes_16}
use system_fundamentals_c_pr.Utf.Files.{read_to_bigendian, stop, more, returns, run, ending_value}
use system_fundamentals_c_pr.Utf.Spec.{little_endian, big_endian, text}
use system_fundamentals_c_pr.Utf.Utf16.{is_lower_surrogate_pair}
use system_fundamentals_c_pr.Utf.Utf16.Surrogates.{reverse_bytes_16_lem}
use system_fundamentals_c_pr.Utf.Convert.{
  FromUtf16, swap_upper, from_utf16le_to_utf16be_round, from_utf16le_to_utf16be, reversed_bom,
  from_utf16be_to_utf16le_round, from_utf16be_to_utf16le,
}
use system_fundamentals_c_pr.Utf.Convert.Loop.{run-text, length-le-text}

text-little_endian : (us : List ℕ) → text (λ u. little_endian (u ∷ [])) us ≡ little_endian us
text-little_endian [] = refl
text-little_endian (u ∷ us) = rw (text-little_endian us)

text-big_endian : (us : List ℕ) → text (λ u. big_endian (u ∷ [])) us ≡ big_endian us
text-big_endian [] = refl
text-big_endian (u ∷ us) = rw (text-big_endian us)

lower_only :
    (u u' l : ℕ)
    → is_lower_surrogate_pair (utf16_glyph u l) ≡ is_lower_surrogate_pair (utf16_glyph u' l)
unfolding is_lower_surrogate_pair
lower_only u u' l = refl

module _ (failing : Bool) (l : ℕ) where
  abbrev state : ℕ → List ℕ → List ℕ → FromUtf16
  state u rest out = record {
    buf = utf16_glyph u l;
    infile = record { rest = rest; failing = failing };
    outfile = out;
  }

  abbrev Stands : List ℕ → List ℕ → FromUtf16 → Type 0
  Stands rest out s = (u : ℕ) × (s ≡ state u rest out)

-- No unit is read into `lower_bytes` where it held no lower surrogate at the start.
module _ (failing : Bool) (l : ℕ)
    (low : (u : ℕ) → is_lower_surrogate_pair (utf16_glyph u l) ≡ false) where
  swap_unit :
      (x : ℕ) (tail out : List ℕ)
      → swap_upper (state failing l x tail out)
        ≡ more (state failing l x tail (out ++ (x % 256) ∷ (x / 256) ∷ []))
  swap_unit x tail out = rw (low x, swap_upper)

  swapped :
      (c : ℕ)
      → c < 0x10000
      → bytes_16 (reverse_bytes_16 (c % 256 + c / 256 * 256)) ≡ big_endian (c ∷ [])
  swapped c h = rw reverse_bytes_16_lem (ground arith)

  swap_round :
      (c : ℕ) (tail out : List ℕ) (s : FromUtf16)
      → c < 0x10000
      → Stands failing l (little_endian (c ∷ []) ++ tail) out s
      → (s' : FromUtf16) × (from_utf16le_to_utf16be_round s ≡ more s')
        × Stands failing l tail (out ++ big_endian (c ∷ [])) s'
  unfolding from_utf16le_to_utf16be_round read_to_bigendian
  swap_round c tail out s h (u, e) =
      let x = reverse_bytes_16 (c % 256 + c / 256 * 256) in
      (
        state failing l x tail (out ++ big_endian (c ∷ [])),
        rw e (
            swap_unit x tail out
            ∙ ap (λ o. more (state failing l x tail (out ++ o))) (swapped c h)),
        (x, refl),
      )

  swap_ending :
      (out : List ℕ) (s : FromUtf16)
      → Stands failing l [] out s
      → from_utf16le_to_utf16be_round s ≡ stop (ending_value failing) out
  unfolding from_utf16le_to_utf16be_round read_to_bigendian
  swap_ending out s (u, e) = rw e (ground arith)

  -- Two bytes of any kind, a unit of the file, make four fixed ones.
  constant_round :
      (beyond : List ℕ) (c : ℕ) (tail out : List ℕ) (s : FromUtf16)
      → Unit {0}
      → Stands failing l (big_endian (c ∷ []) ++ tail) out s
      → (s' : FromUtf16) × (from_utf16be_to_utf16le_round beyond s ≡ more s')
        × Stands failing l tail (out ++ 0x00 ∷ 0xff ∷ 0xfe ∷ 0x00 ∷ []) s'
  unfolding from_utf16be_to_utf16le_round read_to_bigendian
  constant_round beyond c tail out s h (u, e) =
      let x = reverse_bytes_16 (c / 256 + c % 256 * 256) in
      (
        state failing l x tail (out ++ 0x00 ∷ 0xff ∷ 0xfe ∷ 0x00 ∷ []),
        rw e (rw (low x, from_utf16be_to_utf16le_round)),
        (x, refl),
      )

  constant_ending :
      (beyond out : List ℕ) (s : FromUtf16)
      → Stands failing l [] out s
      → from_utf16be_to_utf16le_round beyond s ≡ stop (ending_value failing) out
  unfolding from_utf16be_to_utf16le_round read_to_bigendian
  constant_ending beyond out s (u, e) = rw e (ground arith)

  swap-run :
      (us out : List ℕ) (u : ℕ)
      → All (λ c. c < 0x10000) us
      → run from_utf16le_to_utf16be_round
          (suc (length (text (λ c. little_endian (c ∷ [])) us)))
          (state failing l u (text (λ c. little_endian (c ∷ [])) us) out)
        ≡ returns (ending_value failing) (out ++ text (λ c. big_endian (c ∷ [])) us)
  swap-run us out u h =
      run-text from_utf16le_to_utf16be_round (λ c. little_endian (c ∷ []))
        (λ c. big_endian (c ∷ [])) (λ c. c < 0x10000) (ending_value failing) (Stands failing l)
        swap_round swap_ending us out _ _
        (omega (arith, length-le-text (λ c. little_endian (c ∷ [])) us (λ c. omega arith))) h
        (u, refl)

  constant-run :
      (beyond us out : List ℕ) (u : ℕ)
      → All (λ c. Unit {0}) us
      → run
          (from_utf16be_to_utf16le_round beyond)
          (suc (length (text (λ c. big_endian (c ∷ [])) us)))
          (state failing l u (text (λ c. big_endian (c ∷ [])) us) out)
        ≡ returns (ending_value failing) (out ++ text (λ c. 0x00 ∷ 0xff ∷ 0xfe ∷ 0x00 ∷ []) us)
  constant-run beyond us out u h =
      run-text (from_utf16be_to_utf16le_round beyond) (λ c. big_endian (c ∷ []))
        (λ c. 0x00 ∷ 0xff ∷ 0xfe ∷ 0x00 ∷ []) (λ c. Unit {0}) (ending_value failing)
        (Stands failing l) (constant_round beyond) (constant_ending beyond) us out _ _
        (omega (arith, length-le-text (λ c. big_endian (c ∷ [])) us (λ c. omega arith))) h (u, refl)

All-units : (us : List ℕ) → All (λ c. Unit {0}) us
All-units [] = tt
All-units (u ∷ us) = (tt, All-units us)

module _ (stack_16 : Utf16Glyph) (low : is_lower_surrogate_pair stack_16 ≡ false) (failing : Bool)
    (us : List ℕ) where
  always_low : (u : ℕ) → is_lower_surrogate_pair (utf16_glyph u stack_16.lower_bytes) ≡ false
  always_low u = lower_only u stack_16.upper_bytes stack_16.lower_bytes ∙ low

  -- Units in UTF-16LE are written in UTF-16BE, in order, behind a byte order mark, surrogates and the
  -- mark at the start of the file included, where the buffer does not hold a lower surrogate by chance.
  pub from_utf16le_to_utf16be-little_endian :
      All (λ c. c < 0x10000) us
      → from_utf16le_to_utf16be stack_16 (record { rest = little_endian us; failing = failing })
        ≡ returns (ending_value failing) (0xfe ∷ 0xff ∷ big_endian us)
  unfolding from_utf16le_to_utf16be reversed_bom
  from_utf16le_to_utf16be-little_endian h =
      rw (← text-little_endian us, ← text-big_endian us)
        (swap-run failing stack_16.lower_bytes always_low us _ stack_16.upper_bytes h)

  -- A file in UTF-16BE is not translated to UTF-16LE: each unit of it, whatever it is, becomes the same
  -- four bytes, behind the two bytes 00 FF, where the buffer does not hold a lower surrogate by chance.
  pub from_utf16be_to_utf16le-big_endian :
      (beyond : List ℕ)
      → from_utf16be_to_utf16le stack_16 beyond (record { rest = big_endian us; failing = failing })
        ≡ returns
            (ending_value failing)
            (0x00 ∷ 0xff ∷ text (λ c. 0x00 ∷ 0xff ∷ 0xfe ∷ 0x00 ∷ []) us)
  unfolding from_utf16be_to_utf16le reversed_bom
  from_utf16be_to_utf16le-big_endian beyond = rw (← text-big_endian us) (
      constant-run failing stack_16.lower_bytes always_low beyond us _ stack_16.upper_bytes
        (All-units us))
