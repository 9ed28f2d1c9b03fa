-- ===== src/Utf/Convert/OfUtf8.antt =====
-- `from_utf8_to_utf16le` and `from_utf8_to_utf16be` on whole files.
use system_fundamentals_c_pr.Base.{
  All, ℕ, suc, ◌+◌, ◌/◌, ◌%◌, ◌≤◌, ◌<◌, ◌≡◌, refl, Bool, some, List, [], ◌∷◌, ◌++◌, take, length,
  arith,
}
use native.Mathlib.Decide.{dec_lt}
use system_fundamentals_c_pr.Utf.Glyph.{Utf8Glyph, utf8_glyph, Utf16Glyph, utf16_glyph_bytes}
use system_fundamentals_c_pr.Utf.Files.{ending_value, read_to_bigendian, stop, more, returns, run}
use system_fundamentals_c_pr.Utf.Spec.{utf8_units, utf8_text, utf16le_text, utf16be_text, text}
use system_fundamentals_c_pr.Utf.Utf16.{code_point_to_utf16le_glyph, code_point_to_utf16be_glyph}
use system_fundamentals_c_pr.Utf.Utf16.Surrogates.{le_glyph_bytes, be_glyph_bytes}
use system_fundamentals_c_pr.Utf.Utf8.{get_utf8_decoding_function}
use system_fundamentals_c_pr.Utf.Utf8.Units.{
  units_1, units_2, units_3, units_4, decode_1, decode_2, decode_3, decode_4,
  one-le-length-utf8_units,
}
use system_fundamentals_c_pr.Utf.Convert.{
  FromUtf8, write_utf16, from_utf8_round, from_utf8_to_utf16le, from_utf8_to_utf16be, reversed_bom,
}
use system_fundamentals_c_pr.Utf.Convert.Loop.{run-text, length-le-text, text_congr, All-mono}

module _ (encode : ℕ → Utf16Glyph × ℕ) (failing : Bool) where
  -- what is written for a code point
  abbrev emit : ℕ → List ℕ
  emit c = let (g, n) = encode c in take n (utf16_glyph_bytes g)

  abbrev state : Utf8Glyph → List ℕ → List ℕ → FromUtf8
  state buf rest out = record {
    utf8_buf = buf;
    infile = record { rest = rest; failing = failing };
    outfile = out;
  }

  abbrev Stands : List ℕ → List ℕ → FromUtf8 → Type 0
  Stands rest out s = (buf : Utf8Glyph) × (s ≡ state buf rest out)

  abbrev Takes : ℕ → Type 0
  Takes c =
      (buf : Utf8Glyph) (tail out : List ℕ)
      → (buf' : Utf8Glyph) × (from_utf8_round encode (state buf (utf8_units c ++ tail) out)
          ≡ more (state buf' tail (out ++ emit c)))

  -- A round where decoding the bytes read gives `c`.
  write :
      (n c : ℕ) (g : Utf8Glyph) (tail out : List ℕ)
      → get_utf8_decoding_function (suc n) g ≡ some c
      → write_utf16 encode n (state g tail out) ≡ more (state g tail (out ++ emit c))
  write n c g tail out d = rw (d, write_utf16)

  round_1 : (c : ℕ) → c < 0x80 → Takes c
  unfolding from_utf8_round read_to_bigendian
  round_1 c h buf tail out =
      let d = units_1 c h in
      rw d.units (
        record buf { byte_0 = c },
        rw (d.remaining, from_utf8_round) (write 0 c _ tail out (decode_1 c _ _ _)),
      )

  round_2 : (c : ℕ) → 0x80 ≤ c → c < 0x800 → Takes c
  unfolding from_utf8_round read_to_bigendian
  round_2 c l h buf tail out =
      let d = units_2 c l h in
      rw d.units (
        utf8_glyph (0xc0 + c / 64) (0x80 + c % 64) buf.byte_2 buf.byte_3,
        rw (d.remaining, from_utf8_round) (write 1 c _ tail out (decode_2 c _ _ 0 h)),
      )

  round_3 : (c : ℕ) → 0x800 ≤ c → c < 0x10000 → Takes c
  unfolding from_utf8_round read_to_bigendian
  round_3 c l h buf tail out =
      let d = units_3 c l h in
      rw d.units (
        utf8_glyph (0xe0 + c / 4096) (0x80 + c / 64 % 64) (0x80 + c % 64) buf.byte_3,
        rw (d.remaining, from_utf8_round) (write 2 c _ tail out (decode_3 c _ 0 0 h)),
      )

  round_4 : (c : ℕ) → 0x10000 ≤ c → c < 0x200000 → Takes c
  unfolding from_utf8_round read_to_bigendian
  round_4 c l h buf tail out =
      let d = units_4 c l h in
      rw d.units (
        utf8_glyph (0xf0 + c / 262144) (0x80 + c / 4096 % 64) (0x80 + c / 64 % 64) (0x80 + c % 64),
        rw (d.remaining, from_utf8_round) (write 3 c _ tail out (decode_4 c h)),
      )

  takes : (c : ℕ) → c < 0x200000 → Takes c
  takes c h = elim (dec_lt c 0x80) [
    | yes a ↦ round_1 c a
    | no a ↦ elim (dec_lt c 0x800) [
      | yes b ↦ round_2 c (omega arith) b
      | no b ↦ elim (dec_lt c 0x10000) [
        | yes d ↦ round_3 c (omega arith) d
        | no d ↦ round_4 c (omega arith) h
      ]
    ]
  ]

  round :
      (c : ℕ) (tail out : List ℕ) (s : FromUtf8)
      → c < 0x200000
      → Stands (utf8_units c ++ tail) out s
      → (s' : FromUtf8) × (from_utf8_round encode s ≡ more s') × Stands tail (out ++ emit c) s'
  round c tail out s h (buf, e) =
      let (buf', r) = takes c h buf tail out in
      (state buf' tail (out ++ emit c), rw e r, (buf', refl))

  ending :
      (out : List ℕ) (s : FromUtf8)
      → Stands [] out s
      → from_utf8_round encode s ≡ stop (ending_value failing) out
  unfolding from_utf8_round read_to_bigendian
  ending out s (buf, e) = rw e (ground arith)

  pub run-utf8_text :
      (cs out : List ℕ) (stack : Utf8Glyph)
      → All (λ c. c < 0x200000) cs
      → run (from_utf8_round encode) (suc (length (utf8_text cs))) (state stack (utf8_text cs) out)
        ≡ returns (ending_value failing) (out ++ text emit cs)
  run-utf8_text cs out stack h =
      run-text (from_utf8_round encode) utf8_units emit (λ c. c < 0x200000) (ending_value failing)
        Stands round ending cs out (suc (length (utf8_text cs))) (state stack (utf8_text cs) out)
        (omega (arith, length-le-text utf8_units cs one-le-length-utf8_units)) h (stack, refl)

module _ (stack : Utf8Glyph) (failing : Bool) (cs : List ℕ) (h : All (λ c. c < 0x110000) cs) where
  from_text :
      (encode : ℕ → Utf16Glyph × ℕ) (units : ℕ → List ℕ) (bom : List ℕ)
      → ((c : ℕ) → c < 0x110000 → emit encode failing c ≡ units c)
      → run
          (from_utf8_round encode)
          (suc (length (utf8_text cs)))
          (state encode failing stack (utf8_text cs) bom)
        ≡ returns (ending_value failing) (bom ++ text units cs)
  from_text encode units bom same = rw (
    run-utf8_text encode failing cs bom stack (All-mono _ _ cs (λ c p. omega arith) h),
    text_congr (emit encode failing) units _ cs same h,
  )

  -- UTF-8 is translated to UTF-16LE behind a byte order mark, for every text and whatever the buffer
  -- held, and the value returned is -1 exactly if the device fails behind the text.
  pub from_utf8_to_utf16le-utf8_text :
      from_utf8_to_utf16le stack (record { rest = utf8_text cs; failing = failing })
      ≡ returns (ending_value failing) (0xff ∷ 0xfe ∷ utf16le_text cs)
  unfolding from_utf8_to_utf16le reversed_bom
  from_utf8_to_utf16le-utf8_text = from_text code_point_to_utf16le_glyph _ _ le_glyph_bytes

  -- UTF-8 is translated to UTF-16BE behind a byte order mark, for every text and whatever the buffer
  -- held, and the value returned is -1 exactly if the device fails behind the text.
  pub from_utf8_to_utf16be-utf8_text :
      from_utf8_to_utf16be stack (record { rest = utf8_text cs; failing = failing })
      ≡ returns (ending_value failing) (0xfe ∷ 0xff ∷ utf16be_text cs)
  unfolding from_utf8_to_utf16be reversed_bom
  from_utf8_to_utf16be-utf8_text = from_text code_point_to_utf16be_glyph _ _ be_glyph_bytes
