-- ===== src/Utf/Convert.antt =====
-- The conversions of hw2/src/utf8.c, utf16le.c and utf16be.c: loops over the units of a file.
-- `stack` is what the local buffers hold before anything is stored in them. A write always succeeds.
pub mod Loop
pub mod OfUtf8
pub mod OfUtf16
pub mod Swap
pub mod Ends
use system_fundamentals_c_pr.Base.{
  ℕ, zero, suc, List, [], ◌∷◌, ◌++◌, true, false, none, some, take, pos, negsuc, length, ◌==◌,
  if◌then◌else◌,
}
use system_fundamentals_c_pr.Utf.Glyph.{
  Utf8Glyph, set_byte, utf8_glyph_bytes, Utf16Glyph, utf16_glyph, utf16_glyph_bytes, reverse_bytes,
  reverse_bytes_16,
}
use system_fundamentals_c_pr.Utf.Files.{
  InFile, got, failed, read_to_bigendian, store_16, store_utf8, int_bytes, Next, stop, crash, more,
  Outcome, run,
}
use system_fundamentals_c_pr.Utf.Utf8.{
  remaining_utf8_bytes, get_utf8_decoding_function, code_point_to_utf8_glyph,
}
use system_fundamentals_c_pr.Utf.Utf16.{
  is_upper_surrogate_pair, is_lower_surrogate_pair, utf16_glyph_to_code_point,
  code_point_to_utf16le_glyph, code_point_to_utf16be_glyph,
}

-- `format_t`
pub data Format : Type 0 where
  utf16le : Format
  utf16be : Format
  utf8 : Format

abbrev pub format_value : Format → ℕ
format_value Format.utf16le = 0xfffe
format_value Format.utf16be = 0xfeff
format_value Format.utf8 = 0xbfbbef

-- `bom = FORMAT; reverse_bytes(&bom, count);`, the bytes of `bom`.
unfoldable pub reversed_bom : Format → ℕ → List ℕ
unfolding reverse_bytes
reversed_bom format count = reverse_bytes (int_bytes (format_value format)) count

-- The state of a loop from UTF-8.
pub record FromUtf8 : Type 0 where
  pub utf8_buf : Utf8Glyph
  pub infile : InFile
  pub outfile : List ℕ

-- The end of a round: decode `utf8_buf`, encode and write.
abbrev pub write_utf16 : (ℕ → Utf16Glyph × ℕ) → ℕ → FromUtf8 → Next FromUtf8
write_utf16 encode remaining_bytes s =
    elim (get_utf8_decoding_function (suc remaining_bytes) s.utf8_buf) [
      | none ↦ crash
      | some code_point ↦
          let (utf16_buf, size_of_glyph) = encode code_point in
          more
            (record s { outfile = s.outfile ++ take size_of_glyph (utf16_glyph_bytes utf16_buf) })
    ]

-- The bytes behind the first, if it asks for any.
abbrev pub read_remaining : (ℕ → Utf16Glyph × ℕ) → ℕ → FromUtf8 → Next FromUtf8
read_remaining encode zero s = write_utf16 encode 0 s
read_remaining encode (suc n) s = elim (read_to_bigendian s.infile (suc n)) [
  | failed ↦ stop (negsuc 0) s.outfile
  | got bs infile ↦
      write_utf16 encode (suc n)
        (record s { utf8_buf = store_utf8 s.utf8_buf 1 bs; infile = infile })
]

-- A round of the loop of `from_utf8_to_utf16le` and of `from_utf8_to_utf16be`, which differ in the
-- function that encodes.
unfoldable pub from_utf8_round : (ℕ → Utf16Glyph × ℕ) → FromUtf8 → Next FromUtf8
from_utf8_round encode s = elim (read_to_bigendian s.infile 1) [
  | failed ↦ stop (negsuc 0) s.outfile
  | got [] infile ↦ stop (pos 0) s.outfile
  | got (b ∷ bs) infile ↦
      let utf8_buf = set_byte s.utf8_buf 0 b in
      read_remaining encode (remaining_utf8_bytes utf8_buf.byte_0)
        (record s { utf8_buf = utf8_buf; infile = infile })
]

-- Each round reads a byte at least, so the fuel is enough.
unfoldable pub from_utf8_to_utf16le : Utf8Glyph → InFile → Outcome
from_utf8_to_utf16le stack infile =
    run (from_utf8_round code_point_to_utf16le_glyph) (suc (length infile.rest)) (record {
      utf8_buf = stack;
      infile = infile;
      outfile = take 2 (reversed_bom Format.utf16le 2);
    })

unfoldable pub from_utf8_to_utf16be : Utf8Glyph → InFile → Outcome
from_utf8_to_utf16be stack infile =
    run (from_utf8_round code_point_to_utf16be_glyph) (suc (length infile.rest)) (record {
      utf8_buf = stack;
      infile = infile;
      outfile = take 2 (reversed_bom Format.utf16be 2);
    })

-- The state of a loop from UTF-16.
pub record FromUtf16 : Type 0 where
  pub buf : Utf16Glyph
  pub infile : InFile
  pub outfile : List ℕ

-- What the two loops to UTF-8 do behind a unit: no output for the byte order mark, and then no reset
-- of the buffer either. `order` is what is done to a unit after reading.
abbrev pub write_utf8 : Utf8Glyph → FromUtf16 → Next FromUtf16
write_utf8 stack s =
    if s.buf.lower_bytes == 0xfeff
    then more s
    else (let (utf8_buf, size_of_glyph) =
          code_point_to_utf8_glyph stack (utf16_glyph_to_code_point s.buf) in
        elim utf8_buf [
          | none ↦ crash
          | some g ↦ more (record s {
            buf = utf16_glyph 0 0;
            outfile = s.outfile ++ take size_of_glyph (utf8_glyph_bytes g);
          })
        ])

-- The second unit of a pair; at the end of the file `lower_bytes` keeps its value.
abbrev pub read_lower : (ℕ → ℕ) → Utf8Glyph → FromUtf16 → Next FromUtf16
read_lower order stack s = elim (read_to_bigendian s.infile 2) [
  | failed ↦ stop (negsuc 0) s.outfile
  | got bs infile ↦ write_utf8 stack (record s {
    buf = record (s.buf) { lower_bytes = order (store_16 s.buf.lower_bytes bs) };
    infile = infile;
  })
]

-- The unit read is the first of a pair, or the two fields are exchanged.
abbrev pub take_unit : (ℕ → ℕ) → Utf8Glyph → FromUtf16 → Next FromUtf16
take_unit order stack s = elim (is_upper_surrogate_pair s.buf) [
  | true ↦ read_lower order stack s
  | false ↦ write_utf8 stack (record s { buf = utf16_glyph s.buf.lower_bytes s.buf.upper_bytes })
]

-- A round of the loop of `from_utf16le_to_utf8`, where `order` changes nothing, and of
-- `from_utf16be_to_utf8`, where it is `reverse_bytes`.
unfoldable pub from_utf16_round : (ℕ → ℕ) → Utf8Glyph → FromUtf16 → Next FromUtf16
from_utf16_round order stack s = elim (read_to_bigendian s.infile 2) [
  | failed ↦ stop (negsuc 0) s.outfile
  | got [] infile ↦ stop (pos 0) s.outfile
  | got (b ∷ bs) infile ↦ take_unit order stack (record s {
    buf = record (s.buf) { upper_bytes = order (store_16 s.buf.upper_bytes (b ∷ bs)) };
    infile = infile;
  })
]

-- No mark is written.
unfoldable pub from_utf16le_to_utf8 : Utf16Glyph → Utf8Glyph → InFile → Outcome
from_utf16le_to_utf8 stack_16 stack infile =
    run (from_utf16_round (λ x. x) stack) (suc (length infile.rest))
      (record { buf = stack_16; infile = infile; outfile = [] })

unfoldable pub from_utf16be_to_utf8 : Utf16Glyph → Utf8Glyph → InFile → Outcome
from_utf16be_to_utf8 stack_16 stack infile =
    run (from_utf16_round reverse_bytes_16 stack) (suc (length infile.rest))
      (record { buf = stack_16; infile = infile; outfile = [] })

-- The lower unit where the stale `lower_bytes` looks like one, and the write.
abbrev pub swap_lower : FromUtf16 → Next FromUtf16
swap_lower s = elim (read_to_bigendian s.infile 2) [
  | failed ↦ stop (negsuc 0) s.outfile
  | got bs infile ↦
      let buf = record (s.buf) { lower_bytes = reverse_bytes_16 (store_16 s.buf.lower_bytes bs) } in
      more (record { buf = buf; infile = infile; outfile = s.outfile ++ utf16_glyph_bytes buf })
]

abbrev pub swap_upper : FromUtf16 → Next FromUtf16
swap_upper s = elim (is_lower_surrogate_pair s.buf) [
  | true ↦ swap_lower s
  | false ↦ more (record s { outfile = s.outfile ++ take 2 (utf16_glyph_bytes s.buf) })
]

unfoldable pub from_utf16le_to_utf16be_round : FromUtf16 → Next FromUtf16
from_utf16le_to_utf16be_round s = elim (read_to_bigendian s.infile 2) [
  | failed ↦ stop (negsuc 0) s.outfile
  | got [] infile ↦ stop (pos 0) s.outfile
  | got (b ∷ bs) infile ↦ swap_upper (record s {
    buf = record (s.buf) { upper_bytes = reverse_bytes_16 (store_16 s.buf.upper_bytes (b ∷ bs)) };
    infile = infile;
  })
]

unfoldable pub from_utf16le_to_utf16be : Utf16Glyph → InFile → Outcome
from_utf16le_to_utf16be stack_16 infile =
    run from_utf16le_to_utf16be_round (suc (length infile.rest))
      (record { buf = stack_16; infile = infile; outfile = take 2 (reversed_bom Format.utf16be 2) })

-- `beyond` is the memory behind `bom`, reached where six bytes are written.
abbrev pub write_bom : List ℕ → ℕ → FromUtf16 → FromUtf16
write_bom beyond bytes_to_write s = record s {
  outfile = s.outfile ++ take bytes_to_write (reversed_bom Format.utf16le 3 ++ beyond);
}

-- `bytes_read = read(…) > 0` holds 1 where something was read, and the loop is left with it.
abbrev pub lower_of_be : List ℕ → FromUtf16 → Next FromUtf16
lower_of_be beyond s = elim (read_to_bigendian s.infile 2) [
  | got (b ∷ bs) infile ↦ stop (pos 1) s.outfile
  | _ ↦ more (
      write_bom beyond 6
        (record s { buf = record (s.buf) { lower_bytes = reverse_bytes_16 s.buf.lower_bytes } }))
]

unfoldable pub from_utf16be_to_utf16le_round : List ℕ → FromUtf16 → Next FromUtf16
unfolding reversed_bom
from_utf16be_to_utf16le_round beyond s = elim (read_to_bigendian s.infile 2) [
  | failed ↦ stop (negsuc 0) s.outfile
  | got [] infile ↦ stop (pos 0) s.outfile
  | got (b ∷ bs) infile ↦
      let buf = record (s.buf) {
        upper_bytes = reverse_bytes_16 (store_16 s.buf.upper_bytes (b ∷ bs));
      } in
      let s' = record s { buf = buf; infile = infile } in
      elim (is_lower_surrogate_pair buf) [
        | true ↦ lower_of_be beyond s'
        | false ↦ more (write_bom beyond 4 s')
      ]
]

unfoldable pub from_utf16be_to_utf16le : Utf16Glyph → List ℕ → InFile → Outcome
from_utf16be_to_utf16le stack_16 beyond infile =
    run (from_utf16be_to_utf16le_round beyond) (suc (length infile.rest))
      (record { buf = stack_16; infile = infile; outfile = take 2 (reversed_bom Format.utf16le 3) })
