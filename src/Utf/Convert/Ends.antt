-- ===== src/Utf/Convert/Ends.antt =====
-- The loops of the conversions end on every file.
use system_fundamentals_c_pr.Base.{
  ℕ, zero, suc, ◌≤◌, ◌<◌, ◌≡◌, Bool, true, false, List, [], ◌∷◌, length, length-drop, ℤ, arith,
}
use system_fundamentals_c_pr.Utf.Glyph.{Utf8Glyph, Utf16Glyph}
use system_fundamentals_c_pr.Utf.Files.{InFile, read_to_bigendian, returns}
use system_fundamentals_c_pr.Utf.Utf16.{code_point_to_utf16le_glyph, code_point_to_utf16be_glyph}
use system_fundamentals_c_pr.Utf.Utf8.{remaining_utf8_bytes, get_utf8_decoding_function}
use system_fundamentals_c_pr.Utf.Convert.{
  FromUtf8, write_utf16, read_remaining, from_utf8_round, from_utf8_to_utf16le,
  from_utf8_to_utf16be,
}
use system_fundamentals_c_pr.Utf.Convert.Loop.{Progress, run-returns}

-- A round goes on only after it has read a byte, and never calls through NULL.
module _ (encode : ℕ → Utf16Glyph × ℕ) where
  abbrev measure : FromUtf8 → ℕ
  measure s = length s.infile.rest

  remaining-le : (b : ℕ) → remaining_utf8_bytes b ≤ 3
  unfolding remaining_utf8_bytes
  remaining-le b = ground arith

  write_utf16-Progress :
      (n m : ℕ) (s : FromUtf8) → n ≤ 3 → measure s < m → Progress measure m (write_utf16 encode n s)
  unfolding get_utf8_decoding_function
  write_utf16-Progress zero m s h p = p
  write_utf16-Progress (suc zero) m s h p = p
  write_utf16-Progress (suc (suc zero)) m s h p = p
  write_utf16-Progress (suc (suc (suc zero))) m s h p = p
  write_utf16-Progress (suc (suc (suc (suc n)))) m s h p = absurd (omega arith)

  read_remaining-Progress :
      (n m : ℕ) (g : Utf8Glyph) (rest out : List ℕ) (failing : Bool)
      → n ≤ 3
      → length rest < m
      → Progress measure m (
          read_remaining encode n (record {
            utf8_buf = g;
            infile = record { rest = rest; failing = failing };
            outfile = out;
          }))
  unfolding read_to_bigendian
  read_remaining-Progress zero m g rest out failing h p = write_utf16-Progress 0 m _ h p
  read_remaining-Progress (suc n) m g [] out true h p = tt
  read_remaining-Progress (suc n) m g [] out false h p = write_utf16-Progress (suc n) m _ h p
  read_remaining-Progress (suc n) m g (b ∷ bs) out failing h p =
      write_utf16-Progress (suc n) m _ h (omega (arith, length-drop n bs))

  round-Progress : (s : FromUtf8) → Progress measure (measure s) (from_utf8_round encode s)
  unfolding from_utf8_round read_to_bigendian
  round-Progress s = go s.infile.rest s.infile.failing
    where
      go :
          (rest : List ℕ) (failing : Bool)
          → Progress measure (length rest) (
              from_utf8_round encode (record {
                utf8_buf = s.utf8_buf;
                infile = record { rest = rest; failing = failing };
                outfile = s.outfile;
              }))
      go [] true = tt
      go [] false = tt
      go (b ∷ bs) failing =
          read_remaining-Progress (remaining_utf8_bytes b) _ _ bs _ failing (remaining-le b)
            (omega arith)

-- Whatever the file and the buffer hold, both conversions from UTF-8 end by returning a value, without
-- a call through NULL.
pub from_utf8-returns :
    (stack : Utf8Glyph) (infile : InFile)
    → ((ret : ℤ) × (out : List ℕ) × (from_utf8_to_utf16le stack infile ≡ returns ret out))
      × ((ret : ℤ) × (out : List ℕ) × (from_utf8_to_utf16be stack infile ≡ returns ret out))
unfolding from_utf8_to_utf16le from_utf8_to_utf16be
from_utf8-returns stack infile = (
  run-returns _ _ (round-Progress code_point_to_utf16le_glyph) _ _ (omega arith),
  run-returns _ _ (round-Progress code_point_to_utf16be_glyph) _ _ (omega arith),
)
