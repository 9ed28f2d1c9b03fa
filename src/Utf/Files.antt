-- ===== src/Utf/Files.antt =====
-- hw2/src/wrappers.c: reads and writes of files, as the conversions see them.
use system_fundamentals_c_pr.Base.{
  ℕ, pos, negsuc, zero, suc, ◌+◌, ◌/◌, ◌%◌, List, [], ◌∷◌, Bool, take, drop, ℤ, set, if◌then◌else◌,
}
use system_fundamentals_c_pr.Utf.Glyph.{Utf8Glyph, set_byte, bytes_16, from_bytes_16}

-- A file open for reading: the bytes from the offset on, and whether the device fails behind them.
pub record InFile : Type 0 where
  pub rest : List ℕ
  pub failing : Bool

-- What `read` says: the bytes stored, none of them at the end of the file, or -1.
pub data ReadResult : Type 0 where
  got : List ℕ → InFile → ReadResult
  failed : ReadResult

-- `read` returns -1 or 0 only where nothing is left, and else up to `count` bytes.
unfoldable pub read_to_bigendian : InFile → ℕ → ReadResult
read_to_bigendian fd count = elim fd.rest [
  | [] ↦ if fd.failing then failed else got [] fd
  | b ∷ bs ↦ got (take count fd.rest) (record fd { rest = drop count fd.rest })
]

-- The bytes that `read` stored stand at the start of the buffer, the others stay.
abbrev pub store : List ℕ → ℕ → List ℕ → List ℕ
store buf i [] = buf
store buf i (b ∷ bs) = store (set buf i b) (i + 1) bs

abbrev pub store_16 : ℕ → List ℕ → ℕ
store_16 x bs = from_bytes_16 (store (bytes_16 x) 0 bs)

-- `read(infile, &glyph.bytes[i], …)`
abbrev pub store_utf8 : Utf8Glyph → ℕ → List ℕ → Utf8Glyph
store_utf8 g i [] = g
store_utf8 g i (b ∷ bs) = store_utf8 (set_byte g i b) (suc i) bs

-- The four bytes of an `int` that is not negative.
abbrev pub int_bytes : ℕ → List ℕ
int_bytes x = (x % 256) ∷ (x / 256 % 256) ∷ (x / 65536 % 256) ∷ (x / 16777216 % 256) ∷ []

-- What a round of a conversion's loop leads to: the value returned, a call through NULL, or the next
-- round.
pub data Next (S : Type 0) : Type 0 where
  stop : ℤ → List ℕ → Next S
  crash : Next S
  more : S → Next S

-- How a conversion ends: the value returned with the bytes written, or a call through NULL.
pub data Outcome : Type 0 where
  returns : ℤ → List ℕ → Outcome
  crashes : Outcome
  out_of_fuel : Outcome

unfoldable pub run : {S : Type 0} → (S → Next S) → ℕ → S → Outcome
run step zero s = out_of_fuel
run step (suc fuel) s = elim (step s) [
  | stop ret out ↦ returns ret out
  | crash ↦ crashes
  | more s' ↦ run step fuel s'
]

-- What `ret = bytes_read` is behind a loop that reads up to the end: -1 only if the device fails.
abbrev pub ending_value : Bool → ℤ
ending_value failing = if failing then negsuc 0 else pos 0
