-- ===== src/Cipher/Polybius.antt =====
-- The Polybius cipher of hw1/src/hw1.c, and its two loops of main in hw1/src/main.c. `mode` is the value
-- of `validargs`.
pub mod Digits
pub mod RoundTrip
pub mod Table
pub mod Faults
use system_fundamentals_c_pr.Base.{
  ℕ, zero, suc, ◌+◌, ◌-◌, ◌*◌, ◌/◌, ◌%◌, Bool, true, false, not, ◌&&◌, ◌||◌, Option, none, some,
  List, [], ◌∷◌, ◌++◌, length, get_or, set, ltb, ◌==◌, if◌then◌else◌, ℤ, pos, negsuc, sub_ℕ,
}
use system_fundamentals_c_pr.Cipher.Tables.{polybius_alphabet, Globals}
use system_fundamentals_c_pr.Cipher.Args.{rows_of, cols_of}

-- `while (*(key+key_length))`: the key is copied to the front of an array; `none` is a write behind it.
unfoldable pub copy_key : List ℕ → List ℕ → Option (List ℕ)
copy_key [] table = some table
copy_key (k ∷ key) [] = none
copy_key (k ∷ key) (t ∷ table) = elim (copy_key key table) [ none ↦ none | some r ↦ some (k ∷ r) ]

-- The rounds of the inner loop that find the letter in the key.
unfoldable pub count_in : List ℕ → ℕ → ℕ
count_in [] letter = 0
count_in (k ∷ key) letter = (if letter == k then 1 else 0) + count_in key letter

-- `for(int i = key_length; …)` by the rounds left, the letters of the alphabet from i - key_length on, and
-- the index i + table_offset.
unfoldable pub fill : ℕ → List ℕ → List ℕ → ℕ → List ℕ → List ℕ
fill zero letters key index table = table
fill (suc rounds) [] key index table = fill rounds [] key (index + 1) (set table index 0)
fill (suc rounds) (letter ∷ letters) key index table =
    fill rounds letters key (index + 1 - count_in key letter) (set table index letter)

unfoldable pub generate_polybius_table : ℕ → Globals → Option Globals
unfolding copy_key fill
generate_polybius_table mode g = elim (copy_key g.key g.polybius_table) [
  | none ↦ none
  | some table ↦ some (record g {
    polybius_table =
        fill (rows_of mode * cols_of mode - length g.key) polybius_alphabet g.key (length g.key)
          table;
  })
]

-- What a call does: it prints and returns 1, or returns 0, or reads behind an array.
pub data Printed : Type 0 where
  prints : List ℕ → Printed
  refuses : Printed
  overreads : Printed

abbrev pub is_blank : ℕ → Bool
is_blank c = c == b' ' || c == b'\n' || c == b'\t'

-- One digit of `%X`.
abbrev pub hex_digit : ℕ → ℕ
hex_digit d = if ltb d 10 then b'0' + d else b'A' + (d - 10)

-- `%X` of a number below 256.
unfoldable pub hex : ℕ → List ℕ
hex n = if ltb n 16 then hex_digit n ∷ [] else hex_digit (n / 16) ∷ hex_digit (n % 16) ∷ []

-- `while(*(polybius_table+j) != input)`; `none` is the read behind the table.
unfoldable pub find_symbol : List ℕ → ℕ → Option ℕ
find_symbol [] input = none
find_symbol (c ∷ cs) input =
    if c == input
    then some 0
    else elim (find_symbol cs input) [ none ↦ none | some j ↦ some (suc j) ]

unfoldable pub encrypt_polybius : ℕ → List ℕ → ℕ → Printed
unfolding find_symbol hex
encrypt_polybius mode table input =
    if is_blank input
    then prints (input ∷ [])
    else if get_or table 0 0 == 0 && not (input == 0)
    then refuses
    else elim (find_symbol table input) [
      | none ↦ overreads
      | some j ↦ prints (hex (j / cols_of mode) ++ hex (j % cols_of mode))
    ]

unfoldable pub decrypt_polybius : ℕ → List ℕ → ℕ → ℕ → Printed
decrypt_polybius mode table row col =
    let index = row * cols_of mode + col in
    if ltb index (length table) then prints (get_or table index 0 ∷ []) else overreads

-- How the program ends: by `return` with this status and what it has printed, by `USAGE` with a status,
-- or at an access out of bounds, which may do anything.
pub data Exit : Type 0 where
  returned : ℕ → List ℕ → Exit
  usage : ℕ → Exit
  undefined : Exit

-- What was printed before.
abbrev pub printed : List ℕ → Exit → Exit
printed out (returned status rest) = returned status (out ++ rest)
printed out (usage status) = usage status
printed out undefined = undefined

-- `getchar()` stored in a `char`: the end of the input is the byte 255, and that byte the end.
abbrev pub end_of_file : ℕ
end_of_file = 255

-- `while((checkline = getchar()) != EOF)`
unfoldable pub encrypt_rest : ℕ → List ℕ → List ℕ → Exit
encrypt_rest mode table [] = returned 0 []
encrypt_rest mode table (c ∷ input) =
    let rest = encrypt_rest mode table input in
    if c == end_of_file then returned 0 [] else elim (encrypt_polybius mode table c) [
      | prints out ↦ printed out rest
      | refuses ↦ returned 0 []
      | overreads ↦ undefined
    ]

-- The first character is encrypted without a test for the end.
unfoldable pub polybius_encrypt : ℕ → List ℕ → List ℕ → Exit
unfolding encrypt_rest
polybius_encrypt mode table [] = elim (encrypt_polybius mode table end_of_file) [
  | prints out ↦ returned 0 out
  | refuses ↦ returned 0 []
  | overreads ↦ undefined
]
polybius_encrypt mode table (c ∷ input) = elim (encrypt_polybius mode table c) [
  | prints out ↦ printed out (encrypt_rest mode table input)
  | refuses ↦ returned 0 []
  | overreads ↦ undefined
]

-- The number that a digit stands for, as the code reads it.
unfoldable pub digit_value : ℕ → ℤ
digit_value c =
    if ltb c 128
    then (if ltb b'A' c then pos (c - b'A' + 10) else sub_ℕ c b'0')
    else negsuc (255 + b'0' - c)

abbrev pub below_zero : ℤ → Bool
below_zero (pos n) = false
below_zero (negsuc n) = true

-- `row` and `col` behind the tests of one round that is not blank.
unfoldable pub take_digit : ℕ → ℤ → ℤ → ℤ × ℤ
unfolding digit_value
take_digit c row col =
    if below_zero row || below_zero col
    then (if below_zero row then (digit_value c, col) else (row, digit_value c))
    else (row, col)

-- `row >= 0 && col >= 0`
unfoldable pub both : ℤ → ℤ → Option (ℕ × ℕ)
both (pos row) (pos col) = some (row, col)
both (pos row) (negsuc col) = none
both (negsuc row) col = none

-- What a round prints, with the values of `row` and `col` that it leaves.
pub data Deciphered : Type 0 where
  shows : List ℕ → ℤ → ℤ → Deciphered
  misreads_table : Deciphered

unfoldable pub decipher_round : ℕ → List ℕ → ℕ → ℤ → ℤ → Deciphered
unfolding take_digit both decrypt_polybius
decipher_round mode table c row col =
    let (row', col') = if is_blank c then (row, col) else take_digit c row col in
    let shown = if is_blank c then c ∷ [] else [] in
    elim (both row' col') [
      | none ↦ shows shown row' col'
      | some (r, k) ↦ elim (decrypt_polybius mode table r k) [
        | prints out ↦ shows (shown ++ out) (negsuc 0) (negsuc 0)
        | refuses ↦ misreads_table
        | overreads ↦ misreads_table
      ]
    ]

-- `while(checkline != EOF)`, with `row` and `col`.
unfoldable pub decrypt_loop : ℕ → List ℕ → List ℕ → ℤ → ℤ → Exit
decrypt_loop mode table [] row col = returned 0 []
decrypt_loop mode table (c ∷ input) row col =
    if c == end_of_file then returned 0 [] else elim (decipher_round mode table c row col) [
      | shows out row' col' ↦ printed out (decrypt_loop mode table input row' col')
      | misreads_table ↦ undefined
    ]

unfoldable pub polybius_decrypt : ℕ → List ℕ → List ℕ → Exit
unfolding decrypt_loop decipher_round
polybius_decrypt mode table input = decrypt_loop mode table input (negsuc 0) (negsuc 0)
