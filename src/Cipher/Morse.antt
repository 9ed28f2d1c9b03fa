-- ===== src/Cipher/Morse.antt =====
-- The fractionated Morse cipher of hw1/src/hw1.c. A buffer is the list of its bytes.
pub mod Stream
pub mod Buffer
pub mod Encrypt
pub mod Decrypt
pub mod Rounds
pub mod Lines
use system_fundamentals_c_pr.Base.{
  ℕ, zero, suc, ◌+◌, ◌-◌, ◌*◌, ◌/◌, ◌%◌, Bool, true, false, not, ◌&&◌, ◌||◌, Option, none, some,
  List, [], ◌∷◌, ◌++◌, length, get_or, set, drop, replicate, ltb, ◌==◌, if◌then◌else◌,
}
use system_fundamentals_c_pr.Cipher.Tables.{fm_alphabet, morse_table, fractionated_table, Globals}
use system_fundamentals_c_pr.Cipher.Polybius.{copy_key, count_in, is_blank}

-- `for(int i = key_length; *(fm_alphabet+i-key_length); i++)` by the letters left and the index
-- i + offset; `none` is a write behind the array.
unfoldable pub fill_letters : List ℕ → List ℕ → ℕ → List ℕ → Option (List ℕ)
unfolding count_in
fill_letters [] key index table = some table
fill_letters (letter ∷ letters) key index table =
    if ltb index (length table)
    then fill_letters letters key (index + 1 - count_in key letter) (set table index letter)
    else none

unfoldable pub generate_morse_table : Globals → Option Globals
unfolding copy_key fill_letters
generate_morse_table g = elim (copy_key g.key g.fm_key) [
  | none ↦ none
  | some table ↦ elim (fill_letters fm_alphabet g.key (length g.key) table) [
    | none ↦ none
    | some fm_key ↦ some (record g { fm_key = fm_key })
  ]
]

-- The loops that put the characters of a string into the free bytes of a buffer, from the front, as long
-- as there are both.
unfoldable pub insert_symbols : List ℕ → List ℕ → List ℕ
insert_symbols [] symbols = []
insert_symbols (b ∷ buffer) [] = b ∷ buffer
insert_symbols (zero ∷ buffer) (s ∷ symbols) = s ∷ insert_symbols buffer symbols
insert_symbols (suc b ∷ buffer) (s ∷ symbols) = suc b ∷ insert_symbols buffer (s ∷ symbols)

-- What a call does to the buffer: it returns 1, or 0, or reads outside a table.
pub data Stored : Type 0 where
  stores : List ℕ → Stored
  rejects : Stored
  misreads : Stored

-- `*(morse_table+(input-'!'))`; `none` is a read outside the table, below it or behind it.
unfoldable pub morse_code : ℕ → Option (List ℕ)
morse_code input =
    if ltb input b'!' || ltb (b'!' + length morse_table) (input + 1)
    then none
    else some (get_or morse_table (input - b'!') [])

unfoldable pub encrypt_morse : List ℕ → ℕ → Stored
unfolding insert_symbols morse_code
encrypt_morse buffer input =
    if is_blank input then stores (insert_symbols buffer (b'x' ∷ [])) else elim (morse_code input) [
      | none ↦ misreads
      | some [] ↦ rejects
      | some (s ∷ symbols) ↦ stores (insert_symbols buffer (s ∷ symbols))
    ]

-- `for(index = 0; *(fm_key+index) && *(fm_key+index) != input; index++)`; `none` is a read behind it.
unfoldable pub letter_index : List ℕ → ℕ → Option ℕ
letter_index [] input = none
letter_index (c ∷ cs) input =
    if c == 0 || c == input
    then some 0
    else elim (letter_index cs input) [ none ↦ none | some i ↦ some (suc i) ]

unfoldable pub decrypt_morse : List ℕ → List ℕ → ℕ → Stored
unfolding letter_index insert_symbols
decrypt_morse fm_key buffer input = elim (letter_index fm_key input) [
  | none ↦ misreads
  | some index ↦
      if ltb index (length fractionated_table)
      then stores (insert_symbols buffer (get_or fractionated_table index []))
      else misreads
]

-- The first index at which the buffer holds the value; `none` is -1.
unfoldable pub getindex : List ℕ → ℕ → Option ℕ
getindex [] value = none
getindex (b ∷ buffer) value =
    if b == value
    then some 0
    else elim (getindex buffer value) [ none ↦ none | some i ↦ some (suc i) ]

-- `for(int j = 0; j < 3; j++)`: the first three bytes of the buffer are the entry.
unfoldable pub same_triple : List ℕ → List ℕ → Bool
same_triple buffer entry =
    get_or buffer 0 0 == get_or entry 0 0
    && get_or buffer 1 0 == get_or entry 1 0
    && get_or buffer 2 0 == get_or entry 2 0

-- `while(*(fm_key+i)) { … }`: the letter that is printed, if any; `none` is a read behind a table.
unfoldable pub print_triple : List ℕ → List (List ℕ) → List ℕ → Option (List ℕ)
unfolding same_triple
print_triple [] entries buffer = none
print_triple (zero ∷ letters) entries buffer = some []
print_triple (suc letter ∷ letters) [] buffer = none
print_triple (suc letter ∷ letters) (entry ∷ entries) buffer =
    if same_triple buffer entry then some (suc letter ∷ []) else print_triple letters entries buffer

-- The loop that moves the buffer by three places, with NULs behind.
unfoldable pub move_by_three : List ℕ → List ℕ
move_by_three buffer = drop 3 buffer ++ replicate 3 0

-- `while(*(buffer+2)) { … }`: what is printed, and the buffer left; the fuel is a round for each byte.
unfoldable pub buffer_loop : ℕ → List ℕ → List ℕ → Option (List ℕ × List ℕ)
unfolding print_triple move_by_three
buffer_loop zero fm_key buffer = some ([], buffer)
buffer_loop (suc fuel) fm_key buffer =
    let rest = buffer_loop fuel fm_key (move_by_three buffer) in
    if get_or buffer 2 0 == 0
    then some ([], buffer)
    else elim (print_triple fm_key fractionated_table buffer) [
      | none ↦ none
      | some out ↦ elim rest [ none ↦ none | some (out', left) ↦ some (out ++ out', left) ]
    ]

unfoldable pub buffer_encrypt : List ℕ → List ℕ → Option (List ℕ × List ℕ)
unfolding buffer_loop
buffer_encrypt fm_key buffer = buffer_loop (length buffer) fm_key buffer
