-- ===== src/Cipher/Morse/Decrypt.antt =====
-- The loop of main in hw1/src/main.c that decrypts the fractionated Morse cipher.
use system_fundamentals_c_pr.Base.{
  ℕ, zero, suc, ◌+◌, ◌-◌, Bool, true, false, ◌&&◌, Option, none, some, List, [], ◌∷◌, ◌++◌, length,
  set, take, drop, replicate, ◌==◌, if◌then◌else◌,
}
use system_fundamentals_c_pr.Cipher.Tables.{morse_table}
use system_fundamentals_c_pr.Cipher.Polybius.{Exit, returned, undefined, printed, end_of_file}
use system_fundamentals_c_pr.Cipher.Morse.{stores, rejects, misreads, decrypt_morse, getindex}
use system_fundamentals_c_pr.Cipher.Morse.Encrypt.{Round, goes_on, fails, breaks, clear_string}

-- The bytes of a buffer before the first NUL.
unfoldable pub c_string : List ℕ → List ℕ
c_string [] = []
c_string (zero ∷ buffer) = []
c_string (suc b ∷ buffer) = suc b ∷ c_string buffer

-- `for(int j = 0; *(buffer+j) && *(*(morse_table+i)+j); j++)`, on the string in the buffer: whether
-- `equal` is 1.
unfoldable pub same_code : List ℕ → List ℕ → Bool
same_code [] code = false
same_code (b ∷ word) [] = false
same_code (b ∷ []) (c ∷ []) = b == c
same_code (b ∷ []) (c ∷ d ∷ code) = false
same_code (b ∷ e ∷ word) (c ∷ code) = b == c && same_code (e ∷ word) code

-- `for(int i = 0; i < 'z' - '!'; i++)`, from an index on: the character of the code.
unfoldable pub find_code : List (List ℕ) → ℕ → List ℕ → Option ℕ
unfolding same_code
find_code [] i word = none
find_code (code ∷ codes) i word =
    if same_code word code then some (i + b'!') else find_code codes (i + 1) word

unfoldable pub char_of : List ℕ → Option ℕ
unfolding find_code
char_of word = find_code (take (b'z' - b'!') morse_table) 0 word

-- The two loops that move the string behind an index to the front, with NULs where it was.
unfoldable pub move_behind : List ℕ → ℕ → List ℕ
unfolding c_string
move_behind buffer index =
    let word = c_string (drop (index + 1) buffer) in
    word ++ replicate (index + 1) 0 ++ drop (index + 1 + length word) buffer

-- `while((index = getindex(buffer, 'x', …))+1 > 0)`, with what the round has printed. A round takes an x
-- away, so the bytes of the buffer are enough fuel.
unfoldable pub split_loop : ℕ → List ℕ → List ℕ → Bool → Round
unfolding move_behind char_of
split_loop zero out buffer prep_print_space = breaks
split_loop (suc fuel) out buffer prep_print_space = elim (getindex buffer b'x') [
  | none ↦ goes_on out buffer prep_print_space
  | some zero ↦ split_loop fuel out (move_behind (set buffer 0 0) 0) true
  | some (suc i) ↦
      let space = if prep_print_space then b' ' ∷ [] else [] in
      elim (char_of (c_string (set buffer (suc i) 0))) [
        | none ↦ fails (out ++ space)
        | some c ↦
            split_loop fuel (out ++ space ++ c ∷ []) (move_behind (set buffer (suc i) 0) (suc i))
              false
      ]
]

-- A line's end: the string in the buffer is decoded and cleared.
unfoldable pub end_line : List ℕ → Round
unfolding char_of c_string clear_string
end_line buffer = elim (c_string buffer) [
  | [] ↦ goes_on (b'\n' ∷ []) buffer false
  | b ∷ word ↦ elim (char_of (b ∷ word)) [
    | none ↦ fails []
    | some c ↦ goes_on (c ∷ b'\n' ∷ []) (clear_string buffer) false
  ]
]

-- From `if(prep_print_space)` to the end of a round, for a character that ends no line.
unfoldable pub take_letter : List ℕ → List ℕ → Bool → ℕ → Round
unfolding split_loop
take_letter fm_key buffer prep_print_space checkline =
    let space = if prep_print_space then b' ' ∷ [] else [] in
    elim (decrypt_morse fm_key buffer checkline) [
      | stores buffer' ↦ split_loop (length buffer' + 1) space buffer' false
      | rejects ↦ fails space
      | misreads ↦ breaks
    ]

unfoldable pub decrypt_round : List ℕ → List ℕ → Bool → ℕ → Round
unfolding end_line take_letter
decrypt_round fm_key buffer prep_print_space checkline =
    if checkline == b'\n'
    then elim (end_line buffer) [
      | goes_on out buffer' prep ↦ split_loop (length buffer' + 1) out buffer' prep
      | fails out ↦ fails out
      | breaks ↦ breaks
    ]
    else take_letter fm_key buffer prep_print_space checkline

unfoldable pub morse_loop : List ℕ → List ℕ → List ℕ → Bool → Exit
unfolding decrypt_round
morse_loop fm_key [] buffer prep_print_space = returned 0 []
morse_loop fm_key (c ∷ input) buffer prep_print_space =
    if c == end_of_file
    then returned 0 []
    else elim (decrypt_round fm_key buffer prep_print_space c) [
      | goes_on out buffer' prep ↦ printed out (morse_loop fm_key input buffer' prep)
      | fails out ↦ returned 1 out
      | breaks ↦ undefined
    ]

-- The buffer is the table of the other cipher.
unfoldable pub morse_decrypt : List ℕ → List ℕ → List ℕ → Exit
unfolding morse_loop
morse_decrypt fm_key polybius_table input = morse_loop fm_key input polybius_table false
