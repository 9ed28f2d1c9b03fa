-- ===== src/Cipher/Args.antt =====
-- `validargs` and `isvalidchar` of hw1/src/hw1.c. An argument is its bytes without the final NUL, and the
-- name of the program is left out.
pub mod States
pub mod Mode
pub mod Sizes
use system_fundamentals_c_pr.Base.{
  ℕ, zero, suc, ◌+◌, ◌-◌, ◌*◌, ◌/◌, ◌%◌, ◌^◌, Bool, true, false, not, ◌&&◌, ◌||◌, Option, none,
  some, List, [], ◌∷◌, length, bit_and, bit_or, ltb, ◌==◌, if◌then◌else◌,
}
use system_fundamentals_c_pr.Cipher.Tables.{polybius_alphabet, fm_alphabet, Globals}

-- What becomes of a character at the end of the string in an array.
pub data Noted : Type 0 where
  repeated : Noted
  noted : List ℕ → Noted
  past_end : Noted

-- `while(*repeatcheck != 0) { … }` and `*repeatcheck = symbol` behind it.
unfoldable pub note_symbol : List ℕ → ℕ → Noted
note_symbol [] symbol = past_end
note_symbol (zero ∷ cs) symbol = noted (symbol ∷ cs)
note_symbol (suc c ∷ cs) symbol =
    let rest = note_symbol cs symbol in
    if suc c == symbol
    then repeated
    else elim rest [ repeated ↦ repeated | noted cs' ↦ noted (suc c ∷ cs') | past_end ↦ past_end ]

unfoldable pub contains : List ℕ → ℕ → Bool
contains [] symbol = false
contains (c ∷ cs) symbol = c == symbol || contains cs symbol

-- How a check ends: with `return 0`, with the variables as they are then, or at an access that is out of
-- bounds. No variable is read any more behind `return 0`.
pub data Checked : Type 0 where
  invalid : Checked
  valid : Globals → Checked
  overruns : Checked

unfoldable pub is_valid_char : Globals → ℕ → Bool → Checked
unfolding note_symbol contains
is_valid_char g symbol true = elim (note_symbol g.fm_key symbol) [
  | repeated ↦ invalid
  | past_end ↦ overruns
  | noted cs ↦ if contains fm_alphabet symbol then valid (record g { fm_key = cs }) else invalid
]
is_valid_char g symbol false = elim (note_symbol g.polybius_table symbol) [
  | repeated ↦ invalid
  | past_end ↦ overruns
  | noted cs ↦
      if contains polybius_alphabet symbol
      then valid (record g { polybius_table = cs })
      else invalid
]

-- The tests of both loops over an argument: a newline, a space, or its end.
abbrev pub ends_word : ℕ → Bool
ends_word c = c == b'\n' || c == b' '

-- `while(*arg != '\n' && …)`: the characters of the key, up to a space.
unfoldable pub check_key : Globals → List ℕ → Bool → Checked
unfolding is_valid_char
check_key g [] fractionated = valid g
check_key g (c ∷ cs) fractionated =
    if ends_word c then valid g else elim (is_valid_char g c fractionated) [
      | invalid ↦ invalid
      | overruns ↦ overruns
      | valid g' ↦ check_key g' cs fractionated
    ]

-- The number of rows or columns, modulo 2 ^ 32; `none` is `return 0` at a character above '9', or with a
-- sign. A character below '0' is taken as a digit that is negative.
unfoldable pub read_number : List ℕ → ℕ → Option ℕ
read_number [] num = some num
read_number (c ∷ cs) num =
    let rest = read_number cs ((num * 10 + c + 2 ^ 32 - b'0') % 2 ^ 32) in
    if ends_word c then some num else if ltb b'9' c then none else rest

-- A number that is negative is one above 15 here.
unfoldable pub read_size : List ℕ → Option ℕ
unfolding read_number
read_size cs = elim (read_number cs 0) [
  | none ↦ none
  | some num ↦ if ltb 15 num || ltb num 9 then none else some num
]

pub data Flag : Type 0 where
  help polybius fractionated encrypt decrypt key_follows rows_follow columns_follow other : Flag
  too_long outside : Flag

-- The chain of tests on the second character of an argument, with the value of `count`; the first
-- character is not looked at. An argument of fewer than two characters is read behind its end.
unfoldable pub flag_of : List ℕ → ℕ → Flag
flag_of [] count = outside
flag_of (a ∷ []) count = outside
flag_of (a ∷ b ∷ c ∷ cs) count = too_long
flag_of (a ∷ b ∷ []) count =
    if b == b'h'
    then help
    else if b == b'p' && count == 1
    then polybius
    else if b == b'f' && count == 1
    then fractionated
    else if b == b'e' && count == 2
    then encrypt
    else if b == b'd' && count == 2
    then decrypt
    else if b == b'k' && ltb 2 count
    then key_follows
    else if b == b'r' && ltb 2 count
    then rows_follow
    else if b == b'c' && ltb 2 count
    then columns_follow
    else other

-- What the next argument is read as.
pub data Awaited : Type 0 where
  flag_next key_next rows_next columns_next : Awaited

-- The value of `validargs` with the variables, or an access out of bounds.
pub data Parsed : Type 0 where
  parsed_mode : ℕ → Globals → Parsed
  outside_bounds : Parsed

-- `return 0` with the variables as they are at the start: none is read any more.
abbrev pub is_fractionated : ℕ → Bool
is_fractionated state = not (bit_and state 0x4000 == 0)

abbrev pub rows_of : ℕ → ℕ
rows_of state = bit_and state 0xf0 / 0x10

abbrev pub cols_of : ℕ → ℕ
cols_of state = bit_and state 0xf

-- `while(*(temptable+j) > 0) *(temptable+j) = 0`
unfoldable pub clear_table : List ℕ → List ℕ
clear_table [] = []
clear_table (c ∷ cs) =
    let rest = clear_table cs in if ltb 0 c && ltb c 128 then 0 ∷ rest else c ∷ cs

-- Behind the loop over the arguments.
unfoldable pub conclude : ℕ → ℕ → Globals → Parsed
unfolding clear_table
conclude count state g =
    let return_state =
      if bit_and state 0xff == 0 && not (is_fractionated state) then bit_or state 0xaa else state in
    if ltb count 2
    then parsed_mode 0 g
    else if is_fractionated return_state
    then parsed_mode return_state (record g { fm_key = clear_table g.fm_key })
    else if ltb (rows_of return_state * cols_of return_state) (length polybius_alphabet)
    then parsed_mode 0 g
    else parsed_mode return_state (record g { polybius_table = clear_table g.polybius_table })

-- What an argument does: it ends `validargs`, or the loop goes on with these values.
pub data Taken : Type 0 where
  ends : Parsed → Taken
  goes : Awaited → ℕ → ℕ → Globals → Taken

-- The branches behind the tests on a flag.
unfoldable pub take_flag : Flag → ℕ → ℕ → Globals → Taken
take_flag outside count state g = ends outside_bounds
take_flag too_long count state g = ends (parsed_mode 0 g)
take_flag help count state g = ends (parsed_mode 0x8000 g)
take_flag polybius count state g = goes flag_next count (bit_or state 0) g
take_flag fractionated count state g = goes flag_next count (bit_or state 0x4000) g
take_flag encrypt count state g = goes flag_next count (bit_or state 0) g
take_flag decrypt count state g = goes flag_next count (bit_or state 0x2000) g
take_flag key_follows count state g =
    if length g.key == 0 then goes key_next count state g else ends (parsed_mode 0 g)
take_flag rows_follow count state g =
    if is_fractionated state || not (bit_and state 0xf0 == 0)
    then ends (parsed_mode 0 g)
    else goes rows_next count state g
take_flag columns_follow count state g =
    if is_fractionated state || not (bit_and state 0xf == 0)
    then ends (parsed_mode 0 g)
    else goes columns_next count state g
take_flag other count state g = goes flag_next 0 state g

-- An argument where a flag, a key or a number is awaited.
unfoldable pub take_argument : List ℕ → Awaited → ℕ → ℕ → Globals → Taken
unfolding flag_of take_flag check_key read_size
take_argument arg flag_next count state g = take_flag (flag_of arg (count + 1)) (count + 1) state g
take_argument arg key_next count state g = elim (check_key g arg (is_fractionated state)) [
  | invalid ↦ ends (parsed_mode 0 g)
  | overruns ↦ ends outside_bounds
  | valid g' ↦ goes flag_next count state (record g' { key = arg })
]
take_argument arg rows_next count state g = elim (read_size arg) [
  | none ↦ ends (parsed_mode 0 g)
  | some num ↦ goes flag_next count (bit_or state (num * 0x10)) g
]
take_argument arg columns_next count state g = elim (read_size arg) [
  | none ↦ ends (parsed_mode 0 g)
  | some num ↦ goes flag_next count (bit_or state num) g
]

-- The loop over the arguments. Behind the last of them `argv` holds NULL.
unfoldable pub parse : List (List ℕ) → Awaited → ℕ → ℕ → Globals → Parsed
parse [] flag_next count state g = conclude count state g
parse [] key_next count state g = outside_bounds
parse [] rows_next count state g = outside_bounds
parse [] columns_next count state g = outside_bounds
parse (arg ∷ args) awaited count state g = elim (take_argument arg awaited count state g) [
  | ends parsed ↦ parsed
  | goes awaited' count' state' g' ↦ parse args awaited' count' state' g'
]

unfoldable pub valid_args : List (List ℕ) → Globals → Parsed
unfolding parse take_argument conclude
valid_args argv g = parse argv flag_next 0 0 (record g { key = [] })
