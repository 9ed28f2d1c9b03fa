-- ===== src/Cipher/Morse/Encrypt.antt =====
-- The loop of main in hw1/src/main.c that encrypts with the fractionated Morse cipher.
use system_fundamentals_c_pr.Base.{
  ℕ, zero, suc, Bool, true, false, ◌||◌, none, some, List, [], ◌∷◌, ◌++◌, replicate, ◌==◌,
  if◌then◌else◌,
}
use system_fundamentals_c_pr.Cipher.Polybius.{Exit, returned, undefined, printed, end_of_file}
use system_fundamentals_c_pr.Cipher.Morse.{
  insert_symbols, stores, rejects, misreads, encrypt_morse, buffer_encrypt,
}

-- What a round of a loop does: it prints and leaves the buffer and a flag, or it prints and ends the
-- program with EXIT_FAILURE, or it reads outside a table.
pub data Round : Type 0 where
  goes_on : List ℕ → List ℕ → Bool → Round
  fails : List ℕ → Round
  breaks : Round

-- `for(int i = 0; *(buffer+i); i++) *(buffer+i) = 0`
unfoldable pub clear_string : List ℕ → List ℕ
clear_string [] = []
clear_string (zero ∷ buffer) = zero ∷ buffer
clear_string (suc b ∷ buffer) = 0 ∷ clear_string buffer

-- From the second `bufferencrypt` to the end of a round, with what the round has printed.
unfoldable pub end_round : List ℕ → List ℕ → List ℕ → ℕ → Round
unfolding clear_string
end_round fm_key out buffer checkline = elim (buffer_encrypt fm_key buffer) [
  | none ↦ breaks
  | some (out', left) ↦
      if checkline == b'\n'
      then goes_on (out ++ out' ++ checkline ∷ []) (clear_string left) true
      else goes_on (out ++ out') left (checkline == b' ' || checkline == b'\t')
]

-- `encryptmorse` and what follows it.
unfoldable pub enter_char : List ℕ → List ℕ → List ℕ → ℕ → Round
unfolding end_round
enter_char fm_key out buffer checkline = elim (encrypt_morse buffer checkline) [
  | stores buffer' ↦ end_round fm_key out buffer' checkline
  | rejects ↦ fails out
  | misreads ↦ breaks
]

-- A round of the loop, with `last_char_space`.
unfoldable pub encrypt_round : List ℕ → List ℕ → Bool → ℕ → Round
unfolding enter_char end_round
encrypt_round fm_key buffer true checkline =
    if checkline == b' ' || checkline == b'\t'
    then end_round fm_key [] buffer checkline
    else enter_char fm_key [] buffer checkline
encrypt_round fm_key buffer false checkline =
    elim (buffer_encrypt fm_key (insert_symbols buffer (b'x' ∷ []))) [
      | none ↦ breaks
      | some (out, left) ↦ enter_char fm_key out left checkline
    ]

unfoldable pub encrypt_loop : List ℕ → List ℕ → List ℕ → Bool → Exit
unfolding encrypt_round
encrypt_loop fm_key [] buffer last_char_space = returned 0 []
encrypt_loop fm_key (c ∷ input) buffer last_char_space =
    if c == end_of_file
    then returned 0 []
    else elim (encrypt_round fm_key buffer last_char_space c) [
      | goes_on out buffer' last ↦ printed out (encrypt_loop fm_key input buffer' last)
      | fails out ↦ returned 1 out
      | breaks ↦ undefined
    ]

-- The first character is taken without a test for the end, and with no round of its own.
unfoldable pub morse_encrypt : List ℕ → List ℕ → Exit
unfolding encrypt_loop
morse_encrypt fm_key [] = elim (encrypt_morse (replicate 8 0) end_of_file) [
  | stores buffer ↦ returned 0 []
  | rejects ↦ returned 1 []
  | misreads ↦ undefined
]
morse_encrypt fm_key (c ∷ input) = elim (encrypt_morse (replicate 8 0) c) [
  | stores buffer ↦ encrypt_loop fm_key input buffer false
  | rejects ↦ returned 1 []
  | misreads ↦ undefined
]
