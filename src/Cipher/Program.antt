-- ===== src/Cipher/Program.antt =====
-- `main` of hw1/src/main.c, on the arguments and the bytes of the standard input.
pub mod Texts
use system_fundamentals_c_pr.Base.{
  ℕ, Bool, not, Option, none, some, List, bit_and, ◌==◌, if◌then◌else◌,
}
use system_fundamentals_c_pr.Cipher.Tables.{Globals, globals}
use system_fundamentals_c_pr.Cipher.Args.{Parsed, parsed_mode, outside_bounds, valid_args}
use system_fundamentals_c_pr.Cipher.Polybius.{
  Exit, usage, undefined, generate_polybius_table, polybius_encrypt, polybius_decrypt,
}
use system_fundamentals_c_pr.Cipher.Morse.{generate_morse_table}
use system_fundamentals_c_pr.Cipher.Morse.Encrypt.{morse_encrypt}
use system_fundamentals_c_pr.Cipher.Morse.Decrypt.{morse_decrypt}

abbrev pub has_flag : ℕ → ℕ → Bool
has_flag mode flag = not (bit_and mode flag == 0)

-- The ciphers, by the value of `validargs`.
unfoldable pub run_cipher : ℕ → Globals → List ℕ → Exit
run_cipher mode g input =
    if has_flag mode 0x4000
    then elim (generate_morse_table g) [
      | none ↦ undefined
      | some g' ↦
          if has_flag mode 0x2000
          then morse_decrypt g'.fm_key g'.polybius_table input
          else morse_encrypt g'.fm_key input
    ]
    else elim (generate_polybius_table mode g) [
      | none ↦ undefined
      | some g' ↦
          if has_flag mode 0x2000
          then polybius_decrypt mode g'.polybius_table input
          else polybius_encrypt mode g'.polybius_table input
    ]

unfoldable pub main : List (List ℕ) → List ℕ → Exit
unfolding run_cipher
main argv input = elim (valid_args argv globals) [
  | outside_bounds ↦ undefined
  | parsed_mode m g ↦
      if has_flag m 0x8000 then usage 0 else if m == 0 then usage 1 else run_cipher m g input
]
