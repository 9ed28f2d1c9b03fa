-- ===== src/Cipher/Tests.antt =====
-- hw1: the theorems at concrete texts, and runs of the program.
use system_fundamentals_c_pr.Base.{
  ℕ, ◌-◌, ◌≡◌, ◌⊎◌, inl, refl, false, some, List, [], ◌∷◌, ◌++◌, codes, arith, replicate, length,
}
use system_fundamentals_c_pr.Cipher.Tables.{polybius_alphabet, Globals, globals}
use system_fundamentals_c_pr.Cipher.Args.{parsed_mode, valid_args, contains}
use system_fundamentals_c_pr.Cipher.Args.Mode.{IsMode, valid_args-IsMode}
use system_fundamentals_c_pr.Cipher.Args.Sizes.{valid_args-one_size}
use system_fundamentals_c_pr.Cipher.Polybius.{
  returned, undefined, generate_polybius_table, polybius_encrypt, polybius_decrypt, find_symbol,
}
use system_fundamentals_c_pr.Cipher.Morse.{
  generate_morse_table, morse_code, print_triple, encrypt_morse, buffer_encrypt, getindex,
  decrypt_morse,
}
use system_fundamentals_c_pr.Cipher.Morse.Stream.{symbols_of, print_lines}
use system_fundamentals_c_pr.Cipher.Morse.Rounds.{encodable}
use system_fundamentals_c_pr.Cipher.Morse.Lines.{ends_with, morse_encrypt-print_lines}
use system_fundamentals_c_pr.Cipher.Morse.Encrypt.{morse_encrypt}
use system_fundamentals_c_pr.Cipher.Morse.Decrypt.{morse_decrypt}
use system_fundamentals_c_pr.Cipher.Polybius.Table.{kept, generate_polybius_table-kept}
use system_fundamentals_c_pr.Cipher.Polybius.Faults.{
  polybius_encrypt-undefined, decrypt-row_ten, generate_polybius_table-missing,
}
use system_fundamentals_c_pr.Cipher.Program.{main}
use system_fundamentals_c_pr.Cipher.Program.Texts.{encrypting, decrypting, main-Plain}

Plain_example :
    (cipher : List ℕ) × (main encrypting (codes "Hi you") ≡ returned 0 cipher)
    × (main decrypting cipher ≡ returned 0 (codes "Hi you"))
Plain_example =
    main-Plain b'H' (codes "i you")
      (omega arith, (omega arith, (inl refl, (omega arith, (omega arith, (omega arith, tt))))))

-- Eleven rows of nine, which is five cells more than the alphabet has letters.
with_key : Globals
with_key = record globals { key = codes "key" }

kept_test :
    generate_polybius_table 0xb9 with_key
    ≡ some (record with_key {
      polybius_table =
          codes "key"
          ++ (kept (codes "key") polybius_alphabet
              ++ replicate (257 - 3 - length (kept (codes "key") polybius_alphabet)) 0);
    })
unfolding with_key contains
kept_test =
    generate_polybius_table-kept 0xb9 with_key refl (refl, (refl, (refl, tt))) (omega arith)
      (omega arith)

long_key : Globals
long_key = record globals { key = codes "example" }

-- The digits of the key fill the room of the last letter: ten rows of ten.
missing_test :
    (table : List ℕ) × (generate_polybius_table 0xaa long_key
      ≡ some (record long_key { polybius_table = table }))
    × (contains table b'~' ≡ false)
unfolding long_key contains
missing_test = generate_polybius_table-missing 0xaa long_key refl (omega arith) refl (omega arith)

abbrev small_table : List ℕ
small_table = codes "abc" ++ replicate 254 0

undefined_test :
    (polybius_encrypt 0xaa small_table (codes "de") ≡ undefined)
    × (polybius_encrypt 0xaa small_table [] ≡ undefined)
unfolding contains
undefined_test = polybius_encrypt-undefined 0xaa small_table refl b'd' (codes "e") refl refl refl

-- Eleven rows of eleven: the letter at index 110 is in row 10.
abbrev wide_table : List ℕ
wide_table = replicate 110 1 ++ codes "a" ++ replicate 146 0

row_ten_test :
    (cipher : List ℕ) × (polybius_encrypt 0xbb wide_table (codes "a") ≡ returned 0 cipher)
    × (polybius_decrypt 0x20bb wide_table cipher ≡ returned 0 (0 ∷ []))
unfolding find_symbol
row_ten_test =
    decrypt-row_ten 0xbb wide_table refl 0x20bb b'a' 110 refl refl refl (omega arith) (omega arith)
      refl (omega arith)

abbrev sizes_given : List (List ℕ)
sizes_given = codes "-p" ∷ codes "-d" ∷ codes "-r" ∷ codes "12" ∷ codes "-c" ∷ codes "9" ∷ []

abbrev decrypting_12_9 : ℕ
decrypting_12_9 = 0x20c9

IsMode_example : (decrypting_12_9 ≡ 0) ⊎ ((decrypting_12_9 ≡ 0x8000) ⊎ IsMode decrypting_12_9)
unfolding valid_args
IsMode_example = valid_args-IsMode sizes_given globals globals decrypting_12_9 refl

one_size_test :
    (valid_args (codes "-p" ∷ codes "-e" ∷ codes "-r" ∷ codes "12" ∷ []) globals
      ≡ parsed_mode 0 globals)
    × (valid_args (codes "-p" ∷ codes "-e" ∷ codes "-c" ∷ codes "12" ∷ []) globals
        ≡ parsed_mode 0 globals)
one_size_test = valid_args-one_size (codes "12") globals

abbrev alphabet_key : List ℕ
alphabet_key = codes "ABCDEFGHIJKLMNOPQRSTUVWXYZ" ++ 0 ∷ []

print_lines_example :
    morse_encrypt alphabet_key (codes "MY CAT" ++ b'\n' ∷ codes "SO")
    ≡ ends_with
        (print_lines alphabet_key false (symbols_of b'M') (codes "Y CAT" ++ b'\n' ∷ codes "SO"))
unfolding encodable
print_lines_example =
    morse_encrypt-print_lines alphabet_key b'M' b'Y' (codes " CAT" ++ b'\n' ∷ codes "SO")
      (refl, (refl, (refl, (refl, (refl, (refl, (refl, (refl, (refl, tt)))))))))

-- What that is.
print_lines_test :
    print_lines alphabet_key false (symbols_of b'M') (codes "Y CAT" ++ b'\n' ∷ codes "SO")
    ≡ some (codes "OKRKGQ" ++ b'\n' ∷ codes "AW")
unfolding print_lines symbols_of morse_code print_triple
print_lines_test = refl

-- The space before a last word of one symbol is lost: the triple "xx." holds the end of the word before,
-- the space and the whole last word, and the newline comes next.
abbrev morse_encrypting : List (List ℕ)
morse_encrypting = codes "-f" ∷ codes "-e" ∷ []

abbrev morse_decrypting : List (List ℕ)
morse_decrypting = codes "-f" ∷ codes "-d" ∷ []

space_kept_test :
    main morse_encrypting (codes "S E" ++ b'\n' ∷ []) ≡ returned 0 (codes "AY" ++ b'\n' ∷ [])
unfolding main valid_args generate_morse_table morse_encrypt encrypt_morse buffer_encrypt
space_kept_test = refl

space_lost_test :
    main morse_decrypting (codes "AY" ++ b'\n' ∷ []) ≡ returned 0 (codes "SE" ++ b'\n' ∷ [])
unfolding main valid_args generate_morse_table morse_decrypt decrypt_morse getindex
space_lost_test = refl
