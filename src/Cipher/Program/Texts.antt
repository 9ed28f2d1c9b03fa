-- ===== src/Cipher/Program/Texts.antt =====
-- The Polybius cipher as the program runs it with `-p -e` and `-p -d` (hw1/src/main.c).
use system_fundamentals_c_pr.Base.{
  ℕ, All, ◌+◌, ◌-◌, ◌<◌, ◌≤◌, ◌≡◌, ◌⊎◌, inl, inr, refl, ap, ◌∙◌, true, false, none, some,
  Option-cases, List, [], ◌∷◌, ◌++◌, codes, replicate, get_or, ◌==◌, arith, all_below,
  all_below-true,
}
use system_fundamentals_c_pr.Cipher.Tables.{polybius_alphabet, globals}
use system_fundamentals_c_pr.Cipher.Args.{parsed_mode, valid_args}
use system_fundamentals_c_pr.Cipher.Polybius.{
  is_blank, find_symbol, returned, generate_polybius_table, polybius_encrypt, polybius_decrypt,
  count_in,
}
use system_fundamentals_c_pr.Cipher.Polybius.RoundTrip.{
  IsReadable, Survives, Symbol, polybius_encrypt-Recovers,
}
use system_fundamentals_c_pr.Cipher.Program.{run_cipher, main}

abbrev pub encrypting : List (List ℕ)
encrypting = codes "-p" ∷ codes "-e" ∷ []

abbrev pub decrypting : List (List ℕ)
decrypting = codes "-p" ∷ codes "-d" ∷ []

-- The table of the two calls: ten rows of ten, and no key.
default_table : List ℕ
default_table = polybius_alphabet ++ replicate 163 0

args-encrypting : valid_args encrypting globals ≡ parsed_mode 0xaa globals
unfolding valid_args
args-encrypting = refl

args-decrypting : valid_args decrypting globals ≡ parsed_mode 0x20aa globals
unfolding valid_args
args-decrypting = refl

table_of_default :
    generate_polybius_table 0xaa globals ≡ some (record globals { polybius_table = default_table })
unfolding generate_polybius_table default_table count_in
table_of_default = refl

table_of_decrypting :
    generate_polybius_table 0x20aa globals
    ≡ some (record globals { polybius_table = default_table })
unfolding generate_polybius_table default_table count_in
table_of_decrypting = refl

main-encrypting :
    (input : List ℕ) → main encrypting input ≡ polybius_encrypt 0xaa default_table input
unfolding main
main-encrypting input = rw (main, args-encrypting, run_cipher, table_of_default) refl

main-decrypting :
    (input : List ℕ) → main decrypting input ≡ polybius_decrypt 0x20aa default_table input
unfolding main
main-decrypting input = rw (main, args-decrypting, run_cipher, table_of_decrypting) refl

found_table :
    all_below 94 (λ d. elim (find_symbol default_table (d + 33)) [ none ↦ false | some j ↦ j == d ])
    ≡ true
unfolding all_below find_symbol default_table
found_table = refl

found : (d : ℕ) → d < 94 → find_symbol default_table (d + 33) ≡ some d
found d l =
    let h =
      all_below-true 94
        (λ d. elim (find_symbol default_table (d + 33)) [ none ↦ false | some j ↦ j == d ]) d
        found_table l in
    elim (Option-cases (find_symbol default_table (d + 33))) [
      | inl e ↦ ground (arith, h, e)
      | inr (j, e) ↦ ground (arith, h, e)
    ]

used : (get_or default_table 0 0 == 0) ≡ false
unfolding default_table
used = refl

-- A character of the alphabet, a space, a newline or a tab.
abbrev pub Plain : ℕ → Type 0
Plain c = (is_blank c ≡ true) ⊎ ((33 ≤ c) × (c < 127))

readable : (d : ℕ) → d < 94 → IsReadable 10 d
readable d l = omega arith

Plain-Symbol : (c : ℕ) → Plain c → Symbol 0xaa 0x20aa refl default_table used c
unfolding Survives
Plain-Symbol c (inl b) = (inl b, ground (arith, b))
Plain-Symbol c (inr (l, u)) =
    let e : c ≡ c - 33 + 33 = omega arith in
    (
      inr (
        ground arith,
        c - 33,
        ap (find_symbol default_table) e ∙ found (c - 33) (omega arith),
        readable (c - 33) (omega arith),
      ),
      ground arith,
    )

All-Symbol :
    (text : List ℕ) → All Plain text → All (Symbol 0xaa 0x20aa refl default_table used) text
All-Symbol [] h = tt
All-Symbol (c ∷ text) (p, h) = (Plain-Symbol c p, All-Symbol text h)

-- Without a key, rows and columns, the program encrypts every text that is not empty and holds only
-- characters of the alphabet and blanks, and decrypts the result to the same text; both runs end with
-- EXIT_SUCCESS.
pub main-Plain :
    (c : ℕ) (text : List ℕ)
    → All Plain (c ∷ text)
    → (cipher : List ℕ) × (main encrypting (c ∷ text) ≡ returned 0 cipher)
      × (main decrypting cipher ≡ returned 0 (c ∷ text))
unfolding polybius_decrypt
main-Plain c text h =
    let (cipher, e, d) =
      polybius_encrypt-Recovers 0xaa 0x20aa refl default_table used c text
        (All-Symbol (c ∷ text) h) in
    (cipher, main-encrypting (c ∷ text) ∙ e, main-decrypting cipher ∙ d)
