-- ===== src/Cipher/Polybius/RoundTrip.antt =====
-- Decrypting what the Polybius cipher of hw1/src/hw1.c made.
use system_fundamentals_c_pr.Base.{
  ℕ, All, zero, suc, ◌+◌, ◌*◌, ◌/◌, ◌%◌, ◌<◌, ◌≡◌, ◌≢◌, ◌⊎◌, inl, inr, refl, ap, ◌∙◌, true, false,
  some, Option-cases, List, [], ◌∷◌, ◌++◌, length, get_or, ◌==◌, negsuc, arith,
}
use system_fundamentals_c_pr.Cipher.Args.{cols_of}
use system_fundamentals_c_pr.Cipher.Polybius.{
  prints, is_blank, hex_digit, find_symbol, encrypt_polybius, decrypt_polybius, Exit, returned,
  printed, end_of_file, decrypt_loop, encrypt_rest, polybius_encrypt,
}
use system_fundamentals_c_pr.Cipher.Polybius.Digits.{
  digit_value-hex_digit, hex_small, loop_digits, loop_blank,
}

-- A symbol that is found stands at its index.
pub find_symbol-get_or :
    (table : List ℕ) (c j : ℕ)
    → find_symbol table c ≡ some j
    → (j < length table) × (get_or table j 0 ≡ c)
unfolding find_symbol
find_symbol-get_or [] c j e = absurd (cc e)
find_symbol-get_or (x ∷ table) c zero e = elim (Option-cases (find_symbol table c)) [
  | inl f ↦ ground (arith, e, f)
  | inr (i, f) ↦ ground (arith, e, f)
]
find_symbol-get_or (x ∷ table) c (suc j) e = elim (Option-cases (find_symbol table c)) [
  | inl f ↦ ground (arith, e, f)
  | inr (i, f) ↦ ground (arith, e, f, find_symbol-get_or table c i f)
]

-- The index of a symbol has two digits, and each is read as it was written.
pub record IsReadable (cols j : ℕ) : Type 0 where
  pub row_digit : j / cols < 16
  pub row_ne : j / cols ≢ 10
  pub col_digit : j % cols < 16
  pub col_ne : j % cols ≢ 10
  pub again : j / cols * cols + j % cols ≡ j

-- The value of `validargs` is m for encryption and m' for decryption.
module _ (m m' : ℕ) (same_cols : cols_of m' ≡ cols_of m) (table : List ℕ)
    (used : (get_or table 0 0 == 0) ≡ false) where
  -- A character that is printed as it is, or by digits that are read as they were written.
  unfoldable pub Survives : ℕ → Type 0
  Survives c =
      (is_blank c ≡ true)
      ⊎ ((is_blank c ≡ false) × (j : ℕ) × (find_symbol table c ≡ some j) × IsReadable (cols_of m) j)

  pub digits_of :
      (c j : ℕ)
      → is_blank c ≡ false
      → find_symbol table c ≡ some j
      → IsReadable (cols_of m) j
      → encrypt_polybius m table c
        ≡ prints (hex_digit (j / cols_of m) ∷ hex_digit (j % cols_of m) ∷ [])
  unfolding encrypt_polybius
  digits_of c j b f r = ground (
    arith,
    b,
    used,
    f,
    hex_small (j / cols_of m) r.row_digit,
    hex_small (j % cols_of m) r.col_digit,
  )

  blank_of : (c : ℕ) → is_blank c ≡ true → encrypt_polybius m table c ≡ prints (c ∷ [])
  unfolding encrypt_polybius
  blank_of c b = ground (arith, b)

  cell_of :
      (c j : ℕ)
      → find_symbol table c ≡ some j
      → IsReadable (cols_of m) j
      → decrypt_polybius m' table (j / cols_of m) (j % cols_of m) ≡ prints (c ∷ [])
  unfolding decrypt_polybius
  cell_of c j f r =
      let (l, e) = find_symbol-get_or table c j f in ground (arith, same_cols, r.again, l, e)

  -- One character, encrypted and read again.
  step :
      (c : ℕ)
      → Survives c
      → (out : List ℕ) × (encrypt_polybius m table c ≡ prints out)
        × ((input : List ℕ)
            → decrypt_loop m' table (out ++ input) (negsuc 0) (negsuc 0)
              ≡ printed (c ∷ []) (decrypt_loop m' table input (negsuc 0) (negsuc 0)))
  unfolding Survives
  step c (inl b) = (c ∷ [], blank_of c b, λ input. loop_blank m' table c input b)
  step c (inr (b, j, f, r)) = (
    hex_digit (j / cols_of m) ∷ hex_digit (j % cols_of m) ∷ [],
    digits_of c j b f r,
    λ input.
        loop_digits m' table (j / cols_of m) (j % cols_of m) (j / cols_of m) (j % cols_of m) c input
          r.row_digit r.col_digit (digit_value-hex_digit (j / cols_of m) r.row_digit r.row_ne)
          (digit_value-hex_digit (j % cols_of m) r.col_digit r.col_ne) (cell_of c j f r),
  )

  -- The text is encrypted without an access out of bounds, and decrypting gives it back.
  abbrev pub Recovers : List ℕ → Exit → Type 0
  Recovers text encrypted =
      (cipher : List ℕ) × (encrypted ≡ returned 0 cipher)
      × (decrypt_loop m' table cipher (negsuc 0) (negsuc 0) ≡ returned 0 text)

  abbrev pub Symbol : ℕ → Type 0
  Symbol c = Survives c × ((c == end_of_file) ≡ false)

  encrypt_rest-Recovers :
      (text : List ℕ) → All Symbol text → Recovers text (encrypt_rest m table text)
  unfolding encrypt_rest decrypt_loop
  encrypt_rest-Recovers [] h = ([], refl, refl)
  encrypt_rest-Recovers (c ∷ text) ((s, n), h) =
      let (out, e, d) = step c s in
      let (cipher, f, g) = encrypt_rest-Recovers text h in
      (out ++ cipher, ground (arith, n, e, f), d cipher ∙ ap (printed (c ∷ [])) g)

  pub polybius_encrypt-Recovers :
      (c : ℕ) (text : List ℕ)
      → All Symbol (c ∷ text)
      → Recovers (c ∷ text) (polybius_encrypt m table (c ∷ text))
  unfolding polybius_encrypt
  polybius_encrypt-Recovers c text ((s, n), h) =
      let (out, e, d) = step c s in
      let (cipher, f, g) = encrypt_rest-Recovers text h in
      (out ++ cipher, ground (arith, e, f), d cipher ∙ ap (printed (c ∷ [])) g)
