-- ===== src/Cipher/Polybius/Faults.antt =====
-- Where the Polybius cipher of hw1/src/hw1.c goes wrong.
use system_fundamentals_c_pr.Base.{
  ℕ, zero, suc, ◌+◌, ◌-◌, ◌*◌, ◌/◌, ◌%◌, ◌<◌, ◌≤◌, ◌≡◌, ◌≢◌, refl, ap, ◌∙◌, true, false, not, none,
  some, List, [], ◌∷◌, ◌++◌, take, set, replicate, length, get_or, ◌==◌, arith, all_below,
  all_below-true,
}
use system_fundamentals_c_pr.Cipher.Tables.{polybius_alphabet, Globals}
use system_fundamentals_c_pr.Cipher.Args.{contains, rows_of, cols_of}
use system_fundamentals_c_pr.Cipher.Polybius.{
  Printed, prints, is_blank, hex_digit, find_symbol, encrypt_polybius, decrypt_polybius, returned,
  undefined, end_of_file, decrypt_loop, encrypt_rest, polybius_encrypt, polybius_decrypt, copy_key,
  fill, count_in, generate_polybius_table,
}
use system_fundamentals_c_pr.Cipher.Polybius.Digits.{
  digit_value-hex_digit, digit_value-ten, hex_small, loop_digits,
}
use system_fundamentals_c_pr.Cipher.Polybius.Table.{copy_key-zeros, generate_of_fill}

pub find_symbol-none :
    (table : List ℕ) (c : ℕ) → contains table c ≡ false → find_symbol table c ≡ none
unfolding find_symbol contains
find_symbol-none [] c h = refl
find_symbol-none (x ∷ table) c h = ground (arith, find_symbol-none table c)

in_table :
    (m m' : ℕ) (table : List ℕ) (k : ℕ)
    → cols_of m' ≡ cols_of m
    → 17 * cols_of m + k < length table
    → decrypt_polybius m' table 17 k ≡ prints (get_or table (17 * cols_of m + k) 0 ∷ [])
unfolding decrypt_polybius
in_table m m' table k e l = ground (arith, e, l)

module _ (m : ℕ) (table : List ℕ) (used : (get_or table 0 0 == 0) ≡ false) where
  overreads-char :
      (c : ℕ)
      → is_blank c ≡ false
      → contains table c ≡ false
      → encrypt_polybius m table c ≡ Printed.overreads
  unfolding encrypt_polybius
  overreads-char c b h = ground (arith, b, used, find_symbol-none table c h)

  -- Encrypting a text that starts with a character that is not in the table, and is no blank, reads behind
  -- the table; so does encrypting an empty text, where the byte 255 is not in the table.
  pub polybius_encrypt-undefined :
      (c : ℕ) (text : List ℕ)
      → is_blank c ≡ false
      → contains table c ≡ false
      → contains table end_of_file ≡ false
      → (polybius_encrypt m table (c ∷ text) ≡ undefined)
        × (polybius_encrypt m table [] ≡ undefined)
  unfolding polybius_encrypt
  polybius_encrypt-undefined c text b h k =
      (ground (arith, overreads-char c b h), ground (arith, overreads-char end_of_file refl k))

  -- A symbol in row 10, whose first digit is then an A, is decrypted to what stands in row 17 of the same
  -- column, where the table reaches so far.
  pub decrypt-row_ten :
      (m' c j : ℕ)
      → is_blank c ≡ false
      → find_symbol table c ≡ some j
      → j / cols_of m ≡ 10
      → j % cols_of m < 16
      → j % cols_of m ≢ 10
      → cols_of m' ≡ cols_of m
      → 17 * cols_of m + j % cols_of m < length table
      → (cipher : List ℕ) × (polybius_encrypt m table (c ∷ []) ≡ returned 0 cipher)
        × (polybius_decrypt m' table cipher
            ≡ returned 0 (get_or table (17 * cols_of m + j % cols_of m) 0 ∷ []))
  unfolding polybius_encrypt encrypt_rest encrypt_polybius polybius_decrypt decrypt_loop
  decrypt-row_ten m' c j b f row l ne same_cols inside =
      let k = j % cols_of m in
      let cell : decrypt_polybius m' table 17 k
          ≡ prints (get_or table (17 * cols_of m + k) 0 ∷ []) =
        in_table m m' table k same_cols inside in
      (
        hex_digit 10 ∷ hex_digit k ∷ [],
        ground (arith, b, used, f, row, hex_small 10 (omega arith), hex_small k l),
        loop_digits m' table 10 k 17 k (get_or table (17 * cols_of m + k) 0) [] (omega arith) l
            digit_value-ten (digit_value-hex_digit k l ne) cell,
      )

-- The table holds only letters that the rounds came to, what it held before, and zeros.
contains-set :
    (table : List ℕ) (i v c : ℕ)
    → contains table c ≡ false
    → (v == c) ≡ false
    → contains (set table i v) c ≡ false
unfolding contains
contains-set [] i v c h n = refl
contains-set (x ∷ table) zero v c h n = ground (arith, h, n)
contains-set (x ∷ table) (suc i) v c h n = ground (arith, h, contains-set table i v c)

contains-fill :
    (rounds : ℕ) (letters key : List ℕ) (i : ℕ) (table : List ℕ) (c : ℕ)
    → c ≢ 0
    → contains (take rounds letters) c ≡ false
    → contains table c ≡ false
    → contains (fill rounds letters key i table) c ≡ false
unfolding fill contains
contains-fill zero letters key i table c z h t = t
contains-fill (suc rounds) [] key i table c z h t =
    contains-fill rounds [] key (i + 1) (set table i 0) c z (take_nil rounds c)
      (contains-set table i 0 c t (ground (arith, z)))
  where
    take_nil : (n c : ℕ) → contains (take n []) c ≡ false
    take_nil zero c = refl
    take_nil (suc n) c = refl
contains-fill (suc rounds) (x ∷ letters) key i table c z h t =
    contains-fill rounds letters key (i + 1 - count_in key x) (set table i x) c z
      (ground (arith, h)) (contains-set table i x c t (ground (arith, h)))

contains-append :
    (xs ys : List ℕ) (c : ℕ)
    → contains xs c ≡ false
    → contains ys c ≡ false
    → contains (xs ++ ys) c ≡ false
unfolding contains
contains-append [] ys c h k = k
contains-append (x ∷ xs) ys c h k = ground (arith, h, contains-append xs ys c)

contains_zeros : (n c : ℕ) → c ≢ 0 → contains (replicate n 0) c ≡ false
unfolding contains
contains_zeros zero c z = refl
contains_zeros (suc n) c z = ground (arith, z, contains_zeros n c)

last_letter : all_below 94 (λ r. not (contains (take r polybius_alphabet) b'~')) ≡ true
unfolding all_below contains
last_letter = refl

without_last : (r : ℕ) → r < 94 → contains (take r polybius_alphabet) b'~' ≡ false
without_last r l =
    ground (
      arith,
      all_below-true 94 (λ r. not (contains (take r polybius_alphabet) b'~')) r last_letter l,
    )

-- Where the table has fewer cells than the key and the alphabet have characters together, the rounds end
-- before the alphabet does: the last letter is not in the table, if it is not in the key.
pub generate_polybius_table-missing :
    (m : ℕ) (g : Globals)
    → g.polybius_table ≡ replicate 257 0
    → length g.key ≤ 257
    → contains g.key b'~' ≡ false
    → rows_of m * cols_of m < length g.key + length polybius_alphabet
    → (table : List ℕ) × (generate_polybius_table m g ≡ some (record g { polybius_table = table }))
      × (contains table b'~' ≡ false)
generate_polybius_table-missing m g z l h few =
    let start = g.key ++ replicate (257 - length g.key) 0 in
    (
      fill (rows_of m * cols_of m - length g.key) polybius_alphabet g.key (length g.key) start,
      generate_of_fill m g start (ap (copy_key g.key) z ∙ copy_key-zeros g.key 257 l),
      contains-fill (rows_of m * cols_of m - length g.key) polybius_alphabet g.key (length g.key)
          start b'~' (omega arith) (without_last _ (omega arith))
          (contains-append g.key _ b'~' h (contains_zeros (257 - length g.key) b'~' (omega arith))),
    )
