-- ===== src/Cipher/Polybius/Digits.antt =====
-- What the two digits of a symbol are read as (hw1/src/hw1.c, hw1/src/main.c).
use system_fundamentals_c_pr.Base.{
  ℕ, ◌<◌, ◌≡◌, ◌≢◌, refl, ap, ◌∙◌, true, false, List, [], ◌∷◌, ◌==◌, ℤ, pos, negsuc, arith,
}
use system_fundamentals_c_pr.Cipher.Polybius.{
  prints, is_blank, hex_digit, hex, decrypt_polybius, Exit, returned, usage, undefined, printed,
  end_of_file, digit_value, take_digit, both, shows, decipher_round, decrypt_loop,
}

-- A digit other than 'A' is read as its value.
pub digit_value-hex_digit : (d : ℕ) → d < 16 → d ≢ 10 → digit_value (hex_digit d) ≡ pos d
unfolding digit_value
digit_value-hex_digit d l ne = ground arith

-- The digit 'A' is read as 17.
pub digit_value-ten : digit_value (hex_digit 10) ≡ pos 17
unfolding digit_value
digit_value-ten = refl

pub hex_small : (d : ℕ) → d < 16 → hex d ≡ hex_digit d ∷ []
unfolding hex
hex_small d l = ground arith

not_blank : (d : ℕ) → d < 16 → is_blank (hex_digit d) ≡ false
not_blank d l = ground arith

not_end : (d : ℕ) → d < 16 → (hex_digit d == end_of_file) ≡ false
not_end d l = ground arith

pub printed_nil : (x : Exit) → printed [] x ≡ x
printed_nil (returned s out) = refl
printed_nil (usage s) = refl
printed_nil undefined = refl

module _ (m : ℕ) (table : List ℕ) where
  -- The first digit is kept as the row.
  row_round :
      (x r : ℕ)
      → is_blank x ≡ false
      → digit_value x ≡ pos r
      → decipher_round m table x (negsuc 0) (negsuc 0) ≡ shows [] (pos r) (negsuc 0)
  unfolding decipher_round take_digit both
  row_round x r b e = ground (arith, b, e)

  -- The second one completes the symbol.
  col_round :
      (x r k c : ℕ)
      → is_blank x ≡ false
      → digit_value x ≡ pos k
      → decrypt_polybius m table r k ≡ prints (c ∷ [])
      → decipher_round m table x (pos r) (negsuc 0) ≡ shows (c ∷ []) (negsuc 0) (negsuc 0)
  unfolding decipher_round take_digit both
  col_round x r k c b e p = ground (arith, b, e, p)

  blank_round :
      (c : ℕ)
      → is_blank c ≡ true
      → decipher_round m table c (negsuc 0) (negsuc 0) ≡ shows (c ∷ []) (negsuc 0) (negsuc 0)
  unfolding decipher_round both
  blank_round c e = ground (arith, e)

  round_loop :
      (c : ℕ) (row col row' col' : ℤ) (out input : List ℕ)
      → (c == end_of_file) ≡ false
      → decipher_round m table c row col ≡ shows out row' col'
      → decrypt_loop m table (c ∷ input) row col
        ≡ printed out (decrypt_loop m table input row' col')
  unfolding decrypt_loop
  round_loop c row col row' col' out input l e = rw (l, e) refl

  -- Two digits stand for the symbol in their row and column, as they are read.
  pub loop_digits :
      (d e r k c : ℕ) (input : List ℕ)
      → d < 16
      → e < 16
      → digit_value (hex_digit d) ≡ pos r
      → digit_value (hex_digit e) ≡ pos k
      → decrypt_polybius m table r k ≡ prints (c ∷ [])
      → decrypt_loop m table (hex_digit d ∷ hex_digit e ∷ input) (negsuc 0) (negsuc 0)
        ≡ printed (c ∷ []) (decrypt_loop m table input (negsuc 0) (negsuc 0))
  loop_digits d e r k c input l l' p q h =
      round_loop (hex_digit d) (negsuc 0) (negsuc 0) (pos r) (negsuc 0) [] (hex_digit e ∷ input)
        (not_end d l) (row_round (hex_digit d) r (not_blank d l) p)
      ∙ ap (printed []) (
          round_loop (hex_digit e) (pos r) (negsuc 0) (negsuc 0) (negsuc 0) (c ∷ []) input
            (not_end e l') (col_round (hex_digit e) r k c (not_blank e l') q h))
      ∙ printed_nil _

  pub loop_blank :
      (c : ℕ) (input : List ℕ)
      → is_blank c ≡ true
      → decrypt_loop m table (c ∷ input) (negsuc 0) (negsuc 0)
        ≡ printed (c ∷ []) (decrypt_loop m table input (negsuc 0) (negsuc 0))
  loop_blank c input e =
      round_loop c (negsuc 0) (negsuc 0) (negsuc 0) (negsuc 0) (c ∷ []) input (ground arith)
        (blank_round c e)
