-- ===== src/Cipher/Morse/Rounds.antt =====
-- A round of the encrypting loop in hw1/src/main.c, on a buffer of symbols.
use mathlib.Core.List.{append_assoc, append-nil}
use system_fundamentals_c_pr.Base.{
  ℕ, ◌+◌, ◌≤◌, ◌<◌, ◌≡◌, ◌≢◌, inl, inr, refl, ap, ◌∙◌, sym, Bool, true, false, not, ◌&&◌, ◌||◌,
  Option, none, some, List, [], ◌∷◌, ◌++◌, All, length, leb, ◌==◌, if◌then◌else◌, arith, Bool-cases,
  Option-cases, length-append, all_below, all_below-true,
}
use system_fundamentals_c_pr.Cipher.Polybius.{is_blank}
use system_fundamentals_c_pr.Cipher.Morse.{
  insert_symbols, stores, encrypt_morse, morse_code, buffer_encrypt,
}
use system_fundamentals_c_pr.Cipher.Morse.Stream.{
  symbols_of, is_space, added, before, print_stream, print_stream-left, print_stream-append,
}
use system_fundamentals_c_pr.Cipher.Morse.Buffer.{
  padded, insert_symbols-padded, buffer_encrypt-padded,
}
use system_fundamentals_c_pr.Cipher.Morse.Encrypt.{
  Round, goes_on, breaks, clear_string, end_round, enter_char, encrypt_round,
}

abbrev pub has_code : ℕ → Bool
has_code c = elim (morse_code c) [ none ↦ false | some [] ↦ false | some (s ∷ code) ↦ true ]

-- A blank, or a character of the Morse table.
unfoldable pub encodable : ℕ → Bool
unfolding morse_code
encodable c = is_blank c || has_code c

abbrev no_zero : List ℕ → Bool
no_zero [] = true
no_zero (s ∷ code) = not (s == 0) && no_zero code

no_zero-All : (s : List ℕ) → no_zero s ≡ true → All (λ x. x ≢ 0) s
no_zero-All [] h = tt
no_zero-All (s ∷ code) h = (λ e. ground (arith, h, e), no_zero-All code (ground (arith, h)))

abbrev fits : ℕ → Bool
fits c =
    not (encodable c) || leb (length (symbols_of c)) 6 && no_zero (symbols_of c) && not (c == 255)

encodable-lt : (c : ℕ) → encodable c ≡ true → c < 128
unfolding encodable morse_code
encodable-lt c h = ground (arith, h)

fits_all : (c : ℕ) → encodable c ≡ true → fits c ≡ true
unfolding encodable symbols_of morse_code all_below
fits_all c h = all_below-true 128 fits c refl (encodable-lt c h)

-- A character adds six symbols at most, and is not the end of the file.
pub symbols-length : (c : ℕ) → encodable c ≡ true → length (symbols_of c) ≤ 6
symbols-length c h = ground (arith, fits_all c h, h)

pub symbols-marks : (c : ℕ) → encodable c ≡ true → All (λ x. x ≢ 0) (symbols_of c)
symbols-marks c h = no_zero-All (symbols_of c) (ground (arith, fits_all c h, h))

pub encodable-not_end : (c : ℕ) → encodable c ≡ true → (c == 255) ≡ false
encodable-not_end c h = ground (arith, fits_all c h, h)

pub encrypt_morse-stores :
    (buffer : List ℕ) (c : ℕ)
    → encodable c ≡ true
    → encrypt_morse buffer c ≡ stores (insert_symbols buffer (symbols_of c))
unfolding encrypt_morse encodable symbols_of
encrypt_morse-stores buffer c h = elim (Bool-cases (is_blank c)) [
  | inl e ↦ rw (encrypt_morse, symbols_of, e) refl
  | inr e ↦ elim (Option-cases (morse_code c)) [
    | inl f ↦ absurd (ground (arith, h, e, f))
    | inr ([], f) ↦ absurd (ground (arith, h, e, f))
    | inr (s ∷ code, f) ↦ rw (encrypt_morse, symbols_of, e, f) refl
  ]
]

-- What a round does by what is printed of the symbols.
abbrev pub round_of : Option (List ℕ × List ℕ) → ℕ → Round
round_of none c = breaks
round_of (some (out, left)) c =
    if c == b'\n'
    then goes_on (out ++ c ∷ []) (clear_string (padded left)) true
    else goes_on out (padded left) (is_space c)

end_round-padded :
    (fm_key out p : List ℕ) (c : ℕ)
    → All (λ x. x ≢ 0) p
    → length p ≤ 8
    → end_round fm_key out (padded p) c ≡ round_of (before out (print_stream fm_key p)) c
unfolding end_round
end_round-padded fm_key out p c marks l = elim (Option-cases (print_stream fm_key p)) [
  | inl e ↦ rw (end_round, buffer_encrypt-padded fm_key p marks l, e) refl
  | inr ((o, left), e) ↦
      rw (end_round, buffer_encrypt-padded fm_key p marks l, e, append_assoc out o (c ∷ [])) refl
]

append-All : (s t : List ℕ) → All (λ x. x ≢ 0) s → All (λ x. x ≢ 0) t → All (λ x. x ≢ 0) (s ++ t)
append-All [] t m n = n
append-All (x ∷ s) t (h, m) n = (h, append-All s t m n)

enter_char-padded :
    (fm_key out p : List ℕ) (c : ℕ)
    → All (λ x. x ≢ 0) p
    → length p ≤ 2
    → encodable c ≡ true
    → enter_char fm_key out (padded p) c
      ≡ round_of (before out (print_stream fm_key (p ++ symbols_of c))) c
unfolding enter_char
enter_char-padded fm_key out p c marks l h =
    let fit : length p + length (symbols_of c) ≤ 8 = omega (arith, l, symbols-length c h) in
    rw
      (
        enter_char,
        encrypt_morse-stores (padded p) c h,
        insert_symbols-padded p (symbols_of c) marks fit,
      )
      (end_round-padded fm_key out (p ++ symbols_of c) c
        (append-All p (symbols_of c) marks (symbols-marks c h))
        (omega (arith, fit, length-append p (symbols_of c))))

print_short : (fm_key p : List ℕ) → length p ≤ 2 → print_stream fm_key p ≡ some ([], p)
unfolding print_stream
print_short fm_key [] l = refl
print_short fm_key (a ∷ []) l = refl
print_short fm_key (a ∷ b ∷ []) l = refl
print_short fm_key (a ∷ b ∷ c ∷ p) l = absurd (omega (arith, l))

pub before_nothing : (r : Option (List ℕ × List ℕ)) → before [] r ≡ r
before_nothing none = refl
before_nothing (some (o, l)) = refl

-- A round after a space, a tab or a newline.
pub encrypt_round-after_space :
    (fm_key p : List ℕ) (c : ℕ)
    → All (λ x. x ≢ 0) p
    → length p ≤ 2
    → encodable c ≡ true
    → encrypt_round fm_key (padded p) true c ≡ round_of (print_stream fm_key (p ++ added true c)) c
unfolding encrypt_round added
encrypt_round-after_space fm_key p c marks l h = elim (Bool-cases (is_space c)) [
  | inl e ↦
      rw (encrypt_round, added, e, append-nil p)
        (end_round-padded fm_key [] p c marks (omega (arith, l))
          ∙ ap (λ r. round_of r c) (before_nothing (print_stream fm_key p)))
  | inr e ↦
      rw (encrypt_round, added, e)
        (enter_char-padded fm_key [] p c marks l h
          ∙ ap (λ r. round_of r c) (before_nothing (print_stream fm_key (p ++ symbols_of c))))
]

abbrev one_x : List ℕ
one_x = b'x' ∷ []

-- A round after a character: the x first, then the character, each with what it makes printable.
pub encrypt_round-in_word :
    (fm_key p : List ℕ) (c : ℕ)
    → All (λ x. x ≢ 0) p
    → length p ≤ 7
    → encodable c ≡ true
    → encrypt_round fm_key (padded p) false c
      ≡ round_of (print_stream fm_key (p ++ added false c)) c
unfolding encrypt_round added
encrypt_round-in_word fm_key p c marks l h =
    let fit : length p + length one_x ≤ 8 = omega (arith, l) in
    let marks' = append-All p one_x marks (λ e. omega (arith, e), tt) in
    let inserted =
      ap (buffer_encrypt fm_key) (insert_symbols-padded p one_x marks fit)
      ∙ buffer_encrypt-padded fm_key (p ++ one_x) marks'
          (omega (arith, fit, length-append p one_x)) in
    let parts =
      ap (print_stream fm_key) (sym (append_assoc p one_x (symbols_of c)))
      ∙ print_stream-append fm_key (p ++ one_x) (symbols_of c) in
    elim (Option-cases (print_stream fm_key (p ++ one_x))) [
      | inl e ↦ rw (encrypt_round, added, inserted, parts, e) refl
      | inr ((o, left), e) ↦
          let (short, rest) = print_stream-left fm_key (p ++ one_x) o left marks' e in
          rw (encrypt_round, added, inserted, parts, e)
            (enter_char-padded fm_key o left c rest short h)
    ]

pub added-marks :
    (last : Bool) (p : List ℕ) (c : ℕ)
    → All (λ x. x ≢ 0) p
    → encodable c ≡ true
    → All (λ x. x ≢ 0) (p ++ added last c)
unfolding added
added-marks false p c marks h =
    append-All p (added false c) marks (λ e. omega (arith, e), symbols-marks c h)
added-marks true p c marks h = elim (Bool-cases (is_space c)) [
  | inl e ↦ rw (added, e) (append-All p [] marks tt)
  | inr e ↦ rw (added, e) (append-All p (symbols_of c) marks (symbols-marks c h))
]
