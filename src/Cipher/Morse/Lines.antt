-- ===== src/Cipher/Morse/Lines.antt =====
-- The encrypting loop of hw1/src/main.c on a text, against the lines of its symbols.
use mathlib.Core.List.{append_assoc, append-nil}
use system_fundamentals_c_pr.Base.{
  ℕ, zero, suc, ◌≤◌, ◌≡◌, ◌≢◌, inl, inr, refl, ap, ◌∙◌, sym, Bool, true, false, Option, none, some,
  List, [], ◌∷◌, ◌++◌, All, length, ◌==◌, arith, Bool-cases, Option-cases, replicate,
}
use system_fundamentals_c_pr.Cipher.Polybius.{Exit, returned, usage, undefined, printed}
use system_fundamentals_c_pr.Cipher.Morse.{stores, encrypt_morse}
use system_fundamentals_c_pr.Cipher.Morse.Stream.{
  symbols_of, is_space, added, before, print_stream, print_lines, print_stream-left,
  print_stream-append,
}
use system_fundamentals_c_pr.Cipher.Morse.Buffer.{padded, insert_symbols-padded}
use system_fundamentals_c_pr.Cipher.Morse.Rounds.{
  encodable, symbols-length, symbols-marks, encodable-not_end, encrypt_morse-stores, round_of,
  encrypt_round-after_space, encrypt_round-in_word, before_nothing, added-marks,
}
use system_fundamentals_c_pr.Cipher.Morse.Encrypt.{
  Round, goes_on, fails, breaks, clear_string, encrypt_loop, morse_encrypt,
}

-- The program ends with what the lines print, or reads outside a table.
abbrev pub ends_with : Option (List ℕ) → Exit
ends_with none = undefined
ends_with (some out) = returned 0 out

printed_twice : (a b : List ℕ) (e : Exit) → printed a (printed b e) ≡ printed (a ++ b) e
printed_twice a b (returned n out) = ap (returned n) (sym (append_assoc a b out))
printed_twice a b (usage n) = refl
printed_twice a b undefined = refl

printed_nothing : (e : Exit) → printed [] e ≡ e
printed_nothing (returned n out) = refl
printed_nothing (usage n) = refl
printed_nothing undefined = refl

clear_string-padded :
    (p : List ℕ) → All (λ x. x ≢ 0) p → length p ≤ 2 → clear_string (padded p) ≡ padded []
unfolding clear_string
clear_string-padded [] marks l = refl
clear_string-padded (zero ∷ p) (n, marks) l = absurd (n refl)
clear_string-padded (suc a ∷ []) marks l = refl
clear_string-padded (suc a ∷ zero ∷ p) (n, (n', marks)) l = absurd (n' refl)
clear_string-padded (suc a ∷ suc b ∷ []) marks l = refl
clear_string-padded (a ∷ b ∷ c ∷ p) marks l = absurd (omega (arith, l))

-- What the loop does with the round and the rest of the text.
abbrev after : List ℕ → List ℕ → Round → Exit
after fm_key cs (goes_on out buffer last) = printed out (encrypt_loop fm_key cs buffer last)
after fm_key cs (fails out) = returned 1 out
after fm_key cs breaks = undefined

-- Nothing is printed of a line of which a part cannot be printed.
print_lines-none :
    (fm_key : List ℕ) (last : Bool) (line cs : List ℕ)
    → print_stream fm_key line ≡ none
    → print_lines fm_key last line cs ≡ none
unfolding print_lines
print_lines-none fm_key last line [] e = rw (print_lines, e) refl
print_lines-none fm_key last line (c ∷ cs) e =
    let this : print_stream fm_key (line ++ added last c) ≡ none =
      rw (print_stream-append fm_key line (added last c), e) refl in
    elim (Bool-cases (c == b'\n')) [
      | inl f ↦ rw (print_lines, f, this) refl
      | inr f ↦
          rw (print_lines, f) (print_lines-none fm_key (is_space c) (line ++ added last c) cs this)
    ]

-- Of the text `cs`, the loop prints what the lines do, when it has printed `out` of the line before it.
Follows : List ℕ → List ℕ → Type 0
Follows fm_key cs =
    (last : Bool) (line out p : List ℕ)
    → print_stream fm_key line ≡ some (out, p)
    → All (λ x. x ≢ 0) p
    → length p ≤ 2
    → printed out (encrypt_loop fm_key cs (padded p) last)
      ≡ ends_with (print_lines fm_key last line cs)

nothing_printed : (fm_key : List ℕ) → print_stream fm_key [] ≡ some ([], [])
unfolding print_stream
nothing_printed fm_key = refl

line_printed :
    (out o : List ℕ) (c : ℕ) (next : Option (List ℕ))
    → printed out (printed (o ++ c ∷ []) (ends_with next))
      ≡ ends_with (elim next [ none ↦ none | some rest ↦ some ((out ++ o) ++ c ∷ rest) ])
line_printed out o c none = refl
line_printed out o c (some rest) =
    ap (returned 0)
      (ap (λ t. out ++ t) (append_assoc o (c ∷ []) rest) ∙ sym (append_assoc out o (c ∷ rest)))

-- One round, by what is printed of the symbols that it has.
step :
    (fm_key : List ℕ) (last : Bool) (line out s : List ℕ) (c : ℕ) (cs : List ℕ)
    → All (λ x. x ≢ 0) s
    → print_stream fm_key (line ++ added last c) ≡ before out (print_stream fm_key s)
    → Follows fm_key cs
    → printed out (after fm_key cs (round_of (print_stream fm_key s) c))
      ≡ ends_with (print_lines fm_key last line (c ∷ cs))
unfolding print_lines Follows
step fm_key last line out s c cs marks h follows = elim (Option-cases (print_stream fm_key s)) [
  | inl e ↦
      let this : print_stream fm_key (line ++ added last c) ≡ none = rw e at h in
      elim (Bool-cases (c == b'\n')) [
        | inl f ↦ rw (print_lines, e, f, this) refl
        | inr f ↦
            rw
              (
                print_lines,
                e,
                f,
                print_lines-none fm_key (is_space c) (line ++ added last c) cs this,
              )
              refl
      ]
  | inr ((o, p), e) ↦
      let this : print_stream fm_key (line ++ added last c) ≡ some (out ++ o, p) = rw e at h in
      let (short, rest) = print_stream-left fm_key s o p marks e in
      elim (Bool-cases (c == b'\n')) [
        | inl f ↦
            let begun =
              sym (printed_nothing (encrypt_loop fm_key cs (padded []) true))
              ∙ follows true [] [] [] (nothing_printed fm_key) tt (omega arith) in
            rw (print_lines, e, f, clear_string-padded p rest short, begun, this)
              (line_printed out o c (print_lines fm_key true [] cs))
        | inr f ↦
            rw (print_lines, e, f)
              (printed_twice out o (encrypt_loop fm_key cs (padded p) (is_space c))
                ∙ follows (is_space c) (line ++ added last c) (out ++ o) p this rest short)
      ]
]

encrypt_loop-Follows : (fm_key cs : List ℕ) → All (λ c. encodable c ≡ true) cs → Follows fm_key cs
unfolding Follows encrypt_loop print_lines
encrypt_loop-Follows fm_key [] texts last line out p h marks l =
    rw (print_lines, h, append-nil out) refl
encrypt_loop-Follows fm_key (c ∷ cs) (t, texts) true line out p h marks l =
    let parts = print_stream-append fm_key line (added true c) ∙ rw h refl in
    rw (encrypt_loop, encodable-not_end c t, encrypt_round-after_space fm_key p c marks l t)
      (step fm_key true line out (p ++ added true c) c cs (added-marks true p c marks t) parts
        (encrypt_loop-Follows fm_key cs texts))
encrypt_loop-Follows fm_key (c ∷ cs) (t, texts) false line out p h marks l =
    let fit : length p ≤ 7 = omega (arith, l) in
    let parts = print_stream-append fm_key line (added false c) ∙ rw h refl in
    rw (encrypt_loop, encodable-not_end c t, encrypt_round-in_word fm_key p c marks fit t)
      (step fm_key false line out (p ++ added false c) c cs (added-marks false p c marks t) parts
        (encrypt_loop-Follows fm_key cs texts))

first_stored :
    (c : ℕ) → encodable c ≡ true → encrypt_morse (replicate 8 0) c ≡ stores (padded (symbols_of c))
first_stored c t =
    encrypt_morse-stores (padded []) c t
    ∙ ap stores (insert_symbols-padded [] (symbols_of c) tt (omega (arith, symbols-length c t)))

-- Of a text of two characters at least, each a blank or one that has a Morse code, the program prints for
-- each line the letters of its symbols, three symbols at a time: whatever the key, the buffer of eight bytes
-- loses no symbol. It ends with status 0, unless a group of three symbols is read outside a table.
pub morse_encrypt-print_lines :
    (fm_key : List ℕ) (c d : ℕ) (cs : List ℕ)
    → All (λ x. encodable x ≡ true) (c ∷ d ∷ cs)
    → morse_encrypt fm_key (c ∷ d ∷ cs)
      ≡ ends_with (print_lines fm_key false (symbols_of c) (d ∷ cs))
unfolding morse_encrypt encrypt_loop
morse_encrypt-print_lines fm_key c d cs (t, (u, texts)) =
    let s = symbols_of c in
    let marks = symbols-marks c t in
    let short = symbols-length c t in
    rw
      (
        morse_encrypt,
        first_stored c t,
        encrypt_loop,
        encodable-not_end d u,
        encrypt_round-in_word fm_key s d marks (omega (arith, short)) u,
      )
      (sym (printed_nothing _)
        ∙ step fm_key false s [] (s ++ added false d) d cs (added-marks false s d marks u)
            (sym (before_nothing _)) (encrypt_loop-Follows fm_key cs texts))
