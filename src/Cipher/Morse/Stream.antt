-- ===== src/Cipher/Morse/Stream.antt =====
-- What the fractionated Morse cipher of hw1/src/main.c prints of a line, without its buffer of eight bytes.
use mathlib.Core.List.{append_assoc}
use system_fundamentals_c_pr.Base.{
  ℕ, zero, suc, ◌≤◌, ◌≡◌, ◌≢◌, inl, inr, refl, ap, ◌∙◌, sym, Bool, true, false, ◌||◌, Option, none,
  some, List, [], ◌∷◌, ◌++◌, All, length, ◌==◌, if◌then◌else◌, arith, Option-cases,
}
use system_fundamentals_c_pr.Cipher.Tables.{fractionated_table}
use system_fundamentals_c_pr.Cipher.Polybius.{is_blank}
use system_fundamentals_c_pr.Cipher.Morse.{same_triple, print_triple, morse_code}

-- The symbols of a character: an x for a blank, else its Morse code.
unfoldable pub symbols_of : ℕ → List ℕ
symbols_of c =
    if is_blank c then b'x' ∷ [] else elim (morse_code c) [ none ↦ [] | some code ↦ code ]

abbrev pub is_space : ℕ → Bool
is_space c = c == b' ' || c == b'\t'

-- The symbols that a character adds: an x ends the letter before it, one more x is a space, and a space
-- that follows a space adds none.
unfoldable pub added : Bool → ℕ → List ℕ
unfolding symbols_of
added true c = if is_space c then [] else symbols_of c
added false c = b'x' ∷ symbols_of c

abbrev pub before : List ℕ → Option (List ℕ × List ℕ) → Option (List ℕ × List ℕ)
before out none = none
before out (some (out', left)) = some (out ++ out', left)

-- The letters of the symbols, three at a time, and the symbols left, which are never printed.
unfoldable pub print_stream : List ℕ → List ℕ → Option (List ℕ × List ℕ)
print_stream fm_key [] = some ([], [])
print_stream fm_key (a ∷ []) = some ([], a ∷ [])
print_stream fm_key (a ∷ b ∷ []) = some ([], a ∷ b ∷ [])
print_stream fm_key (a ∷ b ∷ c ∷ rest) =
    elim (print_triple fm_key fractionated_table (a ∷ b ∷ c ∷ [])) [
      | none ↦ none
      | some out ↦ before out (print_stream fm_key rest)
    ]

-- The lines of a text: at the end of each its symbols are printed, with those of the newline, and the
-- newline itself; what is left of them is lost. `line` is what the line has so far.
unfoldable pub print_lines : List ℕ → Bool → List ℕ → List ℕ → Option (List ℕ)
unfolding added print_stream
print_lines fm_key after_space line [] = elim (print_stream fm_key line) [
  | none ↦ none
  | some (out, left) ↦ some out
]
print_lines fm_key after_space line (c ∷ cs) =
    let this = line ++ added after_space c in
    let next = print_lines fm_key true [] cs in
    let same = print_lines fm_key (is_space c) this cs in
    if c == b'\n'
    then elim (print_stream fm_key this) [
      | none ↦ none
      | some (out, left) ↦ elim next [ none ↦ none | some rest ↦ some (out ++ c ∷ rest) ]
    ]
    else same

-- Only the first three bytes of the buffer are read.
pub print_triple_front :
    (letters : List ℕ) (entries : List (List ℕ)) (a b c : ℕ) (w : List ℕ)
    → print_triple letters entries (a ∷ b ∷ c ∷ w) ≡ print_triple letters entries (a ∷ b ∷ c ∷ [])
unfolding print_triple same_triple
print_triple_front [] entries a b c w = refl
print_triple_front (zero ∷ letters) entries a b c w = refl
print_triple_front (suc l ∷ letters) [] a b c w = refl
print_triple_front (suc l ∷ letters) (entry ∷ entries) a b c w =
    rw (print_triple_front letters entries a b c w) refl

-- At most two symbols are left, and they are symbols of the stream.
pub print_stream-left :
    (fm_key s out left : List ℕ)
    → All (λ x. x ≢ 0) s
    → print_stream fm_key s ≡ some (out, left)
    → (length left ≤ 2) × All (λ x. x ≢ 0) left
unfolding print_stream
print_stream-left fm_key [] out left marks h = let e : [] ≡ left = cc h in rw⁻¹ e (omega arith, tt)
print_stream-left fm_key (a ∷ []) out left marks h =
    let e : a ∷ [] ≡ left = cc h in rw⁻¹ e (omega arith, marks)
print_stream-left fm_key (a ∷ b ∷ []) out left marks h =
    let e : a ∷ b ∷ [] ≡ left = cc h in rw⁻¹ e (omega arith, marks)
print_stream-left fm_key (a ∷ b ∷ c ∷ rest) out left (na, (nb, (nc, marks))) h =
    elim (Option-cases (print_triple fm_key fractionated_table (a ∷ b ∷ c ∷ []))) [
      | inl e ↦ absurd (cc (rw (print_stream, e) at h))
      | inr (o, e) ↦ elim (Option-cases (print_stream fm_key rest)) [
        | inl f ↦ absurd (cc (rw (print_stream, e, f) at h))
        | inr ((o', l), f) ↦
            let g : some (o ++ o', l) ≡ some (out, left) = rw (print_stream, e, f) at h in
            let k : l ≡ left = cc g in
            print_stream-left fm_key rest o' left marks (f ∙ ap (λ x. some (o', x)) k)
      ]
    ]

before_nothing : (r : Option (List ℕ × List ℕ)) → r ≡ before [] r
before_nothing none = refl
before_nothing (some (o, l)) = refl

before-append :
    (o o' : List ℕ) (r : Option (List ℕ × List ℕ)) → before o (before o' r) ≡ before (o ++ o') r
before-append o o' none = refl
before-append o o' (some (p, l)) = ap (λ x. some (x, l)) (sym (append_assoc o o' p))

-- What is printed of a stream may be printed in two parts, the second one behind what is left of the first.
pub print_stream-append :
    (fm_key s t : List ℕ)
    → print_stream fm_key (s ++ t) ≡ elim (print_stream fm_key s) [
      | none ↦ none
      | some (out, left) ↦ before out (print_stream fm_key (left ++ t))
    ]
unfolding print_stream
print_stream-append fm_key [] t = before_nothing (print_stream fm_key t)
print_stream-append fm_key (a ∷ []) t = before_nothing (print_stream fm_key (a ∷ t))
print_stream-append fm_key (a ∷ b ∷ []) t = before_nothing (print_stream fm_key (a ∷ b ∷ t))
print_stream-append fm_key (a ∷ b ∷ c ∷ rest) t =
    elim (Option-cases (print_triple fm_key fractionated_table (a ∷ b ∷ c ∷ []))) [
      | inl e ↦ rw (print_stream, e) refl
      | inr (o, e) ↦ elim (Option-cases (print_stream fm_key rest)) [
        | inl f ↦ rw (print_stream, e, print_stream-append fm_key rest t, f) refl
        | inr ((o', l), f) ↦
            rw (print_stream, e, print_stream-append fm_key rest t, f)
              (before-append o o' (print_stream fm_key (l ++ t)))
      ]
    ]
