-- ===== src/Shell/Pipeline/Names.antt =====
-- hw4/src/main.c: when a line starts with the name of a command of the shell.
use system_fundamentals_c_pr.Base.{
  ℕ, ◌≡◌, arith, refl, ap, ◌∙◌, sym, ◌↔◌, ◌⊎◌, inl, inr, true, List, [], ◌∷◌, ◌++◌, ◌==◌, ==_iff,
  ==_refl, Bool-cases,
}
use system_fundamentals_c_pr.Shell.Pipeline.{is_command}

-- The line is the name, or the name with a blank and anything behind it.
abbrev pub Starts : List ℕ → List ℕ → Type 0
Starts name input = (input ≡ name) ⊎ ((rest : List ℕ) × (input ≡ name ++ b' ' ∷ rest))

Starts-of_command : (name input : List ℕ) → is_command name input ≡ true → Starts name input
unfolding is_command
Starts-of_command [] [] e = inl refl
Starts-of_command [] (c ∷ input) e = inr (input, ap (λ x. x ∷ input) ((==_iff c b' ').0 e))
Starts-of_command (n ∷ name) [] e = absurd (cc e)
Starts-of_command (n ∷ name) (c ∷ input) e = elim (Bool-cases (n == c)) [
  | inr different ↦ absurd (ground (arith, e, different))
  | inl same ↦ elim (Starts-of_command name input (ground (arith, e, same))) [
    | inl whole ↦ inl (ap (λ x. x ∷ input) (sym ((==_iff n c).0 same)) ∙ ap (λ x. n ∷ x) whole)
    | inr (rest, more) ↦
        inr (rest, ap (λ x. x ∷ input) (sym ((==_iff n c).0 same)) ∙ ap (λ x. n ∷ x) more)
  ]
]

whole_command : (name : List ℕ) → is_command name name ≡ true
unfolding is_command
whole_command [] = refl
whole_command (n ∷ name) = rw (is_command, ==_refl n) (whole_command name)

with_arguments : (name rest : List ℕ) → is_command name (name ++ b' ' ∷ rest) ≡ true
unfolding is_command
with_arguments [] rest = refl
with_arguments (n ∷ name) rest = rw (is_command, ==_refl n) (with_arguments name rest)

-- The test for a command, on any name and any line, holds exactly when the line is the name, or starts
-- with the name and a blank.
pub is_command-Starts : (name input : List ℕ) → (is_command name input ≡ true) ↔ Starts name input
is_command-Starts name input = (
  Starts-of_command name input,
  λ s. elim s [
    | inl whole ↦ rw whole (whole_command name)
    | inr (rest, more) ↦ rw more (with_arguments name rest)
  ],
)
