-- ===== src/Utf/Args/Places.antt =====
-- hw2/src/args.c: where the option for the encoding may stand among the files.
use text.Mathlib.Text.{◌==◌ as str_eq}
use Prim.Native.String.{String}
use system_fundamentals_c_pr.Base.{
  ℕ, suc, ◌≡◌, ◌∙◌, ◌<◌, arith, refl, Bool, true, false, Option, none, some, List, [], ◌∷◌, length,
  ltb,
}
use system_fundamentals_c_pr.Utf.Convert.{Format}
use system_fundamentals_c_pr.Utf.Program.{determine_format}
use system_fundamentals_c_pr.Utf.Args.{
  State, Parsed, compares_null, parsed, plain, kind, parse_loop, check_files, parse_args, scanning,
  is_complete, take_file, no_state,
}

abbrev pub chosen : Option Format → String → String → Parsed
chosen f a b = parsed (record { encoding_to = f; in_file = some a; out_file = some b })

plain_next :
    (a : String) (rest : List String) (s : State)
    → kind a ≡ plain
    → is_complete s ≡ false
    → parse_loop (a ∷ rest) scanning s ≡ parse_loop rest scanning (take_file a s)
unfolding parse_loop
plain_next a rest s k c = rw (parse_loop, c, k) refl

option_next :
    (name : String) (f : Format) (rest : List String) (s : State)
    → determine_format name ≡ some f
    → is_complete s ≡ false
    → parse_loop ("-e" ∷ name ∷ rest) scanning s
      ≡ parse_loop rest scanning (record s { encoding_to = some f })
unfolding parse_loop
option_next name f rest s n c = rw (parse_loop, c, parse_loop, n) refl

nothing_next : (s : State) → parse_loop [] scanning s ≡ some s
unfolding parse_loop
nothing_next s = refl

complete_next :
    (args : List String) (s : State) → is_complete s ≡ true → parse_loop args scanning s ≡ some s
unfolding parse_loop
complete_next [] s c = refl
complete_next (a ∷ args) s c = rw (parse_loop, c) refl

-- The whole, when the loop has come to its end.
parses :
    (exists opens : String → Bool) (inode : String → Option ℕ) (a : String) (args : List String)
    (s : State)
    → parse_loop (a ∷ args) scanning no_state ≡ some s
    → parse_args exists opens inode (a ∷ args)
      ≡ check_files exists opens inode (suc (suc (length args))) s
unfolding parse_args
parses exists opens inode a args s e = rw (parse_args, e) refl

two_files :
    (exists opens : String → Bool) (inode : String → Option ℕ) (a b : String) (n : ℕ)
    (g : Option Format)
    → str_eq a b ≡ false
    → exists b ≡ false
    → n < 4
    → check_files exists opens inode
        (suc (suc n))
        (record { encoding_to = g; in_file = some a; out_file = some b })
      ≡ chosen g a b
unfolding check_files
two_files exists opens inode a b n g d e l =
    let few : ltb 5 (suc (suc n)) ≡ false = ground arith in rw (check_files, d, few, e) refl

-- `parse_args` for two files with different names that do not start with a dash, of which the second is
-- not there yet, and `-e` with the name of an encoding: in front of the files or between them, the option
-- is read; behind them it is passed over, and the state is the one without it.
pub parse_args-places :
    (exists opens : String → Bool) (inode : String → Option ℕ) (a b name : String) (f : Format)
    → kind a ≡ plain
    → kind b ≡ plain
    → str_eq a b ≡ false
    → exists b ≡ false
    → determine_format name ≡ some f
    → (parse_args exists opens inode ("-e" ∷ name ∷ a ∷ b ∷ []) ≡ chosen (some f) a b)
      × (parse_args exists opens inode (a ∷ "-e" ∷ name ∷ b ∷ []) ≡ chosen (some f) a b)
      × (parse_args exists opens inode (a ∷ b ∷ "-e" ∷ name ∷ []) ≡ chosen none a b)
      × (parse_args exists opens inode (a ∷ b ∷ []) ≡ chosen none a b)
parse_args-places exists opens inode a b name f ka kb d e n =
    let first : Option Format → State =
      λ g. record { encoding_to = g; in_file = some a; out_file = none } in
    let both : Option Format → State =
      λ g. record { encoding_to = g; in_file = some a; out_file = some b } in
    let named : State = record { encoding_to = some f; in_file = none; out_file = none } in
    (
      parses exists opens inode "-e" (name ∷ a ∷ b ∷ []) (both (some f)) (
            option_next name f (a ∷ b ∷ []) no_state n refl
            ∙ plain_next a (b ∷ []) named ka refl
            ∙ plain_next b [] (first (some f)) kb refl
            ∙ complete_next [] (both (some f)) refl)
          ∙ two_files exists opens inode a b 3 (some f) d e (omega arith),
      parses exists opens inode a ("-e" ∷ name ∷ b ∷ []) (both (some f)) (
            plain_next a ("-e" ∷ name ∷ b ∷ []) no_state ka refl
            ∙ option_next name f (b ∷ []) (first none) n refl
            ∙ plain_next b [] (first (some f)) kb refl
            ∙ complete_next [] (both (some f)) refl)
          ∙ two_files exists opens inode a b 3 (some f) d e (omega arith),
      parses exists opens inode a (b ∷ "-e" ∷ name ∷ []) (both none) (
            plain_next a (b ∷ "-e" ∷ name ∷ []) no_state ka refl
            ∙ plain_next b ("-e" ∷ name ∷ []) (first none) kb refl
            ∙ complete_next ("-e" ∷ name ∷ []) (both none) refl)
          ∙ two_files exists opens inode a b 3 none d e (omega arith),
      parses exists opens inode a (b ∷ []) (both none) (
            plain_next a (b ∷ []) no_state ka refl
            ∙ plain_next b [] (first none) kb refl
            ∙ complete_next [] (both none) refl)
          ∙ two_files exists opens inode a b 1 none d e (omega arith),
    )

-- `parse_args` with one file, with or without `-e` in front of it or behind it, compares the missing name
-- with `strcmp`.
pub parse_args-one_file :
    (exists opens : String → Bool) (inode : String → Option ℕ) (a name : String) (f : Format)
    → kind a ≡ plain
    → determine_format name ≡ some f
    → (parse_args exists opens inode (a ∷ []) ≡ compares_null)
      × (parse_args exists opens inode ("-e" ∷ name ∷ a ∷ []) ≡ compares_null)
      × (parse_args exists opens inode (a ∷ "-e" ∷ name ∷ []) ≡ compares_null)
unfolding check_files
parse_args-one_file exists opens inode a name f ka n =
    let first : Option Format → State =
      λ g. record { encoding_to = g; in_file = some a; out_file = none } in
    let named : State = record { encoding_to = some f; in_file = none; out_file = none } in
    (
      parses exists opens inode a [] (first none)
          (plain_next a [] no_state ka refl ∙ nothing_next (first none)),
      parses exists opens inode "-e" (name ∷ a ∷ []) (first (some f)) (
          option_next name f (a ∷ []) no_state n refl
          ∙ plain_next a [] named ka refl
          ∙ nothing_next (first (some f))),
      parses exists opens inode a ("-e" ∷ name ∷ []) (first (some f)) (
          plain_next a ("-e" ∷ name ∷ []) no_state ka refl
          ∙ option_next name f [] (first none) n refl
          ∙ nothing_next (first (some f))),
    )
