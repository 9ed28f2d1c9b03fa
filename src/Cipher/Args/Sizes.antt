-- ===== src/Cipher/Args/Sizes.antt =====
-- `-r` and `-c` given alone, in `validargs` of hw1/src/hw1.c.
use system_fundamentals_c_pr.Base.{
  ℕ, ◌*◌, ◌<◌, ◌≡◌, inl, inr, refl, false, Option-cases, List, [], ◌∷◌, codes, bit_and, bit_or,
  ◌==◌, arith, eq_below, all_below,
}
use system_fundamentals_c_pr.Cipher.Tables.{Globals}
use system_fundamentals_c_pr.Cipher.Args.{
  rows_next, columns_next, parsed_mode, rows_of, cols_of, read_size, conclude, parse, take_argument,
  valid_args,
}
use system_fundamentals_c_pr.Cipher.Args.Mode.{read_size-le}

module _ (num : ℕ) (l : num < 16) where
  rows_alone : cols_of (num * 0x10) ≡ 0
  unfolding all_below
  rows_alone = eq_below 16 (λ n. cols_of (n * 0x10)) (λ n. 0) num refl l

  cols_alone : rows_of num ≡ 0
  unfolding all_below
  cols_alone = eq_below 16 (λ n. rows_of n) (λ n. 0) num refl l

  rows_flag : bit_and (num * 0x10) 0x4000 ≡ 0
  unfolding all_below
  rows_flag = eq_below 16 (λ n. bit_and (n * 0x10) 0x4000) (λ n. 0) num refl l

  cols_flag : bit_and num 0x4000 ≡ 0
  unfolding all_below
  cols_flag = eq_below 16 (λ n. bit_and n 0x4000) (λ n. 0) num refl l

  rows_low : bit_and (num * 0x10) 0xff ≡ num * 0x10
  unfolding all_below
  rows_low = eq_below 16 (λ n. bit_and (n * 0x10) 0xff) (λ n. n * 0x10) num refl l

  cols_low : bit_and num 0xff ≡ num
  unfolding all_below
  cols_low = eq_below 16 (λ n. bit_and n 0xff) (λ n. n) num refl l

  rows_first : bit_or 0 (num * 0x10) ≡ num * 0x10
  unfolding all_below
  rows_first = eq_below 16 (λ n. bit_or 0 (n * 0x10)) (λ n. n * 0x10) num refl l

  cols_first : bit_or 0 num ≡ num
  unfolding all_below
  cols_first = eq_below 16 (λ n. bit_or 0 n) (λ n. n) num refl l

-- A state with one of the two sizes is refused: the other one is not set to its default.
conclude-one :
    (state : ℕ) (g : Globals)
    → bit_and state 0x4000 ≡ 0
    → (bit_and state 0xff == 0) ≡ false
    → rows_of state * cols_of state ≡ 0
    → conclude 3 state g ≡ parsed_mode 0 g
unfolding conclude
conclude-one state g f z p = ground (arith, f, z, p)

last_rows : (arg : List ℕ) (g : Globals) → parse (arg ∷ []) rows_next 3 0 g ≡ parsed_mode 0 g
unfolding parse take_argument
last_rows arg g = elim (Option-cases (read_size arg)) [
  | inl e ↦ rw (parse, take_argument, e) refl
  | inr (num, e) ↦
      let (l, u) = read_size-le arg num e in
      let b : num < 16 = omega (arith, u) in
      rw (parse, take_argument, e, rows_first num b)
        (conclude-one (num * 0x10) g (rows_flag num b) (ground (arith, rows_low num b))
          (ground (arith, rows_alone num b)))
]

last_cols : (arg : List ℕ) (g : Globals) → parse (arg ∷ []) columns_next 3 0 g ≡ parsed_mode 0 g
unfolding parse take_argument
last_cols arg g = elim (Option-cases (read_size arg)) [
  | inl e ↦ rw (parse, take_argument, e) refl
  | inr (num, e) ↦
      let (l, u) = read_size-le arg num e in
      let b : num < 16 = omega (arith, u) in
      rw (parse, take_argument, e, cols_first num b)
        (conclude-one num g (cols_flag num b) (ground (arith, cols_low num b))
          (ground (arith, cols_alone num b)))
]

-- With `-r` alone, or `-c` alone, `validargs` returns 0 whatever the number is: the size that is not
-- given does not get the default.
pub valid_args-one_size :
    (arg : List ℕ) (g : Globals)
    → (valid_args (codes "-p" ∷ codes "-e" ∷ codes "-r" ∷ arg ∷ []) g
        ≡ parsed_mode 0 (record g { key = [] }))
      × (valid_args (codes "-p" ∷ codes "-e" ∷ codes "-c" ∷ arg ∷ []) g
          ≡ parsed_mode 0 (record g { key = [] }))
unfolding valid_args
valid_args-one_size arg g =
    (last_rows arg (record g { key = [] }), last_cols arg (record g { key = [] }))
