-- ===== src/Cipher/Args/Mode.antt =====
-- The value of `validargs` of hw1/src/hw1.c.
use mathlib.Core.Path.{subst}
use system_fundamentals_c_pr.Base.{
  ℕ, ◌+◌, ◌*◌, ◌/◌, ◌%◌, ◌<◌, ◌≤◌, ◌≡◌, ◌⊎◌, inl, inr, refl, ap, ◌∙◌, sym, true, not, ◌&&◌, ◌||◌,
  some, Option-cases, List, [], ◌∷◌, length, bit_and, bit_or, ltb, ◌==◌, if◌then◌else◌, arith,
  Bool-cases,
}
use system_fundamentals_c_pr.Cipher.Tables.{polybius_alphabet, Globals}
use system_fundamentals_c_pr.Cipher.Args.{
  Checked, invalid, valid, overruns, Awaited, flag_next, key_next, rows_next, columns_next, Flag,
  Parsed, parsed_mode, outside_bounds, is_fractionated, rows_of, cols_of, read_size, flag_of,
  check_key, Taken, ends, goes, take_flag, take_argument, conclude, parse, valid_args,
}
use system_fundamentals_c_pr.Cipher.Args.States

-- A number of rows or columns that is not set, or from 9 to 15.
abbrev pub IsSize : ℕ → Type 0
IsSize k = (k ≡ 0) ⊎ ((9 ≤ k) × (k ≤ 15))

-- A value of `return_state`.
record IsState (state : ℕ) : Type 0 where
  index : ℕ
  bounded : index < 1024
  eq : state ≡ States.state_of index
  rows : IsSize (index % 256 / 16)
  cols : IsSize (index % 16)

-- A value that runs a cipher: the flags -f and -d are its only bits above the sizes, rows and columns are
-- not set or from 9 to 15, and for the Polybius cipher both are set and their product is the length of the
-- alphabet at least.
pub record IsMode (m : ℕ) : Type 0 where
  pub below : m < 0x8000
  pub flags_only : m / 0x100 % 0x20 ≡ 0
  pub rows : IsSize (rows_of m)
  pub cols : IsSize (cols_of m)
  pub sizes :
      (is_fractionated m ≡ true)
      ⊎ ((9 ≤ rows_of m)
          × (rows_of m ≤ 15)
          × (9 ≤ cols_of m)
          × (cols_of m ≤ 15)
          × (length polybius_alphabet ≤ rows_of m * cols_of m))

pub read_size-le : (cs : List ℕ) (num : ℕ) → read_size cs ≡ some num → (9 ≤ num) × (num ≤ 15)
unfolding read_size
read_size-le cs num e = ground arith

-- The outcomes that the theorem below allows.
Allows : Parsed → Type 0
Allows outside_bounds = Unit
Allows (parsed_mode m g) = (m ≡ 0) ⊎ ((m ≡ 0x8000) ⊎ IsMode m)

IsState-zero : IsState 0
IsState-zero = record {
  index = 0;
  bounded = omega arith;
  eq = refl;
  rows = inl (omega arith);
  cols = inl (omega arith);
}

set_size : (a b : ℕ) → IsSize a → 94 ≤ a * b → (9 ≤ a) × (a ≤ 15)
set_size a b (inr h) l = h
set_size a b (inl e) l = absurd (omega (arith, rw e at l))

module _ (state : ℕ) (s : IsState state) where
  open s use {index as n, bounded, eq, rows, cols}

  or_nothing-IsState : IsState (bit_or state 0)
  or_nothing-IsState = record {
    index = n;
    bounded = bounded;
    eq = ap (λ x. bit_or x 0) eq ∙ States.or_nothing n bounded;
    rows = rows;
    cols = cols;
  }

  or_fractionated-IsState : IsState (bit_or state 0x4000)
  or_fractionated-IsState =
      let e : (n % 512 + 512) % 256 ≡ n % 256 = omega arith in
      let f : (n % 512 + 512) % 16 ≡ n % 16 = omega arith in
      record {
        index = n % 512 + 512;
        bounded = omega arith;
        eq = ap (λ x. bit_or x 0x4000) eq ∙ States.or_fractionated n bounded;
        rows = rw e rows;
        cols = rw f cols;
      }

  or_decrypt-IsState : IsState (bit_or state 0x2000)
  or_decrypt-IsState =
      let e : (n / 512 * 512 + 256 + n % 256) % 256 ≡ n % 256 = omega arith in
      let f : (n / 512 * 512 + 256 + n % 256) % 16 ≡ n % 16 = omega arith in
      record {
        index = n / 512 * 512 + 256 + n % 256;
        bounded = omega arith;
        eq = ap (λ x. bit_or x 0x2000) eq ∙ States.or_decrypt n bounded;
        rows = rw e rows;
        cols = rw f cols;
      }

  or_rows-IsState :
      (num : ℕ) → 9 ≤ num → num ≤ 15 → bit_and state 0xf0 ≡ 0 → IsState (bit_or state (num * 0x10))
  or_rows-IsState num l u z =
      let free : n % 256 / 16 * 16 ≡ 0 =
        sym (States.rows_mask n bounded) ∙ ap (λ x. bit_and x 0xf0) (sym eq) ∙ z in
      let i = n + num * 16 in
      let e : i / 256 * 256 + i % 16 ≡ n = omega arith in
      let f : i % 256 / 16 ≡ num = omega arith in
      let g : i % 16 ≡ n % 16 = omega arith in
      let r = States.or_rows i (omega arith) in
      record {
        index = i;
        bounded = omega arith;
        eq =
            ap (λ x. bit_or x (num * 0x10)) eq
            ∙ ap (λ x. bit_or (States.state_of x) (num * 0x10)) (sym e)
            ∙ ap (λ x. bit_or (States.state_of (i / 256 * 256 + i % 16)) (x * 0x10)) (sym f)
            ∙ r;
        rows = inr (rw f (l, u));
        cols = rw g cols;
      }

  or_cols-IsState :
      (num : ℕ) → 9 ≤ num → num ≤ 15 → bit_and state 0xf ≡ 0 → IsState (bit_or state num)
  or_cols-IsState num l u z =
      let free : n % 16 ≡ 0 =
        sym (States.cols_mask n bounded) ∙ ap (λ x. bit_and x 0xf) (sym eq) ∙ z in
      let i = n + num in
      let e : i / 16 * 16 ≡ n = omega arith in
      let f : i % 16 ≡ num = omega arith in
      let g : i % 256 / 16 ≡ n % 256 / 16 = omega arith in
      let r = States.or_cols i (omega arith) in
      record {
        index = i;
        bounded = omega arith;
        eq =
            ap (λ x. bit_or x num) eq
            ∙ ap (λ x. bit_or (States.state_of x) num) (sym e)
            ∙ ap (λ x. bit_or (States.state_of (i / 16 * 16)) x) (sym f)
            ∙ r;
        rows = rw g rows;
        cols = inr (rw f (l, u));
      }

  or_default-IsState : bit_and state 0xff ≡ 0 → IsState (bit_or state 0xaa)
  or_default-IsState z =
      let free : n % 256 ≡ 0 =
        sym (States.size-state_of n bounded) ∙ ap (λ x. bit_and x 0xff) (sym eq) ∙ z in
      let e : n / 256 * 256 ≡ n = omega arith in
      let f : (n / 256 * 256 + 0xaa) % 256 / 16 ≡ 10 = omega arith in
      let g : (n / 256 * 256 + 0xaa) % 16 ≡ 10 = omega arith in
      record {
        index = n / 256 * 256 + 0xaa;
        bounded = omega arith;
        eq =
            ap (λ x. bit_or x 0xaa) eq
            ∙ ap (λ x. bit_or (States.state_of x) 0xaa) (sym e)
            ∙ States.or_default n bounded;
        rows = rw f (inr (omega arith));
        cols = rw g (inr (omega arith));
      }

  state_below : state < 0x8000
  state_below = omega (arith, eq, bounded)

  rows_value : rows_of state ≡ n % 256 / 16
  rows_value = ap rows_of eq ∙ States.rows-state_of n bounded

  cols_value : cols_of state ≡ n % 16
  cols_value = ap cols_of eq ∙ States.cols-state_of n bounded

  flags_value : state / 0x100 % 0x20 ≡ 0
  flags_value = omega (arith, eq, bounded)

  rows-IsSize : IsSize (rows_of state)
  rows-IsSize = rw rows_value rows

  cols-IsSize : IsSize (cols_of state)
  cols-IsSize = rw cols_value cols

  morse-IsMode : is_fractionated state ≡ true → IsMode state
  morse-IsMode f = record {
    below = state_below;
    flags_only = flags_value;
    rows = rows-IsSize;
    cols = cols-IsSize;
    sizes = inl f;
  }

  polybius-IsMode : 94 ≤ rows_of state * cols_of state → IsMode state
  polybius-IsMode h = record {
    below = state_below;
    flags_only = flags_value;
    rows = rows-IsSize;
    cols = cols-IsSize;
    sizes = inr (r.0, r.1, c.0, c.1, h);
  }
    where
      r : (9 ≤ rows_of state) × (rows_of state ≤ 15)
      r = set_size (rows_of state) (cols_of state) rows-IsSize h

      c : (9 ≤ cols_of state) × (cols_of state ≤ 15)
      c = set_size (cols_of state) (rows_of state) cols-IsSize (grind arith)

default_state : ℕ → ℕ
default_state state =
    if bit_and state 0xff == 0 && not (is_fractionated state) then bit_or state 0xaa else state

default-IsState : (state : ℕ) → IsState state → IsState (default_state state)
unfolding default_state
default-IsState state s =
    elim (Bool-cases (bit_and state 0xff == 0 && not (is_fractionated state))) [
      | inl e ↦ rw e (or_default-IsState state s (ground arith))
      | inr e ↦ rw e s
    ]

conclude-Allows : (count state : ℕ) (g : Globals) → IsState state → Allows (conclude count state g)
unfolding Allows conclude default_state
conclude-Allows count state g s =
    let d = default-IsState state s in
    elim (Bool-cases (ltb count 2)) [
      | inl few ↦ rw few (inl refl)
      | inr enough ↦ elim (Bool-cases (is_fractionated (default_state state))) [
        | inl f ↦ rw (enough, f) (inr (inr (morse-IsMode (default_state state) d f)))
        | inr p ↦
            elim (Bool-cases
              (ltb (rows_of (default_state state) * cols_of (default_state state)) 94)) [
                | inl small ↦ rw (enough, p, small) (inl refl)
                | inr room ↦
                    rw (enough, p, room)
                      (inr (inr (polybius-IsMode (default_state state) d (ground arith))))
              ]
      ]
    ]

-- A field is 0 while its number is awaited.
Awaits : Awaited → ℕ → Type 0
Awaits flag_next state = Unit
Awaits key_next state = Unit
Awaits rows_next state = bit_and state 0xf0 ≡ 0
Awaits columns_next state = bit_and state 0xf ≡ 0

Allowed : Taken → Type 0
unfolding Allows Awaits
Allowed (ends parsed) = Allows parsed
Allowed (goes awaited count state g) = IsState state × Awaits awaited state

take_flag-Allowed :
    (f : Flag) (count state : ℕ) (g : Globals) → IsState state → Allowed (take_flag f count state g)
unfolding Allowed take_flag
take_flag-Allowed Flag.outside count state g s = tt
take_flag-Allowed Flag.too_long count state g s = inl refl
take_flag-Allowed Flag.help count state g s = inr (inl refl)
take_flag-Allowed Flag.polybius count state g s = (or_nothing-IsState state s, tt)
take_flag-Allowed Flag.fractionated count state g s = (or_fractionated-IsState state s, tt)
take_flag-Allowed Flag.encrypt count state g s = (or_nothing-IsState state s, tt)
take_flag-Allowed Flag.decrypt count state g s = (or_decrypt-IsState state s, tt)
take_flag-Allowed Flag.key_follows count state g s = elim (Bool-cases (length g.key == 0)) [
  | inl e ↦ rw e (s, tt)
  | inr e ↦ rw e (inl refl)
]
take_flag-Allowed Flag.rows_follow count state g s =
    elim (Bool-cases (is_fractionated state || not (bit_and state 0xf0 == 0))) [
      | inl e ↦ rw e (inl refl)
      | inr e ↦ rw e (s, ground arith)
    ]
take_flag-Allowed Flag.columns_follow count state g s =
    elim (Bool-cases (is_fractionated state || not (bit_and state 0xf == 0))) [
      | inl e ↦ rw e (inl refl)
      | inr e ↦ rw e (s, ground arith)
    ]
take_flag-Allowed Flag.other count state g s = (s, tt)

Checked-cases : (c : Checked) → (c ≡ invalid) ⊎ ((c ≡ overruns) ⊎ ((g : Globals) × (c ≡ valid g)))
Checked-cases invalid = inl refl
Checked-cases overruns = inr (inl refl)
Checked-cases (valid g) = inr (inr (g, refl))

Taken-cases :
    (x : Taken)
    → ((p : Parsed) × (x ≡ ends p))
      ⊎ ((a : Awaited) × (count : ℕ) × (state : ℕ) × (g : Globals) × (x ≡ goes a count state g))
Taken-cases (ends p) = inl (p, refl)
Taken-cases (goes a count state g) = inr (a, count, state, g, refl)

take_argument-Allowed :
    (arg : List ℕ) (awaited : Awaited) (count state : ℕ) (g : Globals)
    → IsState state
    → Awaits awaited state
    → Allowed (take_argument arg awaited count state g)
unfolding Allowed take_argument
take_argument-Allowed arg flag_next count state g s a =
    take_flag-Allowed (flag_of arg (count + 1)) (count + 1) state g s
take_argument-Allowed arg key_next count state g s a =
    elim (Checked-cases (check_key g arg (is_fractionated state))) [
      | inl e ↦ rw (take_argument, e) (inl refl)
      | inr (inl e) ↦ rw (take_argument, e) tt
      | inr (inr (g', e)) ↦ rw (take_argument, e) (s, tt)
    ]
take_argument-Allowed arg rows_next count state g s a = elim (Option-cases (read_size arg)) [
  | inl e ↦ rw (take_argument, e) (inl refl)
  | inr (num, e) ↦
      let (l, u) = read_size-le arg num e in
      rw (take_argument, e) (or_rows-IsState state s num l u a, tt)
]
take_argument-Allowed arg columns_next count state g s a = elim (Option-cases (read_size arg)) [
  | inl e ↦ rw (take_argument, e) (inl refl)
  | inr (num, e) ↦
      let (l, u) = read_size-le arg num e in
      rw (take_argument, e) (or_cols-IsState state s num l u a, tt)
]

module _ (arg : List ℕ) (args : List (List ℕ)) (awaited : Awaited) where
  parse_ends :
      (count state : ℕ) (g : Globals) (p : Parsed)
      → take_argument arg awaited count state g ≡ ends p
      → parse (arg ∷ args) awaited count state g ≡ p
  unfolding parse
  parse_ends count state g p e = rw (parse, e) refl

  parse_goes :
      (w : Awaited) (count state c t : ℕ) (g h : Globals)
      → take_argument arg awaited count state g ≡ goes w c t h
      → parse (arg ∷ args) awaited count state g ≡ parse args w c t h
  unfolding parse
  parse_goes w count state c t g h e = rw (parse, e) refl

parse-Allows :
    (args : List (List ℕ)) (awaited : Awaited) (count state : ℕ) (g : Globals)
    → IsState state
    → Awaits awaited state
    → Allows (parse args awaited count state g)
unfolding parse Allowed
parse-Allows [] flag_next count state g s a = conclude-Allows count state g s
parse-Allows [] key_next count state g s a = tt
parse-Allows [] rows_next count state g s a = tt
parse-Allows [] columns_next count state g s a = tt
parse-Allows (arg ∷ args) awaited count state g s a =
    let allowed = take_argument-Allowed arg awaited count state g s a in
    elim (Taken-cases (take_argument arg awaited count state g)) [
      | inl (p, e) ↦
          subst Allows (sym (parse_ends arg args awaited count state g p e))
            (subst Allowed e allowed)
      | inr (w, c, t, h, e) ↦
          let (s', a') = transport_goes w c t h (subst Allowed e allowed) in
          subst Allows (sym (parse_goes arg args awaited w count state c t g h e))
            (parse-Allows args w c t h s' a')
    ]
  where
    transport_goes :
        (w : Awaited) (c t : ℕ) (h : Globals) → Allowed (goes w c t h) → IsState t × Awaits w t
    transport_goes w c t h x = x

-- For every command line with which `validargs` returns, its value is 0, or the value for the help text,
-- or one below 0x8000 in which 0x4000 and 0x2000, of -f and -d, are the only bits above the sizes, and
-- rows and columns are 0 or from 9 to 15, and for the Polybius cipher from 9 to 15 with a product that is
-- the length of the alphabet at least.
pub valid_args-IsMode :
    (argv : List (List ℕ)) (g g' : Globals) (m : ℕ)
    → valid_args argv g ≡ parsed_mode m g'
    → (m ≡ 0) ⊎ ((m ≡ 0x8000) ⊎ IsMode m)
unfolding valid_args Allows Awaits
valid_args-IsMode argv g g' m e =
    subst Allows e (parse-Allows argv flag_next 0 0 (record g { key = [] }) IsState-zero tt)
