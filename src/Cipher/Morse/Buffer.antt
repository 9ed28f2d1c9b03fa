-- ===== src/Cipher/Morse/Buffer.antt =====
-- The buffer of eight bytes of hw1/src/hw1.c: symbols, and NULs behind them.
use mathlib.Core.List.{append_assoc}
use system_fundamentals_c_pr.Base.{
  ℕ, zero, suc, ◌+◌, ◌-◌, ◌≤◌, ◌≡◌, ◌≢◌, inl, inr, refl, ap, ◌∙◌, sym, none, some, List, [], ◌∷◌,
  ◌++◌, All, length, replicate, arith, Option-cases, ==_of_ne, length-append, length-replicate,
}
use system_fundamentals_c_pr.Cipher.Tables.{fractionated_table}
use system_fundamentals_c_pr.Cipher.Morse.{
  insert_symbols, print_triple, move_by_three, buffer_loop, buffer_encrypt,
}
use system_fundamentals_c_pr.Cipher.Morse.Stream.{print_stream, print_triple_front}

abbrev nul : ℕ
nul = 0

abbrev nuls : ℕ → List ℕ
nuls n = replicate n nul

abbrev pub padded : List ℕ → List ℕ
padded p = p ++ nuls (8 - length p)

insert_zeros :
    (m : ℕ) (s : List ℕ) (k : ℕ) → m ≡ length s + k → insert_symbols (nuls m) s ≡ s ++ nuls k
unfolding insert_symbols
insert_zeros zero [] k e = let z : k ≡ 0 = omega (arith, e) in rw z refl
insert_zeros (suc m) [] k e = let z : k ≡ suc m = omega (arith, e) in rw z refl
insert_zeros zero (x ∷ s) k e = absurd (omega (arith, e))
insert_zeros (suc m) (x ∷ s) k e = ap (λ t. x ∷ t) (insert_zeros m s k (omega (arith, e)))

insert_behind :
    (p : List ℕ) (m : ℕ) (s : List ℕ) (k : ℕ)
    → All (λ x. x ≢ 0) p
    → m ≡ length s + k
    → insert_symbols (p ++ nuls m) s ≡ p ++ (s ++ nuls k)
unfolding insert_symbols
insert_behind [] m s k marks e = insert_zeros m s k e
insert_behind (zero ∷ p) m s k (n, marks) e = absurd (n refl)
insert_behind (suc x ∷ p) m [] k (n, marks) e = let z : m ≡ k = omega (arith, e) in rw z refl
insert_behind (suc x ∷ p) m (y ∷ s) k (n, marks) e =
    ap (λ t. suc x ∷ t) (insert_behind p m (y ∷ s) k marks e)

-- Symbols that fit are put behind those that are there.
pub insert_symbols-padded :
    (p s : List ℕ)
    → All (λ x. x ≢ 0) p
    → length p + length s ≤ 8
    → insert_symbols (padded p) s ≡ padded (p ++ s)
insert_symbols-padded p s marks l =
    insert_behind p (8 - length p) s (8 - length (p ++ s)) marks
      (omega (arith, l, length-append p s))
    ∙ sym (append_assoc p s (nuls (8 - length (p ++ s))))

zeros_end : (n m : ℕ) → m ≡ n + 3 → nuls n ++ nuls 3 ≡ nuls m
zeros_end zero m e = rw e refl
zeros_end (suc n) zero e = absurd (omega (arith, e))
zeros_end (suc n) (suc m) e = ap (λ t. 0 ∷ t) (zeros_end n m (omega (arith, e)))

moved : (a b c : ℕ) (p : List ℕ) → length p ≤ 5 → move_by_three (padded (a ∷ b ∷ c ∷ p)) ≡ padded p
unfolding move_by_three
moved a b c p l =
    append_assoc p (nuls (8 - length (a ∷ b ∷ c ∷ p))) (nuls 3)
    ∙ ap (λ (t : List ℕ). p ++ t)
        (zeros_end (8 - length (a ∷ b ∷ c ∷ p)) (8 - length p) (omega (arith, l)))

loop_of :
    (fm_key : List ℕ) (fuel : ℕ) (p : List ℕ)
    → All (λ x. x ≢ 0) p
    → length p ≤ 8
    → length p ≤ fuel
    → buffer_loop fuel fm_key (padded p)
      ≡ elim (print_stream fm_key p) [ none ↦ none | some (out, left) ↦ some (out, padded left) ]
unfolding buffer_loop print_stream
loop_of fm_key zero [] marks l f = refl
loop_of fm_key (suc fuel) [] marks l f = refl
loop_of fm_key zero (a ∷ p) marks l f = absurd (omega (arith, f))
loop_of fm_key (suc fuel) (a ∷ []) marks l f = refl
loop_of fm_key (suc fuel) (a ∷ b ∷ []) marks l f = refl
loop_of fm_key (suc fuel) (a ∷ b ∷ c ∷ p) (na, (nb, (nc, marks))) l f =
    elim (Option-cases (print_triple fm_key fractionated_table (a ∷ b ∷ c ∷ []))) [
      | inl e ↦
          rw
            (
              buffer_loop,
              print_stream,
              ==_of_ne c 0 nc,
              print_triple_front fm_key fractionated_table a b c _,
              e,
            )
            refl
      | inr (o, e) ↦
          let rest = loop_of fm_key fuel p marks (omega (arith, l)) (omega (arith, f)) in
          elim (Option-cases (print_stream fm_key p)) [
            | inl g ↦
                rw
                  (
                    buffer_loop,
                    print_stream,
                    ==_of_ne c 0 nc,
                    print_triple_front fm_key fractionated_table a b c _,
                    e,
                    moved a b c p (omega (arith, l)),
                    rest,
                    g,
                  )
                  refl
            | inr ((o', left), g) ↦
                rw
                  (
                    buffer_loop,
                    print_stream,
                    ==_of_ne c 0 nc,
                    print_triple_front fm_key fractionated_table a b c _,
                    e,
                    moved a b c p (omega (arith, l)),
                    rest,
                    g,
                  )
                  refl
          ]
    ]

length-padded : (p : List ℕ) → length p ≤ 8 → length (padded p) ≡ 8
length-padded p l =
    length-append p (nuls (8 - length p)) ∙ omega (arith, l, length-replicate (8 - length p) nul)

-- `bufferencrypt` prints the letters of the symbols in the buffer, and leaves the others.
pub buffer_encrypt-padded :
    (fm_key p : List ℕ)
    → All (λ x. x ≢ 0) p
    → length p ≤ 8
    → buffer_encrypt fm_key (padded p)
      ≡ elim (print_stream fm_key p) [ none ↦ none | some (out, left) ↦ some (out, padded left) ]
unfolding buffer_encrypt
buffer_encrypt-padded fm_key p marks l =
    loop_of fm_key (length (padded p)) p marks l (omega (arith, l, length-padded p l))
