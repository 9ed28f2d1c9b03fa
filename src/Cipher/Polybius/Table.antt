-- ===== src/Cipher/Polybius/Table.antt =====
-- What table `generatepolybiustable` of hw1/src/hw1.c makes.
use mathlib.Core.List.{append_assoc}
use system_fundamentals_c_pr.Base.{
  ℕ, zero, suc, ◌+◌, ◌-◌, ◌*◌, ◌<◌, ◌≤◌, ◌≡◌, refl, ap, ◌∙◌, sym, false, some, List, [], ◌∷◌, ◌++◌,
  length, length-append, set, replicate, ◌==◌, if◌then◌else◌, arith, Bool-cases, inl, inr,
}
use system_fundamentals_c_pr.Cipher.Tables.{polybius_alphabet, Globals}
use system_fundamentals_c_pr.Cipher.Args.{contains, rows_of, cols_of}
use system_fundamentals_c_pr.Cipher.Polybius.{copy_key, count_in, fill, generate_polybius_table}

-- The letters that the key does not have, in order.
unfoldable pub kept : List ℕ → List ℕ → List ℕ
kept key [] = []
kept key (c ∷ letters) = if contains key c then kept key letters else c ∷ kept key letters

-- No character of the key stands in it twice.
abbrev pub Distinct : List ℕ → Type 0
Distinct [] = Unit
Distinct (k ∷ key) = (contains key k ≡ false) × Distinct key

count_in-contains :
    (key : List ℕ) (c : ℕ) → Distinct key → count_in key c ≡ (if contains key c then 1 else 0)
unfolding count_in contains
count_in-contains [] c d = refl
count_in-contains (k ∷ key) c (n, d) =
    let ih = count_in-contains key c d in
    elim (Bool-cases (k == c)) [
      | inl e ↦ let h : contains key c ≡ false = ground (arith, n, e) in ground (arith, ih, h, e)
      | inr e ↦ ground (arith, ih, e)
    ]

length-kept : (key letters : List ℕ) → length (kept key letters) ≤ length letters
unfolding kept
length-kept key [] = omega arith
length-kept key (c ∷ letters) = elim (Bool-cases (contains key c)) [
  | inl h ↦ rw h (omega (arith, length-kept key letters))
  | inr h ↦ rw h (omega (arith, length-kept key letters))
]

set-append : (xs ys : List ℕ) (k v : ℕ) → set (xs ++ ys) (length xs + k) v ≡ xs ++ set ys k v
set-append [] ys k v = ap (λ i. set ys i v) (omega arith)
set-append (x ∷ xs) ys k v =
    let e : suc (length xs) + k ≡ suc (length xs + k) = omega arith in
    rw e (ap (λ (l : List ℕ). x ∷ l) (set-append xs ys k v))

abbrev zeros : ℕ → List ℕ
zeros n = replicate n 0

set_zero : (n k : ℕ) → set (zeros n) k 0 ≡ zeros n
set_zero zero k = refl
set_zero (suc n) zero = refl
set_zero (suc n) (suc k) = ap (λ (l : List ℕ). 0 ∷ l) (set_zero n k)

-- Behind the alphabet the rounds write zeros over zeros.
fill-zeros :
    (rounds : ℕ) (key done : List ℕ) (n k : ℕ)
    → fill rounds [] key (length done + k) (done ++ zeros n) ≡ done ++ zeros n
unfolding fill
fill-zeros zero key done n k = refl
fill-zeros (suc rounds) key done n k =
    let e : length done + k + 1 ≡ length done + (k + 1) = omega arith in
    rw (set-append done (zeros n) k 0, set_zero n k, e) (fill-zeros rounds key done n (k + 1))

one_written :
    (done : List ℕ) (x v n : ℕ) → set (done ++ x ∷ zeros n) (length done) v ≡ done ++ v ∷ zeros n
one_written done x v n =
    let e : length done ≡ length done + 0 = omega arith in rw e (set-append done (x ∷ zeros n) 0 v)

snoc : (done rest : List ℕ) (c : ℕ) → (done ++ c ∷ []) ++ rest ≡ done ++ c ∷ rest
snoc done rest c = append_assoc done (c ∷ []) rest

-- The rounds that are left reach the end of the alphabet, and `x` is overwritten.
fill-kept :
    (rounds : ℕ) (letters key done : List ℕ) (x n : ℕ)
    → Distinct key
    → length letters < rounds
    → length letters ≤ n
    → fill rounds letters key (length done) (done ++ x ∷ zeros n)
      ≡ done ++ (kept key letters ++ zeros (n + 1 - length (kept key letters)))
unfolding fill kept
fill-kept zero letters key done x n d l r = absurd (omega arith)
fill-kept (suc rounds) [] key done x n d l r =
    let e : n + 1 - 0 ≡ suc n = omega arith in
    rw (one_written done x 0 n, e) (fill-zeros rounds key done (suc n) 1)
fill-kept (suc rounds) (c ∷ letters) key done x zero d l r = absurd (omega arith)
fill-kept (suc rounds) (c ∷ letters) key done x (suc n) d l r = elim (Bool-cases (contains key c)) [
  | inl h ↦
      let e : length done + 1 - count_in key c ≡ length done =
        ground (arith, count_in-contains key c d, h) in
      rw (one_written done x c (suc n), e, h)
        (fill-kept rounds letters key done c (suc n) d (omega arith) (omega arith))
  | inr h ↦
      let e : length done + 1 - count_in key c ≡ length (done ++ c ∷ []) =
        ground (arith, count_in-contains key c d, h, length-append done (c ∷ [])) in
      let k : suc n + 1 - suc (length (kept key letters)) ≡ n + 1 - length (kept key letters) =
        omega arith in
      rw (one_written done x c (suc n), e, h, k)
        (ap (fill rounds letters key (length (done ++ c ∷ []))) (sym (snoc done (zeros (suc n)) c))
          ∙ fill-kept rounds letters key (done ++ c ∷ []) 0 n d (omega arith) (omega arith)
          ∙ snoc done (kept key letters ++ zeros (n + 1 - length (kept key letters))) c)
]

pub copy_key-zeros :
    (key : List ℕ) (n : ℕ)
    → length key ≤ n
    → copy_key key (zeros n) ≡ some (key ++ zeros (n - length key))
unfolding copy_key
copy_key-zeros [] n l = let e : n - 0 ≡ n = omega arith in rw e refl
copy_key-zeros (k ∷ key) zero l = absurd (omega arith)
copy_key-zeros (k ∷ key) (suc n) l =
    let e : suc n - suc (length key) ≡ n - length key = omega arith in
    rw (copy_key-zeros key n (omega arith), e) refl

pub generate_of_fill :
    (m : ℕ) (g : Globals) (table : List ℕ)
    → copy_key g.key g.polybius_table ≡ some table
    → generate_polybius_table m g
      ≡ some (record g {
        polybius_table =
            fill
              (rows_of m * cols_of m - length g.key)
              polybius_alphabet
              g.key
              (length g.key)
              table;
      })
unfolding generate_polybius_table
generate_of_fill m g table e = rw (generate_polybius_table, e) refl

fill_from_key :
    (rounds : ℕ) (letters key : List ℕ) (n : ℕ)
    → Distinct key
    → length key + length letters < n
    → length letters < rounds
    → fill rounds letters key (length key) (key ++ zeros (n - length key))
      ≡ key ++ (kept key letters ++ zeros (n - length key - length (kept key letters)))
fill_from_key rounds letters key n d l r =
    let e : n - length key ≡ suc (n - length key - 1) = omega arith in
    let f : suc (n - length key - 1) ≡ n - length key - 1 + 1 = omega arith in
    rw e (
      fill-kept rounds letters key key 0 (n - length key - 1) d r (omega arith)
      ∙ ap (λ (i : ℕ). key ++ (kept key letters ++ zeros (i - length (kept key letters)))) (sym f))

-- In a table with a cell for each letter of the alphabet, each character of the key and one more, the key
-- comes first, then the alphabet without the letters of the key, in order, and then zeros.
pub generate_polybius_table-kept :
    (m : ℕ) (g : Globals)
    → g.polybius_table ≡ replicate 257 0
    → Distinct g.key
    → length g.key + length polybius_alphabet < rows_of m * cols_of m
    → rows_of m * cols_of m ≤ 257
    → generate_polybius_table m g
      ≡ some (record g {
        polybius_table =
            g.key
            ++ (kept g.key polybius_alphabet
                ++ replicate (257 - length g.key - length (kept g.key polybius_alphabet)) 0);
      })
generate_polybius_table-kept m g z d l r =
    generate_of_fill m g _ (ap (copy_key g.key) z ∙ copy_key-zeros g.key 257 (omega arith))
    ∙ ap (λ (t : List ℕ). some (record g { polybius_table = t }))
        (fill_from_key (rows_of m * cols_of m - length g.key) polybius_alphabet g.key 257 d
          (omega arith) (omega arith))
