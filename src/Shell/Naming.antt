-- ===== src/Shell/Naming.antt =====
-- hw4/src/main.c: the name of a new job, in a block of 50 bytes.
use mathlib.Core.List.{append_assoc}
use system_fundamentals_c_pr.Base.{
  ℕ, zero, suc, ◌+◌, ◌≡◌, ◌≢◌, ◌⊎◌, inl, inr, Option-cases, ◌<◌, ◌≤◌, refl, ap, ◌∙◌, true, false,
  Option, none, some, List, [], ◌∷◌, ◌++◌, All, ◌==◌, length, take, replicate, if◌then◌else◌, ltb,
  leb, arith, ==_of_ne, Bool-cases,
}

-- `strlen`, up to the end of the block.
unfoldable pub string_length : List ℕ → Option ℕ
string_length [] = none
string_length (c ∷ cs) = elim (c == 0) [
  | true ↦ some 0
  | false ↦ elim (string_length cs) [ none ↦ none | some n ↦ some (suc n) ]
]

-- `strncpy(name, input, 47)` into what `malloc(50)` gives: the last three bytes are as they were.
abbrev pub copied : List ℕ → List ℕ → List ℕ
copied junk input = take 47 (input ++ replicate 47 0) ++ junk

-- None when it reads or writes behind the block.
unfoldable pub job_name : List ℕ → List ℕ → Option (List ℕ)
unfolding string_length
job_name junk input = elim (string_length (copied junk input)) [
  | none ↦ none
  | some n ↦
      if ltb 46 n
      then if leb (n + 4) 50
        then some (take n (copied junk input) ++ b'.' ∷ b'.' ∷ b'.' ∷ [])
        else none
      else some (take n (copied junk input))
]

string_length-short :
    (a b : List ℕ) → All (λ c. c ≢ 0) a → string_length (a ++ 0 ∷ b) ≡ some (length a)
unfolding string_length
string_length-short [] b h = refl
string_length-short (c ∷ a) b (n, h) =
    rw (string_length, ==_of_ne c 0 n, string_length-short a b h) refl

-- A string that fills a part of the block ends behind it, if anywhere.
string_length-long :
    (a b : List ℕ)
    → All (λ c. c ≢ 0) a
    → (string_length (a ++ b) ≡ none) ⊎ ((n : ℕ) × (string_length (a ++ b) ≡ some (length a + n)))
unfolding string_length
string_length-long [] b h = elim (Option-cases (string_length b)) [
  | inl e ↦ inl e
  | inr (n, e) ↦ inr (n, e ∙ ap (λ k. some k) (omega arith))
]
string_length-long (c ∷ a) b (z, h) = elim (string_length-long a b h) [
  | inl e ↦ inl (rw (string_length, ==_of_ne c 0 z, e) refl)
  | inr (n, e) ↦ inr (n, rw (string_length, ==_of_ne c 0 z, e) (ap (λ k. some k) (omega arith)))
]

take_through :
    (n : ℕ) (a zs : List ℕ)
    → length a < n
    → (rest : List ℕ) × (take n (a ++ 0 ∷ zs) ≡ a ++ 0 ∷ rest)
take_through zero a zs l = absurd (omega arith)
take_through (suc n) [] zs l = (take n zs, refl)
take_through (suc n) (c ∷ a) zs l =
    let (rest, e) = take_through n a zs (omega arith) in (rest, ap (λ xs. c ∷ xs) e)

take_within : (n : ℕ) (a zs : List ℕ) → n ≤ length a → take n (a ++ zs) ≡ take n a
take_within zero a zs l = refl
take_within (suc n) [] zs l = absurd (omega arith)
take_within (suc n) (c ∷ a) zs l = ap (λ xs. c ∷ xs) (take_within n a zs (omega arith))

length-take : (n : ℕ) (a : List ℕ) → n ≤ length a → length (take n a) ≡ n
length-take zero a l = refl
length-take (suc n) [] l = absurd (omega arith)
length-take (suc n) (c ∷ a) l = let rest = length-take n a (omega arith) in omega arith

All-take : (P : ℕ → Type 0) (n : ℕ) (a : List ℕ) → All P a → All P (take n a)
All-take P zero a h = tt
All-take P (suc n) [] h = tt
All-take P (suc n) (c ∷ a) (p, h) = (p, All-take P n a h)

take_all : (a b : List ℕ) → take (length a) (a ++ b) ≡ a
take_all [] b = refl
take_all (c ∷ a) b = ap (λ xs. c ∷ xs) (take_all a b)

short_name :
    (junk input : List ℕ)
    → All (λ c. c ≢ 0) input
    → length input < 47
    → job_name junk input ≡ some input
unfolding job_name
short_name junk input h l =
    let (rest, e) = take_through 47 input (replicate 46 0) l in
    let block : copied junk input ≡ input ++ 0 ∷ (rest ++ junk) =
      ap (λ xs. xs ++ junk) e ∙ append_assoc input (0 ∷ rest) junk in
    let fits : ltb 46 (length input) ≡ false = ground arith in
    rw
      (
        job_name,
        block,
        string_length-short input (rest ++ junk) h,
        fits,
        block,
        take_all input (0 ∷ (rest ++ junk)),
      )
      refl

long_name :
    (junk input : List ℕ) → All (λ c. c ≢ 0) input → 47 ≤ length input → job_name junk input ≡ none
unfolding job_name
long_name junk input h l =
    let block : copied junk input ≡ take 47 input ++ junk =
      ap (λ xs. xs ++ junk) (take_within 47 input (replicate 47 0) l) in
    elim (string_length-long (take 47 input) junk (All-take (λ c. c ≢ 0) 47 input h)) [
      | inl e ↦ rw (job_name, block, e) refl
      | inr (n, e) ↦
          let many : ltb 46 (length (take 47 input) + n) ≡ true =
            (let m = length-take 47 input l in ground arith) in
          let no_room : leb (length (take 47 input) + n + 4) 50 ≡ false =
            (let m = length-take 47 input l in ground arith) in
          rw (job_name, block, e, many, no_room) refl
    ]

-- The name of a new job, for an input without NULs and whatever stands in the block that `malloc` gives:
-- an input of less than 47 characters is copied; for any other, the code reads or writes behind the
-- block of 50 bytes.
pub job_name-fits :
    (junk input : List ℕ)
    → All (λ c. c ≢ 0) input
    → job_name junk input ≡ (if ltb (length input) 47 then some input else none)
job_name-fits junk input h = elim (Bool-cases (ltb (length input) 47)) [
  | inl y ↦ rw (y) (short_name junk input h (ground arith))
  | inr n ↦ rw (n) (long_name junk input h (ground arith))
]
