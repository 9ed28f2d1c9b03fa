-- ===== src/Shell/Trim/Core.antt =====
-- hw4/src/main.c: what `trimwhitespace` keeps of a string.
use mathlib.Core.Path.{subst}
use system_fundamentals_c_pr.Base.{
  ℕ, zero, suc, ◌≡◌, ◌≢◌, refl, sym, ap, ◌∙◌, ◌⊎◌, inl, inr, Bool, true, false, ◌||◌, some, List,
  [], ◌∷◌, ◌++◌, All, ◌≤◌, ◌<◌, length, length-append, take, drop, Bool-cases, ltb, arith,
}
use system_fundamentals_c_pr.Shell.Trim.{is_blank, char_at, trim_front, trim_back, trimwhitespace}

abbrev pub Blank : List ℕ → Type 0
Blank cs = All (λ c. is_blank c ≡ true) cs

-- The string has no blank at its two ends.
abbrev pub starts_blank : List ℕ → Bool
starts_blank [] = false
starts_blank (c ∷ cs) = is_blank c

abbrev pub ends_blank : List ℕ → Bool
ends_blank [] = false
ends_blank (c ∷ []) = is_blank c
ends_blank (c ∷ d ∷ cs) = ends_blank (d ∷ cs)

pub record TrimmedTo (input core : List ℕ) : Type 0 where
  pub front : List ℕ
  pub back : List ℕ
  pub pieces : input ≡ front ++ (core ++ back)
  pub front_blank : Blank front
  pub back_blank : Blank back
  pub clean_start : starts_blank core ≡ false
  pub clean_end : ends_blank core ≡ false

trim_front_lem :
    (cs : List ℕ)
    → (front : List ℕ) × (cs ≡ front ++ trim_front cs)
      × Blank front
      × (starts_blank (trim_front cs) ≡ false)
unfolding trim_front
trim_front_lem [] = ([], refl, tt, refl)
trim_front_lem (c ∷ cs) = elim (Bool-cases (is_blank c)) [
  | inl y ↦
      let (front, e, blank, starts) = trim_front_lem cs in
      (c ∷ front, rw (trim_front, y) (ap (λ xs. c ∷ xs) e), (y, blank), rw (trim_front, y) starts)
  | inr n ↦ ([], rw (trim_front, n) refl, tt, rw (trim_front, n) n)
]

drop_step : (n : ℕ) (cs : List ℕ) → n < length cs → drop n cs ≡ char_at n cs ∷ drop (suc n) cs
drop_step zero [] l = ground arith
drop_step zero (c ∷ cs) l = refl
drop_step (suc n) [] l = ground arith
drop_step (suc n) (c ∷ cs) l = drop_step n cs (omega arith)

take-drop : (n : ℕ) (cs : List ℕ) → cs ≡ take n cs ++ drop n cs
take-drop zero cs = refl
take-drop (suc n) [] = refl
take-drop (suc n) (c ∷ cs) = ap (λ xs. c ∷ xs) (take-drop n cs)

take-starts : (n : ℕ) (cs : List ℕ) → starts_blank (take (suc n) cs) ≡ starts_blank cs
take-starts n [] = refl
take-starts n (c ∷ cs) = refl

take-ends :
    (n : ℕ) (cs : List ℕ) → n < length cs → ends_blank (take (suc n) cs) ≡ is_blank (char_at n cs)
take-ends n [] l = ground arith
take-ends zero (c ∷ cs) l = refl
take-ends (suc n) (c ∷ []) l = ground arith
take-ends (suc n) (c ∷ d ∷ cs) l = take-ends n (d ∷ cs) (omega arith)

-- What the loop from the end leaves of a token with no blank in front.
record Cut (advanced : Bool) (token : List ℕ) (end : ℕ) : Type 0 where
  core : List ℕ
  back : List ℕ
  result : trim_back advanced token end ≡ some core
  pieces : token ≡ core ++ back
  blank : Blank back
  clean_start : starts_blank core ≡ false
  clean_end : ends_blank core ≡ false

trim_back-Cut :
    (advanced : Bool) (token : List ℕ) (end : ℕ)
    → end ≤ length token
    → starts_blank token ≡ false
    → Blank (drop end token)
    → (advanced ≡ true) ⊎ (token ≢ [])
    → Cut advanced token end
unfolding trim_back
trim_back-Cut advanced [] zero l s b (inl a) = record {
  core = [];
  back = [];
  result = rw (a) refl;
  pieces = refl;
  blank = tt;
  clean_start = refl;
  clean_end = refl;
}
trim_back-Cut advanced [] zero l s b (inr n) = absurd (n refl)
trim_back-Cut advanced (c ∷ cs) zero l s (b, bs) w = absurd (ground arith)
trim_back-Cut advanced token (suc end) l s b w = elim (Bool-cases (is_blank (char_at end token))) [
  | inl y ↦
      let step = drop_step end token l in
      let cut =
        trim_back-Cut advanced token end (omega arith) s (subst (λ xs. Blank xs) (sym step) (y, b))
          w in
      record {
        core = cut.core;
        back = cut.back;
        result = rw (trim_back, y) cut.result;
        pieces = cut.pieces;
        blank = cut.blank;
        clean_start = cut.clean_start;
        clean_end = cut.clean_end;
      }
  | inr n ↦ record {
    core = take (suc end) token;
    back = drop (suc end) token;
    result = rw (trim_back, n) refl;
    pieces = take-drop (suc end) token;
    blank = b;
    clean_start = take-starts end token ∙ s;
    clean_end = take-ends end token l ∙ n;
  }
]

drop-length : (cs : List ℕ) → drop (length cs) cs ≡ []
drop-length [] = refl
drop-length (c ∷ cs) = drop-length cs

-- Either a blank went, or the token is the string.
moved :
    (nul_before : Bool) (input front token : List ℕ)
    → (nul_before ≡ true) ⊎ (input ≢ [])
    → input ≡ front ++ token
    → ((nul_before || ltb (length token) (length input)) ≡ true) ⊎ (token ≢ [])
moved true input front token w e = inl refl
moved false input front token (inl w) e = ground arith
moved false input [] token (inr n) e = inr (λ t. n (e ∙ t))
moved false input (c ∷ front) token (inr n) e =
    inl (rw (e) (let long = length-append front token in ground (arith, long)))

-- `trimwhitespace`, for a string that is not empty, or that stands behind a NUL, reads nothing else in
-- front of the string and returns what stands between the blanks and tabs at its two ends: the string is
-- blanks, the result, blanks, and the result neither starts nor ends with one.
pub trimwhitespace-TrimmedTo :
    (nul_before : Bool) (input : List ℕ)
    → (nul_before ≡ true) ⊎ (input ≢ [])
    → (core : List ℕ) × (trimwhitespace nul_before input ≡ some core) × TrimmedTo input core
unfolding trimwhitespace
trimwhitespace-TrimmedTo nul_before input w =
    let (front, e, blank, starts) = trim_front_lem input in
    let token = trim_front input in
    let advanced = nul_before || ltb (length token) (length input) in
    let cut =
      trim_back-Cut advanced token (length token) (omega arith) starts
        (subst (λ xs. Blank xs) (sym (drop-length token)) tt)
        (moved nul_before input front token w e) in
    (
      cut.core,
      cut.result,
      record {
        front = front;
        back = cut.back;
        pieces = e ∙ ap (λ xs. front ++ xs) cut.pieces;
        front_blank = blank;
        back_blank = cut.blank;
        clean_start = cut.clean_start;
        clean_end = cut.clean_end;
      },
    )
