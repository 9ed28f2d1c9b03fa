-- ===== src/Shell/Words/Search.antt =====
-- hw4/src/main.c: the words and the directories that `strtok_r` gets out of a text.
use system_fundamentals_c_pr.Base.{
  ℕ, zero, suc, ◌≡◌, ◌≢◌, ◌<◌, refl, ap, Bool, none, some, List, [], ◌∷◌, ◌++◌, All, if◌then◌else◌,
  length, length-append, arith, ==_of_ne, ==_refl, ltb, leb, true, false, ◌+◌, inl, inr, Bool-cases,
}
use system_fundamentals_c_pr.Shell.Words.{
  skip, token_of, rest_of, token_and_rest, strtok_r, arguments, without_dot, prepare_arguments,
  Found, found, not_found, overruns, exec_path, try_path, search_rest, search_path,
}

-- A token without delimiters.
abbrev pub Token : ℕ → List ℕ → Type 0
Token delim [] = ⊥
Token delim (c ∷ cs) = All (λ d. d ≢ delim) (c ∷ cs)

-- Tokens with a delimiter between them.
abbrev pub joined : ℕ → List (List ℕ) → List ℕ
joined delim [] = []
joined delim (w ∷ []) = w
joined delim (w ∷ v ∷ ws) = w ++ delim ∷ joined delim (v ∷ ws)

token_of-ended :
    (delim : ℕ) (w rest : List ℕ)
    → All (λ d. d ≢ delim) w
    → (token_of delim (w ++ delim ∷ rest) ≡ w) × (rest_of delim (w ++ delim ∷ rest) ≡ rest)
unfolding token_of rest_of
token_of-ended delim [] rest h =
    (rw (token_of, ==_refl delim) refl, rw (rest_of, ==_refl delim) refl)
token_of-ended delim (c ∷ w) rest (n, h) =
    let (t, r) = token_of-ended delim w rest h in
    (rw (token_of, ==_of_ne c delim n) (ap (λ x. c ∷ x) t), rw (rest_of, ==_of_ne c delim n) r)

strtok_r-ended :
    (delim : ℕ) (w rest : List ℕ)
    → Token delim w
    → strtok_r delim (w ++ delim ∷ rest) ≡ some (w, rest)
unfolding strtok_r
strtok_r-ended delim [] rest h = absurd h
strtok_r-ended delim (c ∷ w) rest (n, h) =
    let (t, r) = token_of-ended delim (c ∷ w) rest (n, h) in
    rw (strtok_r, skip, ==_of_ne c delim n, token_and_rest, t, r) refl

token_of-last :
    (delim : ℕ) (w : List ℕ)
    → All (λ d. d ≢ delim) w
    → (token_of delim w ≡ w) × (rest_of delim w ≡ [])
unfolding token_of rest_of
token_of-last delim [] h = (refl, refl)
token_of-last delim (c ∷ w) (n, h) =
    let (t, r) = token_of-last delim w h in
    (rw (token_of, ==_of_ne c delim n) (ap (λ x. c ∷ x) t), rw (rest_of, ==_of_ne c delim n) r)

strtok_r-last : (delim : ℕ) (w : List ℕ) → Token delim w → strtok_r delim w ≡ some (w, [])
unfolding strtok_r
strtok_r-last delim [] h = absurd h
strtok_r-last delim (c ∷ w) (n, h) =
    let (t, r) = token_of-last delim (c ∷ w) (n, h) in
    rw (strtok_r, skip, ==_of_ne c delim n, token_and_rest, t, r) refl

pub strtok_r-joined :
    (delim : ℕ) (w : List ℕ) (ws : List (List ℕ))
    → Token delim w
    → strtok_r delim (joined delim (w ∷ ws)) ≡ some (w, joined delim ws)
strtok_r-joined delim w [] h = strtok_r-last delim w h
strtok_r-joined delim w (v ∷ ws) h = strtok_r-ended delim w (joined delim (v ∷ ws)) h

pub strtok_r-nil : (delim : ℕ) → strtok_r delim [] ≡ none
unfolding strtok_r
strtok_r-nil delim = refl

arguments-joined :
    (fuel : ℕ) (words : List (List ℕ))
    → All (λ w. Token b' ' w) words
    → length words < fuel
    → arguments fuel (joined b' ' words) ≡ words
unfolding arguments
arguments-joined zero words h l = ground arith
arguments-joined (suc fuel) [] h l = rw (arguments, strtok_r-nil b' ') refl
arguments-joined (suc fuel) (w ∷ ws) (t, h) l =
    rw (arguments, strtok_r-joined b' ' w ws t)
      (ap (λ x. w ∷ x) (arguments-joined fuel ws h (omega arith)))

-- The arguments of a command, for words without blanks and with one blank between them, and fuel that is
-- more than their number: they are those words, the first of the command without `./`.
pub prepare_arguments-joined :
    (fuel : ℕ) (currarg : List ℕ) (words : List (List ℕ))
    → All (λ w. Token b' ' w) words
    → length words < fuel
    → prepare_arguments fuel currarg (joined b' ' words) ≡ without_dot currarg ∷ words
unfolding prepare_arguments
prepare_arguments-joined fuel currarg words h l =
    ap (λ ws. without_dot currarg ∷ ws) (arguments-joined fuel words h l)

-- The first directory that has the file, unless the path of a directory before it, or its own, has 256
-- characters or more.
abbrev pub first_found : (List ℕ → Bool) → List ℕ → List (List ℕ) → Found
first_found is_file currarg [] = not_found
first_found is_file currarg (d ∷ ds) =
    if ltb (length d + 1 + length currarg) 256
    then (if is_file (exec_path d currarg)
        then found (exec_path d currarg)
        else first_found is_file currarg ds)
    else overruns

length-exec_path :
    (d currarg : List ℕ) → length (exec_path d currarg) ≡ length d + 1 + length currarg
length-exec_path d currarg =
    omega (arith, length-append (d ++ b'/' ∷ []) currarg, length-append d (b'/' ∷ []))

try_path-fits :
    (is_file : List ℕ → Bool) (d currarg : List ℕ) (rest : Found)
    → try_path is_file (exec_path d currarg) rest ≡ (
        if ltb (length d + 1 + length currarg) 256
        then (if is_file (exec_path d currarg) then found (exec_path d currarg) else rest)
        else overruns)
try_path-fits is_file d currarg rest =
    let e = length-exec_path d currarg in
    elim (Bool-cases (ltb (length d + 1 + length currarg) 256)) [
      | inl f ↦
          let g : leb 256 (length (exec_path d currarg)) ≡ false = ground (arith, e, f) in
          rw (g, f) refl
      | inr f ↦
          let g : leb 256 (length (exec_path d currarg)) ≡ true = ground (arith, e, f) in
          rw (g, f) refl
    ]

search_rest-first_found :
    (fuel : ℕ) (is_file : List ℕ → Bool) (currarg : List ℕ) (ds : List (List ℕ))
    → All (λ d. Token b':' d) ds
    → length ds < fuel
    → search_rest fuel is_file currarg (joined b':' ds) ≡ first_found is_file currarg ds
unfolding search_rest
search_rest-first_found zero is_file currarg ds h l = ground arith
search_rest-first_found (suc fuel) is_file currarg [] h l = rw (search_rest, strtok_r-nil b':') refl
search_rest-first_found (suc fuel) is_file currarg (d ∷ ds) (t, h) l =
    rw
      (
        search_rest,
        strtok_r-joined b':' d ds t,
        search_rest-first_found fuel is_file currarg ds h (omega arith),
      )
      (try_path-fits is_file d currarg (first_found is_file currarg ds))

-- The search of PATH, for directories that are not empty and have no colon, with a colon between them, fuel
-- for all of them, and a block for the copy of PATH in which `malloc` gives at least one byte more than the
-- code asks for: it gives the file in the first directory that has it, and says so when none has, but writes
-- behind `execpath` at the first directory whose path of the file has 256 characters or more, where no
-- directory before it has the file.
pub search_path-first_found :
    (usable : ℕ → ℕ) (fuel : ℕ) (is_file : List ℕ → Bool) (currarg d : List ℕ) (ds : List (List ℕ))
    → All (λ x. Token b':' x) (d ∷ ds)
    → length ds < fuel
    → length (joined b':' (d ∷ ds)) < usable (length (joined b':' (d ∷ ds)))
    → search_path usable fuel is_file currarg (joined b':' (d ∷ ds))
      ≡ first_found is_file currarg (d ∷ ds)
unfolding search_path
search_path-first_found usable fuel is_file currarg d ds (t, h) l room =
    let path = joined b':' (d ∷ ds) in
    let copied : leb (usable (length path)) (length path) ≡ false = ground (arith, room) in
    rw
      (
        search_path,
        copied,
        strtok_r-joined b':' d ds t,
        search_rest-first_found fuel is_file currarg ds h l,
      )
      (try_path-fits is_file d currarg (first_found is_file currarg ds))
