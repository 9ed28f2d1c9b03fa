-- ===== src/Shell/Words.antt =====
-- hw4/src/main.c: the words of a command, its arguments, and the search of PATH in `findexecutable`.
pub mod Search
use system_fundamentals_c_pr.Base.{
  ℕ, zero, suc, Bool, true, false, ◌&&◌, Option, none, some, List, [], ◌∷◌, ◌++◌, ◌==◌,
  if◌then◌else◌, length, leb,
}

-- `strtok_r` with one delimiter: it skips delimiters, and the token ends in front of the next one.
unfoldable pub skip : ℕ → List ℕ → List ℕ
skip delim [] = []
skip delim (c ∷ cs) = if c == delim then skip delim cs else c ∷ cs

unfoldable pub token_of : ℕ → List ℕ → List ℕ
token_of delim [] = []
token_of delim (c ∷ cs) = if c == delim then [] else c ∷ token_of delim cs

unfoldable pub rest_of : ℕ → List ℕ → List ℕ
rest_of delim [] = []
rest_of delim (c ∷ cs) = if c == delim then cs else rest_of delim cs

abbrev pub token_and_rest : ℕ → List ℕ → Option (List ℕ × List ℕ)
token_and_rest delim [] = none
token_and_rest delim (c ∷ cs) = some (token_of delim (c ∷ cs), rest_of delim (c ∷ cs))

unfoldable pub strtok_r : ℕ → List ℕ → Option (List ℕ × List ℕ)
unfolding skip token_of rest_of
strtok_r delim s = token_and_rest delim (skip delim s)

-- `while((currarg = strtok_r(NULL, " ", &inputptr)) != NULL)`
unfoldable pub arguments : ℕ → List ℕ → List (List ℕ)
arguments zero inputptr = []
arguments (suc fuel) inputptr = elim (strtok_r b' ' inputptr) [
  | none ↦ []
  | some (currarg, inputptr') ↦ currarg ∷ arguments fuel inputptr'
]

-- `if(strstr(currarg, "./") == currarg) currarg += 2;`
abbrev pub without_dot : List ℕ → List ℕ
without_dot [] = []
without_dot (c ∷ []) = c ∷ []
without_dot (c ∷ d ∷ cs) = if c == b'.' && d == b'/' then cs else c ∷ d ∷ cs

-- `argv` in `prepexecute`.
unfoldable pub prepare_arguments : ℕ → List ℕ → List ℕ → List (List ℕ)
prepare_arguments fuel currarg inputptr = without_dot currarg ∷ arguments fuel inputptr

-- The search of PATH; `no_path` is the use of NULL when PATH has no directory, and `overruns` a write behind
-- `execpath`, of 256 bytes, or behind the copy of PATH.
pub data Found : Type 0 where
  found : List ℕ → Found
  not_found : Found
  no_path : Found
  overruns : Found

abbrev pub exec_path : List ℕ → List ℕ → List ℕ
exec_path pathtok currarg = (pathtok ++ b'/' ∷ []) ++ currarg

-- `strcat` of the parts, with the NUL behind them, and `stat`.
abbrev pub try_path : (List ℕ → Bool) → List ℕ → Found → Found
try_path is_file execpath rest =
    if leb 256 (length execpath)
    then overruns
    else if is_file execpath
    then found execpath
    else rest

-- `while(success < 0 && pathtok != NULL)`; `is_file` says whether `stat` succeeds.
unfoldable pub search_rest : ℕ → (List ℕ → Bool) → List ℕ → List ℕ → Found
search_rest zero is_file currarg path = not_found
search_rest (suc fuel) is_file currarg path = elim (strtok_r b':' path) [
  | none ↦ not_found
  | some (pathtok, path') ↦
      let rest = search_rest fuel is_file currarg path' in
      try_path is_file (exec_path pathtok currarg) rest
]

-- `usable` gives the bytes that a block of `malloc` has; the copy of PATH asks for one less than it needs.
unfoldable pub search_path : (ℕ → ℕ) → ℕ → (List ℕ → Bool) → List ℕ → List ℕ → Found
search_path usable fuel is_file currarg path =
    if leb (usable (length path)) (length path) then overruns else elim (strtok_r b':' path) [
      | none ↦ no_path
      | some (pathtok, path') ↦
          try_path is_file (exec_path pathtok currarg) (search_rest fuel is_file currarg path')
    ]
