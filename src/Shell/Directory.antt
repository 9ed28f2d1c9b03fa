-- ===== src/Shell/Directory.antt =====
-- hw4/src/main.c: `cd`. A directory is the text that `getcwd` gives for it, of less than 256 characters, and
-- so are $HOME and the argument of `cd`, which the code copies into arrays of 256 without a test.
pub mod Back
use system_fundamentals_c_pr.Base.{
  ℕ, zero, suc, Bool, true, false, Option, none, some, List, [], ◌∷◌, ◌==◌, if◌then◌else◌, codes,
}

-- The directory of the process, `currentDir` and `prevDir`.
pub record Directories : Type 0 where
  pub working : List ℕ
  pub current : List ℕ
  pub previous : List ℕ

pub data Message : Type 0 where
  quiet : Message
  no_previous : Message
  no_directory : List ℕ → Message

-- The directory after `chdir`, which stays when it fails.
abbrev pub changed_to : List ℕ → Option (List ℕ) → List ℕ
changed_to d none = d
changed_to d (some d') = d'

-- `for(;*tokinput && *tokinput != '/'; tokinput++); if(*tokinput == '/'){tokinput++;}`
unfoldable pub behind_slash : List ℕ → List ℕ
behind_slash [] = []
behind_slash (c ∷ cs) = if c == b'/' then cs else behind_slash cs

-- What the first characters of the argument do, and what is left of it.
abbrev pub second_dot : (List ℕ → List ℕ → Option (List ℕ)) → List ℕ → List ℕ → List ℕ
second_dot chdir d [] = d
second_dot chdir d (c ∷ cs) = if c == b'.' then changed_to d (chdir d (codes "..")) else d

unfoldable pub enter_first : (List ℕ → List ℕ → Option (List ℕ)) → List ℕ → List ℕ → List ℕ → List ℕ
enter_first chdir home d [] = d
enter_first chdir home d (c ∷ cs) =
    if c == b'.'
    then second_dot chdir (changed_to d (chdir d (codes "."))) cs
    else if c == b'~'
    then changed_to d (chdir d home)
    else d

unfoldable pub left_over : List ℕ → List ℕ
unfolding behind_slash
left_over [] = []
left_over (c ∷ cs) =
    if c == b'.' then behind_slash (c ∷ cs) else if c == b'~' then behind_slash (c ∷ cs) else c ∷ cs

-- The rest of the argument, from the directory that its start leads to.
abbrev pub enter_rest :
    (List ℕ → List ℕ → Option (List ℕ)) → List ℕ → List ℕ → List ℕ → Directories × Message
enter_rest chdir old d [] = (record { working = d; current = d; previous = old }, quiet)
enter_rest chdir old d (c ∷ cs) = elim (chdir d (c ∷ cs)) [
  | none ↦ (record { working = d; current = d; previous = old }, no_directory (c ∷ cs))
  | some d' ↦ (record { working = d'; current = d'; previous = d }, quiet)
]

-- `cd -`
abbrev pub swap_directories :
    (List ℕ → List ℕ → Option (List ℕ)) → Directories → Directories × Message
swap_directories chdir s = elim s.previous [
  | [] ↦ (s, no_previous)
  | c ∷ cs ↦ (
    record {
      working = changed_to s.working (chdir s.working (c ∷ cs));
      current = c ∷ cs;
      previous = s.current;
    },
    quiet,
  )
]

abbrev pub is_dash : List ℕ → Bool
is_dash [] = false
is_dash (c ∷ []) = c == b'-'
is_dash (c ∷ d ∷ cs) = false

-- `cd` with its argument, or none; `home` is $HOME.
unfoldable pub cd :
    (List ℕ → List ℕ → Option (List ℕ))
    → List ℕ
    → Directories
    → Option (List ℕ)
    → Directories × Message
cd chdir home s none = (
  record {
    working = changed_to s.working (chdir s.working home);
    current = home;
    previous = s.current;
  },
  quiet,
)
cd chdir home s (some tok) =
    if is_dash tok
    then swap_directories chdir s
    else enter_rest chdir s.current (enter_first chdir home s.working tok) (left_over tok)
