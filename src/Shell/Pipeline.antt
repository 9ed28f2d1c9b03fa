-- ===== src/Shell/Pipeline.antt =====
-- hw4/src/main.c: which commands `main` runs itself, and the pipes between the others.
pub mod Connected
pub mod Names
use system_fundamentals_c_pr.Base.{
  ℕ, zero, suc, Bool, true, false, ◌&&◌, ◌||◌, Option, none, some, List, [], ◌∷◌, ◌++◌, ◌==◌,
  if◌then◌else◌, codes,
}
use system_fundamentals_c_pr.Cream.Start.{texts_equal}
use system_fundamentals_c_pr.Shell.Words.{strtok_r}

-- `strstr(input, name) == input && (*(input + strlen(name)) == ' ' || *(input + strlen(name)) == 0)`
unfoldable pub is_command : List ℕ → List ℕ → Bool
is_command [] [] = true
is_command [] (c ∷ input) = c == b' '
is_command (n ∷ name) [] = false
is_command (n ∷ name) (c ∷ input) = n == c && is_command name input

-- What `main` does with a line that is not empty.
pub data Action : Type 0 where
  exits : Action
  changes_directory : Action
  prints_jobs : Action
  continues_job : Action
  kills : Action
  sets_color : Action
  lacks_first : Action
  lacks_last : Action
  starts_job : Action

abbrev pub last_char : List ℕ → ℕ
last_char [] = 0
last_char (c ∷ []) = c
last_char (c ∷ d ∷ cs) = last_char (d ∷ cs)

-- `index(input, '|') == input`, then `*(rindex(input, '|') + 1) == 0`
abbrev pub job_action : List ℕ → Action
job_action [] = starts_job
job_action (c ∷ input) =
    if c == b'|'
    then lacks_first
    else if last_char (c ∷ input) == b'|'
    then lacks_last
    else starts_job

unfoldable pub action_of : List ℕ → Action
unfolding texts_equal is_command
action_of input =
    if is_command (codes "cd") input
    then changes_directory
    else if is_command (codes "jobs") input
    then prints_jobs
    else if is_command (codes "fg") input
    then continues_job
    else if is_command (codes "kill") input
    then kills
    else if is_command (codes "color") input
    then sets_color
    else if texts_equal input (codes "exit")
    then exits
    else job_action input

-- A command, which `findexecutable` gets without the blanks at its ends, with the pipe that it reads and
-- the pipe that it writes; none is -1.
pub record Stage : Type 0 where
  pub command : List ℕ
  pub inputfd : Option ℕ
  pub outputfd : Option ℕ

-- `findexecutable`, which runs nothing of the rest of the line for a command that is not found, and
-- `execute`: the next token gets a new pipe, which the next call finds in `pipefd1`. The pipes are numbered;
-- `is_found` says whether `findexecutable` comes to `execute` for a command.
unfoldable pub execute_rest : (List ℕ → Bool) → ℕ → ℕ → Option ℕ → List ℕ → List ℕ → List Stage
unfolding strtok_r
execute_rest is_found zero new pipefd1 command tokptr = []
execute_rest is_found (suc fuel) new pipefd1 command tokptr = elim (is_found command) [
  | false ↦ []
  | true ↦ elim (strtok_r b'|' tokptr) [
    | none ↦ record { command = command; inputfd = pipefd1; outputfd = none } ∷ []
    | some (token, tokptr') ↦
        record { command = command; inputfd = pipefd1; outputfd = some new }
        ∷ execute_rest is_found fuel (suc new) (some new) token tokptr'
  ]
]

-- `token = strtok_r(input, "|", &tokptr)`
unfoldable pub execute_line : (List ℕ → Bool) → ℕ → List ℕ → List Stage
unfolding execute_rest
execute_line is_found fuel input = elim (strtok_r b'|' input) [
  | none ↦ []
  | some (token, tokptr) ↦ execute_rest is_found fuel 0 none token tokptr
]
