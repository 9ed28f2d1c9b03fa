-- ===== src/Shell/Tests.antt =====
-- Tests of the model of hw4/src/main.c, and its theorems at concrete inputs.
use system_fundamentals_c_pr.Base.{
  ℕ, ◌↔◌, ◌≡◌, inr, refl, Bool, true, false, none, some, List, [], ◌∷◌, ◌++◌, codes, if◌then◌else◌,
  arith, ◌==◌, Option, not, replicate,
}
use system_fundamentals_c_pr.Shell.Jobs.{
  Memory, returns, bad_pointer, sigchld_handler_shell, add_job, print_jobs, reap_jobs,
}
use system_fundamentals_c_pr.Shell.Jobs.Links.{Entry, job_of, Holds}
use system_fundamentals_c_pr.Shell.Jobs.Lookup.{job_at, job_with, with_stopped}
use system_fundamentals_c_pr.Shell.Jobs.Handler.{after_signal, sigchld_handler_shell-Holds}
use system_fundamentals_c_pr.Shell.Jobs.Adding.{add_job-Holds}
use system_fundamentals_c_pr.Shell.Jobs.Reaping.{reap_jobs-left_alone, print_jobs-numbered}
use system_fundamentals_c_pr.Shell.Kill.{Sent, process, group, kill_command}
use system_fundamentals_c_pr.Shell.Kill.Names.{by_number, left, kill_command-Holds}
use system_fundamentals_c_pr.Shell.Trim.{trimwhitespace}
use system_fundamentals_c_pr.Shell.Trim.Core.{TrimmedTo, trimwhitespace-TrimmedTo}
use system_fundamentals_c_pr.Shell.Redirect.{
  split_redirections, redirect_command, runs, file, inherited, program, builtin, missing,
  missing_command, until_nul,
}
use system_fundamentals_c_pr.Shell.Redirect.Cutting.{from_to, pieces}
use system_fundamentals_c_pr.Shell.Redirect.Printing.{pieces-split_redirections}
use system_fundamentals_c_pr.Shell.Redirect.Order.{redirect_command-order}
use system_fundamentals_c_pr.Shell.Naming.{job_name, job_name-fits}
use system_fundamentals_c_pr.Shell.Directory.{
  Directories, quiet, cd, enter_first, left_over, behind_slash,
}
use system_fundamentals_c_pr.Shell.Directory.Back.{
  InPlace, LandsThere, cd-InPlace, cd-back, cd-parent,
}
use system_fundamentals_c_pr.Shell.Words.{
  found, overruns, search_path, prepare_arguments, arguments, strtok_r,
}
use system_fundamentals_c_pr.Shell.Words.Search.{search_path-first_found}
use system_fundamentals_c_pr.Cream.Start.{texts_equal}
use system_fundamentals_c_pr.Shell.Pipeline.{
  execute_line, is_command, action_of, kills, exits, starts_job, lacks_last,
}
use system_fundamentals_c_pr.Shell.Pipeline.Connected.{Connected}
use system_fundamentals_c_pr.Shell.Pipeline.Names.{Starts, is_command-Starts}
use system_fundamentals_c_pr.Shell.Foreground.{fg_command, continued}
use system_fundamentals_c_pr.Shell.Foreground.Freed.{fg_command-freed}
use system_fundamentals_c_pr.Shell.Color.{color_of}

-- The node of the list, and two jobs behind it.
abbrev head : Entry
head = record { address = 100; execname = []; pid = 0; stopped = false }

abbrev editor : Entry
editor = record { address = 300; execname = codes "vi"; pid = 7; stopped = false }

abbrev sleeper : Entry
sleeper = record { address = 200; execname = codes "sleep"; pid = 9; stopped = false }

abbrev jobs : List Entry
jobs = editor ∷ sleeper ∷ []

abbrev memory : Memory
memory a =
    if a == 100
    then some (job_of head 0 300)
    else if a == 300
    then some (job_of editor 100 200)
    else if a == 200
    then some (job_of sleeper 300 0)
    else none

memory-Holds : Holds memory (head ∷ jobs)
memory-Holds = record {
  linked = (omega arith, (refl, (omega arith, (refl, (omega arith, (refl, tt))))));
  distinct = ((omega arith, (omega arith, tt)), ((omega arith, tt), (tt, tt)));
}

abbrev accepts_all : Sent → Bool
accepts_all s = true

sigchld_handler_shell_example :
    (memory' : Memory) × (sigchld_handler_shell 3 memory 100 7 false ≡ returns memory')
    × Holds memory' (head ∷ after_signal 7 false jobs)
sigchld_handler_shell_example =
    sigchld_handler_shell-Holds 3 memory head jobs 7 false memory-Holds (omega arith)

add_job_test :
    (memory' : Memory) × (add_job 3 memory 100 400 (codes "ls") 11 ≡ returns memory')
    × Holds memory' (
        head ∷ jobs
        ++ record { address = 400; execname = codes "ls"; pid = 11; stopped = false } ∷ [])
add_job_test =
    add_job-Holds 3 memory head jobs 400 (codes "ls") 11 memory-Holds (omega arith) (omega arith)
      (omega arith, (omega arith, (omega arith, tt)))

kill_command_example :
    (memory' : Memory) × (kill_command 3 accepts_all memory 100 (some (codes "%2"))
      ≡ returns (some (group 9), memory'))
    × Holds memory' (head ∷ left (by_number (codes "2")) accepts_all jobs)
unfolding job_at
kill_command_example =
    kill_command-Holds 3 accepts_all memory head jobs (by_number (codes "2")) memory-Holds
      (omega arith) refl

reap_jobs_example : reap_jobs 3 (λ p. p == 7) (0 ∷ 0 ∷ []) memory 300 ≡ bad_pointer
reap_jobs_example =
    reap_jobs-left_alone 3 (λ p. p == 7) (0 ∷ 0 ∷ []) memory head jobs memory-Holds (omega arith)

print_jobs_test : print_jobs 3 memory 1 300 ≡ returns ((1, codes "vi") ∷ (2, codes "sleep") ∷ [])
print_jobs_test = print_jobs-numbered 3 memory 100 1 jobs memory-Holds.linked.1.1 (omega arith)

trimwhitespace_example :
    (core : List ℕ) × (trimwhitespace false (codes " ls ") ≡ some core)
    × TrimmedTo (codes " ls ") core
trimwhitespace_example = trimwhitespace-TrimmedTo false (codes " ls ") (inr (λ e. ground arith))

pieces_example :
    pieces (split_redirections (codes "cat<i>o"))
    ≡ some (codes "cat", some (codes "i"), some (codes "o"))
pieces_example =
    pieces-split_redirections b'c' (codes "at") (from_to (codes "i") (codes "o"))
      (
        (omega arith, omega arith, omega arith),
        ((omega arith, omega arith, omega arith), ((omega arith, omega arith, omega arith), tt)),
      )
      (((omega arith, omega arith, omega arith), tt), ((omega arith, omega arith, omega arith), tt))

redirect_command_example :
    (redirect_command (λ n. true) (λ n. true) (λ c. program true) false false (codes "cat< i >o")
      ≡ some (runs (file (codes "i")) (file (codes "o")) none))
    × (redirect_command (λ n. true) (λ n. true) (λ c. program true) false false (codes "cat>o< i ")
        ≡ some (runs inherited (file (codes "o")) (some (codes "i"))))
unfolding trimwhitespace
redirect_command_example =
    redirect_command-order (λ n. true) (λ n. true) (λ c. program true) b'c' (codes "at")
      (codes " i ") (codes "o") (codes "i") (codes "o") (program true)
      (
        (omega arith, omega arith, omega arith),
        ((omega arith, omega arith, omega arith), ((omega arith, omega arith, omega arith), tt)),
      )
      (
        (omega arith, omega arith, omega arith),
        ((omega arith, omega arith, omega arith), ((omega arith, omega arith, omega arith), tt)),
      )
      ((omega arith, omega arith, omega arith), tt) refl (λ e. absurd (cc e)) refl refl refl refl

-- `pwd` does not print the file, and a command that is not found opens none.
not_printed :
    (redirect_command (λ n. true) (λ n. true) (λ c. builtin) false false (codes "pwd>o<i")
      ≡ some (runs inherited (file (codes "o")) none))
    × (redirect_command (λ n. true) (λ n. true) (λ c. missing) false false (codes "nosuch>o<i")
        ≡ some missing_command)
unfolding redirect_command trimwhitespace until_nul
not_printed = (refl, refl)

job_name_example : job_name (0 ∷ 0 ∷ 0 ∷ []) (codes "ls") ≡ some (codes "ls")
job_name_example = job_name-fits (0 ∷ 0 ∷ 0 ∷ []) (codes "ls") (omega arith, (omega arith, tt))

-- `kill %5` without such a job goes to the process 5.
kill_number :
    kill_command 3 accepts_all memory 100 (some (codes "%5")) ≡ returns (some (process 5), memory)
unfolding kill_command
kill_number = refl

-- Without a blank in front, an empty string is read in front of its start.
trim_empty : trimwhitespace false [] ≡ none
unfolding trimwhitespace
trim_empty = refl

-- 47 characters and no NUL behind them in the block.
long_name :
    job_name (0 ∷ 0 ∷ 0 ∷ []) (codes "aaaaaaaaaaaaaaaaaaaaaaaaaaaaaaaaaaaaaaaaaaaaaaa") ≡ none
unfolding job_name
long_name = refl

-- Directories in which every name is there, and whose parent is the root.
abbrev root_or_below : List ℕ → List ℕ → Option (List ℕ)
root_or_below d [] = none
root_or_below d (c ∷ cs) =
    if c == b'/'
    then some (c ∷ cs)
    else if not (c == b'.')
    then some (d ++ b'/' ∷ c ∷ cs)
    else elim cs [ [] ↦ some d | x ∷ xs ↦ some (codes "/") ]

abbrev in_a : Directories
in_a = record { working = codes "/a"; current = codes "/a"; previous = codes "/b" }

cd-InPlace_example :
    InPlace (cd root_or_below (codes "/h") in_a (some (codes "-"))).0
    ↔ LandsThere root_or_below (codes "/h") in_a (some (codes "-"))
cd-InPlace_example = cd-InPlace root_or_below (codes "/h") in_a (some (codes "-")) refl

-- Where $HOME is not there, `cd` shows it all the same.
no_home :
    (cd (λ d n. none) (codes "/h") in_a none).0
    ≡ record { working = codes "/a"; current = codes "/h"; previous = codes "/a" }
unfolding cd
no_home = refl

cd-back_example :
    cd root_or_below
      (codes "/h")
      (cd root_or_below (codes "/h") in_a (some (codes "x"))).0
      (some (codes "-"))
    ≡ (record { working = codes "/a"; current = codes "/a"; previous = codes "/a/x" }, quiet)
cd-back_example =
    cd-back root_or_below (codes "/h") in_a (codes "x") (codes "/a/x") (λ e. ground arith) refl refl
      refl

cd-parent_example :
    cd root_or_below
      (codes "/h")
      (cd root_or_below (codes "/h") in_a (some (codes "../x"))).0
      (some (codes "-"))
    ≡ (record { working = codes "/"; current = codes "/"; previous = codes "//x" }, quiet)
cd-parent_example =
    cd-parent root_or_below (codes "/h") in_a b'x' [] (codes "/") (codes "//x") refl refl refl refl
      (λ e. ground arith)

-- A name that starts with a dot is not entered.
hidden : (cd root_or_below (codes "/h") in_a (some (codes ".git"))).0.working ≡ codes "/a"
unfolding cd enter_first left_over behind_slash
hidden = refl

search_path_example :
    search_path (λ n. 24) 3 (λ f. texts_equal f (codes "/bin/ls")) (codes "ls") (codes "/usr:/bin")
    ≡ found (codes "/bin/ls")
unfolding texts_equal
search_path_example =
    search_path-first_found (λ n. 24) 3 (λ f. texts_equal f (codes "/bin/ls")) (codes "ls")
      (codes "/usr") (codes "/bin" ∷ [])
      (
        (omega arith, (omega arith, (omega arith, (omega arith, tt)))),
        ((omega arith, (omega arith, (omega arith, (omega arith, tt)))), tt),
      )
      (omega arith) (omega arith)

-- A name of 252 characters does not fit behind `/usr` and its slash.
long_command :
    search_path (λ n. 24) 3 (λ f. true) (replicate 252 b'a') (codes "/usr:/bin") ≡ overruns
unfolding search_path strtok_r
long_command = refl

arguments_of :
    prepare_arguments 3 (codes "./a") (codes " b  c") ≡ codes "a" ∷ codes "b" ∷ codes "c" ∷ []
unfolding prepare_arguments arguments strtok_r
arguments_of = refl

-- `nosuch|ls` runs nothing.
not_found_first :
    (execute_line (λ c. texts_equal c (codes "ls")) 2 (codes "nosuch|ls") ≡ [])
    × (execute_line (λ c. true) 2 (codes "a|b")
        ≡ record { command = codes "a"; inputfd = none; outputfd = some 0 }
          ∷ record { command = codes "b"; inputfd = some 0; outputfd = none }
          ∷ [])
unfolding execute_line texts_equal
not_found_first = (refl, refl)

is_command_test :
    (is_command (codes "cd") (codes "cd x") ≡ true) ↔ Starts (codes "cd") (codes "cd x")
is_command_test = is_command-Starts (codes "cd") (codes "cd x")

-- Two commands of the shell, a program, and a line that ends with a bar.
actions :
    (action_of (codes "kill %1") ≡ kills)
    × (action_of (codes "exit") ≡ exits)
    × (action_of (codes "cdx") ≡ starts_job)
    × (action_of (codes "ls|") ≡ lacks_last)
unfolding action_of
actions = (refl, refl, refl, refl)

fg_command_example :
    (fg_command 3 memory 100 (some (codes "%2")) false ≡ bad_pointer)
    × ((memory' : Memory) × (fg_command 3 memory 100 (some (codes "%2")) true
          ≡ returns (continued 9 false, memory'))
        × Holds memory' (head ∷ with_stopped 9 jobs))
unfolding job_at job_with
fg_command_example =
    fg_command-freed 3 memory head jobs (codes "2") sleeper memory-Holds (omega arith) refl refl
      refl

yellow : color_of (codes "YEL") ≡ some (1 ∷ 27 ∷ codes "[33m" ++ 2 ∷ [])
unfolding color_of
yellow = refl
