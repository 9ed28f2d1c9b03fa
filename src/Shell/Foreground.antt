-- ===== src/Shell/Foreground.antt =====
-- hw4/src/main.c: `fg`, and the handler that runs while it waits.
pub mod Freed
use system_fundamentals_c_pr.Base.{
  ℕ, Bool, true, false, Option, none, some, List, [], ◌∷◌, ◌==◌, if◌then◌else◌,
}
use system_fundamentals_c_pr.Shell.Jobs.{
  Job, Memory, Outcome, returns, bad_pointer, endless, next_job, find_index, sigchld_handler_shell,
}
use system_fundamentals_c_pr.Shell.Kill.{digits_only, atoi}

-- The two messages, or the process, and whether it gets SIGCONT.
pub data Continued : Type 0 where
  requires_argument : Continued
  no_job : ℕ → Continued
  continued : ℕ → Bool → Continued

-- `while(childpid != pid) sigsuspend(&prev);`, in which the handler runs for the process, and the use of
-- the job in `tcgetattr(STDIN_FILENO, &job->tmodes)`.
unfoldable pub wait_in_foreground : ℕ → Memory → ℕ → ℕ → Job → Bool → Outcome (Continued × Memory)
unfolding sigchld_handler_shell
wait_in_foreground fuel memory joblist job j is_stopped =
    elim (sigchld_handler_shell fuel memory joblist j.pid is_stopped) [
      | bad_pointer ↦ bad_pointer
      | endless ↦ endless
      | returns memory' ↦ elim (memory' job) [
        | none ↦ bad_pointer
        | some k ↦ returns (continued j.pid j.stopped, memory')
      ]
    ]

-- The job with a number; `is_stopped` says how its process ends to run.
unfoldable pub continue_job : ℕ → Memory → ℕ → ℕ → ℕ → Bool → Outcome (Continued × Memory)
unfolding find_index wait_in_foreground
continue_job fuel memory joblist first jpid is_stopped =
    elim (find_index fuel memory jpid 1 first) [
      | bad_pointer ↦ bad_pointer
      | endless ↦ endless
      | returns job ↦ elim (job == 0) [
        | true ↦ returns (no_job jpid, memory)
        | false ↦ elim (memory job) [
          | none ↦ bad_pointer
          | some j ↦ wait_in_foreground fuel memory joblist job j is_stopped
        ]
      ]
    ]

abbrev pub number_of : List ℕ → Option ℕ
number_of [] = none
number_of (c ∷ tok) =
    if c == b'%' then (if digits_only tok then some (atoi tok) else none) else none

-- `fg` with its argument, or none. `jpid` is still -1 where the argument is not a number behind `%`.
unfoldable pub fg_command : ℕ → Memory → ℕ → Option (List ℕ) → Bool → Outcome (Continued × Memory)
unfolding continue_job
fg_command fuel memory joblist none is_stopped = returns (requires_argument, memory)
fg_command fuel memory joblist (some tok) is_stopped = elim (next_job memory joblist) [
  | bad_pointer ↦ bad_pointer
  | endless ↦ endless
  | returns first ↦ elim (number_of tok) [
    | none ↦ returns (requires_argument, memory)
    | some jpid ↦ continue_job fuel memory joblist first jpid is_stopped
  ]
]
