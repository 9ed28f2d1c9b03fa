-- ===== src/Shell/Kill.antt =====
-- hw4/src/main.c: `kill`, with the process or the group of processes that gets SIGKILL.
pub mod Names
use system_fundamentals_c_pr.Base.{
  ℕ, zero, suc, ◌+◌, ◌-◌, ◌*◌, Bool, true, false, not, ◌&&◌, Option, none, some, List, [], ◌∷◌,
  ◌==◌, leb, if◌then◌else◌,
}
use system_fundamentals_c_pr.Shell.Jobs.{
  Job, Memory, Outcome, returns, bad_pointer, endless, next_job, find_pid, find_index, unlink_job,
}

-- `kill(pid, SIGKILL)` and `killpg(getpgid(pid), SIGKILL)`.
pub data Sent : Type 0 where
  process : ℕ → Sent
  group : ℕ → Sent

abbrev pub is_digit : ℕ → Bool
is_digit c = leb b'0' c && leb c b'9'

-- `strspn(tok, "0123456789") == strlen(tok)`
abbrev pub digits_only : List ℕ → Bool
digits_only [] = true
digits_only (c ∷ cs) = is_digit c && digits_only cs

-- `atoi` of digits, for a number that an `int` holds.
abbrev decimal : ℕ → List ℕ → ℕ
decimal n [] = n
decimal n (c ∷ cs) = decimal (10 * n + (c - b'0')) cs

abbrev pub atoi : List ℕ → ℕ
atoi cs = decimal 0 cs

-- `jpid`, -1 being `none`, and `job`.
record Target : Type 0 where
  jpid : Option ℕ
  job : ℕ

-- `%` and the number of a job, whose process then stands for the number.
unfoldable target_by_number : ℕ → Memory → ℕ → List ℕ → Outcome Target
unfolding find_index
target_by_number fuel memory first digits =
    if digits_only digits
    then elim (find_index fuel memory (atoi digits) 1 first) [
      | bad_pointer ↦ bad_pointer
      | endless ↦ endless
      | returns job ↦ elim (job == 0) [
        | true ↦ returns (record { jpid = some (atoi digits); job = job })
        | false ↦ elim (memory job) [
          | none ↦ bad_pointer
          | some j ↦ returns (record { jpid = some j.pid; job = job })
        ]
      ]
    ]
    else returns (record { jpid = none; job = 0 })

unfoldable target_by_pid : ℕ → Memory → ℕ → List ℕ → Outcome Target
unfolding find_pid
target_by_pid fuel memory first digits =
    if digits_only digits
    then elim (find_pid fuel memory (atoi digits) first) [
      | bad_pointer ↦ bad_pointer
      | endless ↦ endless
      | returns job ↦ returns (record { jpid = some (atoi digits); job = job })
    ]
    else returns (record { jpid = none; job = 0 })

unfoldable kill_target : ℕ → Memory → ℕ → Option (List ℕ) → Outcome Target
unfolding target_by_number target_by_pid
kill_target fuel memory first none = returns (record { jpid = none; job = 0 })
kill_target fuel memory first (some []) = target_by_pid fuel memory first []
kill_target fuel memory first (some (c ∷ tok)) =
    if c == b'%'
    then target_by_number fuel memory first tok
    else target_by_pid fuel memory first (c ∷ tok)

-- What the call sends, and whether `accepts` says that it succeeds; then the job leaves the list.
unfoldable kill_sends : (Sent → Bool) → Memory → Target → Outcome (Option Sent × Memory)
unfolding unlink_job
kill_sends accepts memory target = elim target.jpid [
  | none ↦ returns (none, memory)
  | some pid ↦ elim (target.job == 0) [
    | true ↦ returns (some (process pid), memory)
    | false ↦ elim (accepts (group pid)) [
      | false ↦ returns (some (group pid), memory)
      | true ↦ elim (unlink_job memory target.job) [
        | none ↦ bad_pointer
        | some memory' ↦ returns (some (group pid), memory')
      ]
    ]
  ]
]

-- `kill` with its argument, or none.
unfoldable pub kill_command :
    ℕ → (Sent → Bool) → Memory → ℕ → Option (List ℕ) → Outcome (Option Sent × Memory)
unfolding kill_target kill_sends
kill_command fuel accepts memory joblist tok = elim (next_job memory joblist) [
  | bad_pointer ↦ bad_pointer
  | endless ↦ endless
  | returns first ↦ elim (kill_target fuel memory first tok) [
    | bad_pointer ↦ bad_pointer
    | endless ↦ endless
    | returns target ↦ kill_sends accepts memory target
  ]
]
