-- ===== src/Shell/Jobs.antt =====
-- hw4/src/main.c: the list of jobs, linked both ways, behind a node of its own. An address is a number
-- and NULL is 0. A block that is free, or was never there, has no job.
pub mod Links
pub mod Removal
pub mod Lookup
pub mod Handler
pub mod Adding
pub mod Reaping
use system_fundamentals_c_pr.Base.{
  ℕ, zero, suc, ◌+◌, Bool, true, false, not, ◌&&◌, ◌||◌, Option, none, some, List, [], ◌∷◌, ◌==◌,
  if◌then◌else◌,
}

-- `JobStruct` without the modes of the terminal and `bgproc`, which nothing uses.
pub record Job : Type 0 where
  pub execname : List ℕ
  pub pid : ℕ
  pub stopped : Bool
  pub prev : ℕ
  pub next : ℕ

abbrev pub Memory : Type 0
Memory = ℕ → Option Job

-- A function returns, or uses a pointer to no job, or does not end.
pub data Outcome (A : Type 0) : Type 0 where
  returns : A → Outcome A
  bad_pointer : Outcome A
  endless : Outcome A

abbrev pub write_job : Memory → ℕ → Option Job → Memory
write_job memory a job b = if b == a then job else memory b

-- `for(; job != NULL && job->pid != pid; job = job->next)`
unfoldable pub find_pid : ℕ → Memory → ℕ → ℕ → Outcome ℕ
find_pid zero memory pid job = endless
find_pid (suc fuel) memory pid job = elim (job == 0) [
  | true ↦ returns 0
  | false ↦ elim (memory job) [
    | none ↦ bad_pointer
    | some j ↦ elim (j.pid == pid) [ true ↦ returns job | false ↦ find_pid fuel memory pid j.next ]
  ]
]

-- `for(pid_t i = 1; job && i != jpid; job = job->next, i++)`
unfoldable pub find_index : ℕ → Memory → ℕ → ℕ → ℕ → Outcome ℕ
find_index zero memory jpid i job = endless
find_index (suc fuel) memory jpid i job = elim (job == 0 || i == jpid) [
  | true ↦ returns job
  | false ↦ elim (memory job) [
    | none ↦ bad_pointer
    | some j ↦ find_index fuel memory jpid (i + 1) j.next
  ]
]

-- `job->prev->next = job->next`
unfoldable pub link_front : Memory → Job → Option Memory
link_front memory j = elim (memory j.prev) [
  | none ↦ none
  | some before ↦ some (write_job memory j.prev (some (record before { next = j.next })))
]

-- `if(job->next) job->next->prev = job->prev`
unfoldable pub link_back : Memory → Job → Option Memory
link_back memory j = elim (j.next == 0) [
  | true ↦ some memory
  | false ↦ elim (memory j.next) [
    | none ↦ none
    | some after ↦ some (write_job memory j.next (some (record after { prev = j.prev })))
  ]
]

-- Both, and `free(job)`.
unfoldable pub unlink_job : Memory → ℕ → Option Memory
unfolding link_front link_back
unlink_job memory job = elim (memory job) [
  | none ↦ none
  | some j ↦ elim (link_front memory j) [
    | none ↦ none
    | some memory' ↦ elim (link_back memory' j) [
      | none ↦ none
      | some memory'' ↦ some (write_job memory'' job none)
    ]
  ]
]

abbrev pub next_job : Memory → ℕ → Outcome ℕ
next_job memory job = elim (memory job) [ none ↦ bad_pointer | some j ↦ returns j.next ]

abbrev pub unlinked : Option Memory → Outcome Memory
unlinked none = bad_pointer
unlinked (some memory) = returns memory

-- The job at an address is taken out of the list, or is stopped.
unfoldable pub handle : Memory → Bool → ℕ → Outcome Memory
unfolding unlink_job
handle memory is_stopped job = elim (job == 0) [
  | true ↦ returns memory
  | false ↦ elim is_stopped [
    | false ↦ unlinked (unlink_job memory job)
    | true ↦ elim (memory job) [
      | none ↦ bad_pointer
      | some j ↦ returns (write_job memory job (some (record j { stopped = true })))
    ]
  ]
]

-- `sigchld_handler_shell`, with the process that `waitpid` has found and whether it is stopped.
unfoldable pub sigchld_handler_shell : ℕ → Memory → ℕ → ℕ → Bool → Outcome Memory
unfolding find_pid handle
sigchld_handler_shell fuel memory joblist pid is_stopped = elim (next_job memory joblist) [
  | bad_pointer ↦ bad_pointer
  | endless ↦ endless
  | returns first ↦ elim (find_pid fuel memory pid first) [
    | bad_pointer ↦ bad_pointer
    | endless ↦ endless
    | returns job ↦ handle memory is_stopped job
  ]
]

-- `for(; jobn->next; jobn = jobn->next)`
unfoldable pub last_job : ℕ → Memory → ℕ → Outcome ℕ
last_job zero memory job = endless
last_job (suc fuel) memory job = elim (memory job) [
  | none ↦ bad_pointer
  | some j ↦ elim (j.next == 0) [ true ↦ returns job | false ↦ last_job fuel memory j.next ]
]

-- The new job, in the block that `malloc` gives, behind the last one.
unfoldable pub add_job : ℕ → Memory → ℕ → ℕ → List ℕ → ℕ → Outcome Memory
unfolding last_job
add_job fuel memory joblist job execname pid = elim (last_job fuel memory joblist) [
  | bad_pointer ↦ bad_pointer
  | endless ↦ endless
  | returns jobn ↦
      let made = write_job memory job (
        some (record { execname = execname; pid = pid; stopped = false; prev = jobn; next = 0 })) in
      elim (made jobn) [
        | none ↦ bad_pointer
        | some last ↦ returns (write_job made jobn (some (record last { next = job })))
      ]
]

-- `jobs`: the number and the name of each job.
unfoldable pub print_jobs : ℕ → Memory → ℕ → ℕ → Outcome (List (ℕ × List ℕ))
print_jobs zero memory i job = endless
print_jobs (suc fuel) memory i job = elim (job == 0) [
  | true ↦ returns []
  | false ↦ elim (memory job) [
    | none ↦ bad_pointer
    | some j ↦ elim (print_jobs fuel memory (i + 1) j.next) [
      | bad_pointer ↦ bad_pointer
      | endless ↦ endless
      | returns lines ↦ returns ((i, j.execname) ∷ lines)
    ]
  ]
]

-- `waitpid(-1, &status, WUNTRACED | WNOHANG)`, which returns 0 when there is no process to wait for.
abbrev pub first_pid : List ℕ → ℕ
first_pid [] = 0
first_pid (w ∷ ws) = w

abbrev pub later_pids : List ℕ → List ℕ
later_pids [] = []
later_pids (w ∷ ws) = ws

-- The loop at the end of a round of the shell: `alive pid` is `kill(pid, 0) >= 0`, and `waited` has what
-- the calls of `waitpid` return.
unfoldable pub reap_jobs : ℕ → (ℕ → Bool) → List ℕ → Memory → ℕ → Outcome Memory
unfolding unlink_job
reap_jobs zero alive waited memory job = endless
reap_jobs (suc fuel) alive waited memory job = elim (job == 0) [
  | true ↦ returns memory
  | false ↦ elim (memory job) [
    | none ↦ bad_pointer
    | some j ↦
        let thispid = first_pid waited in
        let later = later_pids waited in
        elim (alive j.pid) [
          | false ↦ elim (unlink_job memory job) [
            | none ↦ bad_pointer
            | some memory' ↦ elim (next_job memory' job) [
              | returns next ↦ reap_jobs fuel alive waited memory' next
              | bad_pointer ↦ bad_pointer
              | endless ↦ endless
            ]
          ]
          | true ↦ elim (thispid == j.pid) [
            | false ↦ reap_jobs fuel alive later memory j.next
            | true ↦ elim (unlink_job memory job) [
              | none ↦ bad_pointer
              | some memory' ↦ elim (next_job memory' job) [
                | returns next ↦ reap_jobs fuel alive later memory' next
                | bad_pointer ↦ bad_pointer
                | endless ↦ endless
              ]
            ]
          ]
        ]
  ]
]
