-- ===== src/Shell/Kill/Names.antt =====
-- hw4/src/main.c: `kill` on a job of the list, named by its number or by its process.
use mathlib.Core.Path.{subst}
use system_fundamentals_c_pr.Base.{
  ℕ, ◌≡◌, ◌≢◌, ◌⊎◌, inl, inr, refl, sym, Bool, true, false, Option, none, some, List, [], ◌∷◌, ◌==◌,
  ◌<◌, length, Bool-cases, Option-cases, if◌then◌else◌, arith, ==_of_ne,
}
use system_fundamentals_c_pr.Shell.Jobs.{Memory, returns}
use system_fundamentals_c_pr.Shell.Jobs.Links.{Entry, job_of, first_of, Holds}
use system_fundamentals_c_pr.Shell.Jobs.Removal.{node_of, unlink_job-Holds}
use system_fundamentals_c_pr.Shell.Jobs.Lookup.{
  job_with, without, with_stopped, find_pid-job_with, job_at, without_at, with_stopped_at,
  find_index-job_at, Place, nowhere, at, pid-Place, index-Place,
}
use system_fundamentals_c_pr.Shell.Kill.{
  Sent, process, group, digits_only, atoi, Target, target_by_number, target_by_pid, kill_target,
  kill_sends, kill_command,
}

-- The names of a job: `%` and its number, or its process.
pub data Name : Type 0 where
  by_number : List ℕ → Name
  by_pid : List ℕ → Name

abbrev pub digits_of : Name → List ℕ
digits_of (by_number ds) = ds
digits_of (by_pid ds) = ds

abbrev pub text_of : Name → List ℕ
text_of (by_number ds) = b'%' ∷ ds
text_of (by_pid ds) = ds

abbrev pub named : Name → List Entry → Option Entry
named (by_number ds) jobs = job_at (atoi ds) 1 jobs
named (by_pid ds) jobs = job_with (atoi ds) jobs

abbrev pub unnamed : Name → List Entry → List Entry
unnamed (by_number ds) jobs = without_at (atoi ds) 1 jobs
unnamed (by_pid ds) jobs = without (atoi ds) jobs

-- The group of the job, or the process with the number, whichever kind of number it is.
abbrev pub victim : ℕ → Option Entry → Sent
victim n none = process n
victim n (some e) = group e.pid

abbrev pub left : Name → (Sent → Bool) → List Entry → List Entry
left name accepts jobs =
    if accepts (victim (atoi (digits_of name)) (named name jobs)) then unnamed name jobs else jobs

-- The target, from what the lookup has found.
abbrev target_of : ℕ → Option Entry → Target
target_of n none = record { jpid = some n; job = 0 }
target_of n (some e) = record { jpid = some e.pid; job = e.address }

-- What `kill` comes to, when it has looked for a job.
abbrev SendsTo :
    (Sent → Bool) → Memory → ℕ → Entry → List Entry → List Entry → Option Entry → Type 0
SendsTo accepts memory n b rest less found =
    (memory' : Memory) × (kill_sends accepts memory (target_of n found)
      ≡ returns (some (victim n found), memory'))
    × Holds memory' (b ∷ (if accepts (victim n found) then less else rest))

kill_sends-Place :
    (accepts : Sent → Bool) (memory : Memory) (n : ℕ) (b : Entry) (rest less stopped : List Entry)
    (found : Option Entry)
    → Holds memory (b ∷ rest)
    → Place b rest less stopped found
    → SendsTo accepts memory n b rest less found
unfolding kill_sends
kill_sends-Place accepts memory n b rest less stopped found h (nowhere x y z) =
    subst (λ f. SendsTo accepts memory n b rest less f) (sym x)
      (
        memory,
        refl,
        elim (Bool-cases (accepts (process n))) [
          | inl yes' ↦ rw (yes') (subst (λ es. Holds memory (b ∷ es)) (sym y) h)
          | inr no' ↦ rw (no') h
        ],
      )
kill_sends-Place accepts memory n b rest less stopped found h (at front b' a back x y z w) =
    let h' = subst (λ es. Holds memory es) y h in
    let (nb, mb, (na, ma)) = node_of memory 0 front b' (a ∷ back) h'.linked in
    let (memory', unlinks, holds) = unlink_job-Holds memory front b' a back h' in
    subst (λ f. SendsTo accepts memory n b rest less f) (sym x)
      (elim (Bool-cases (accepts (group a.pid))) [
        | inl yes' ↦ (
          memory',
          rw (kill_sends, ==_of_ne a.address 0 na, yes', unlinks) refl,
          rw (yes') (subst (λ es. Holds memory' es) (sym z) holds),
        )
        | inr no' ↦ (memory, rw (kill_sends, ==_of_ne a.address 0 na, no') refl, rw (no') h)
      ])

-- What is found stands in memory.
found_node :
    (memory : Memory) (b : Entry) (rest less stopped : List Entry) (found : Option Entry)
    → Holds memory (b ∷ rest)
    → Place b rest less stopped found
    → (found ≡ none)
      ⊎ ((a : Entry) × (p : ℕ) × (q : ℕ) × (found ≡ some a)
          × (a.address ≢ 0)
          × (memory a.address ≡ some (job_of a p q)))
found_node memory b rest less stopped found h (nowhere x y z) = inl x
found_node memory b rest less stopped found h (at front b' a back x y z w) =
    let (nb, mb, (na, (ma, la))) =
      node_of memory 0 front b' (a ∷ back) (subst (λ es. Holds memory es) y h).linked in
    inr (a, b'.address, first_of back, x, na, ma)

job_with-pid : (pid : ℕ) (jobs : List Entry) (a : Entry) → job_with pid jobs ≡ some a → a.pid ≡ pid
unfolding job_with
job_with-pid pid [] a x = ground arith
job_with-pid pid (e ∷ es) a x = ground (arith, job_with-pid pid es a)

number_target :
    (fuel : ℕ) (memory : Memory) (joblist : Entry) (jobs : List Entry) (ds : List ℕ)
    → Holds memory (joblist ∷ jobs)
    → length jobs < fuel
    → digits_only ds ≡ true
    → target_by_number fuel memory (first_of jobs) ds
      ≡ returns (target_of (atoi ds) (job_at (atoi ds) 1 jobs))
unfolding target_by_number
number_target fuel memory joblist jobs ds h l d =
    elim (found_node memory joblist jobs (without_at (atoi ds) 1 jobs)
      (with_stopped_at (atoi ds) 1 jobs) (job_at (atoi ds) 1 jobs) h
      (index-Place (atoi ds) 1 joblist jobs)) [
        | inl x ↦
            rw
              (
                target_by_number,
                d,
                find_index-job_at fuel memory (atoi ds) 1 joblist.address jobs l h.linked.1.1,
                x,
                x,
              )
              refl
        | inr (a, p, q, x, na, ma) ↦
            rw
              (
                target_by_number,
                d,
                find_index-job_at fuel memory (atoi ds) 1 joblist.address jobs l h.linked.1.1,
                x,
                ==_of_ne a.address 0 na,
                x,
                ma,
                x,
              )
              refl
      ]

pid_target :
    (fuel : ℕ) (memory : Memory) (joblist : Entry) (jobs : List Entry) (ds : List ℕ)
    → Holds memory (joblist ∷ jobs)
    → length jobs < fuel
    → digits_only ds ≡ true
    → target_by_pid fuel memory (first_of jobs) ds
      ≡ returns (target_of (atoi ds) (job_with (atoi ds) jobs))
unfolding target_by_pid
pid_target fuel memory joblist jobs ds h l d =
    rw
      (
        target_by_pid,
        d,
        find_pid-job_with fuel memory (atoi ds) joblist.address jobs l h.linked.1.1,
      )
      (elim (Option-cases (job_with (atoi ds) jobs)) [
        | inl x ↦ rw (x) refl
        | inr (a, x) ↦ rw (x, job_with-pid (atoi ds) jobs a x) refl
      ])

name_target :
    (fuel : ℕ) (memory : Memory) (joblist : Entry) (jobs : List Entry) (name : Name)
    → Holds memory (joblist ∷ jobs)
    → length jobs < fuel
    → digits_only (digits_of name) ≡ true
    → kill_target fuel memory (first_of jobs) (some (text_of name))
      ≡ returns (target_of (atoi (digits_of name)) (named name jobs))
unfolding kill_target
name_target fuel memory joblist jobs (by_number ds) h l d =
    number_target fuel memory joblist jobs ds h l d
name_target fuel memory joblist jobs (by_pid []) h l d =
    pid_target fuel memory joblist jobs [] h l d
name_target fuel memory joblist jobs (by_pid (c ∷ ds)) h l d =
    let other : (c == b'%') ≡ false = ground arith in
    rw (kill_target, other) (pid_target fuel memory joblist jobs (c ∷ ds) h l d)

sent_by_name :
    (accepts : Sent → Bool) (memory : Memory) (joblist : Entry) (jobs : List Entry) (name : Name)
    → Holds memory (joblist ∷ jobs)
    → (memory' : Memory) × (kill_sends accepts memory
          (target_of (atoi (digits_of name)) (named name jobs))
        ≡ returns (some (victim (atoi (digits_of name)) (named name jobs)), memory'))
      × Holds memory' (joblist ∷ left name accepts jobs)
sent_by_name accepts memory joblist jobs (by_number ds) h =
    kill_sends-Place accepts memory (atoi ds) joblist jobs (without_at (atoi ds) 1 jobs)
      (with_stopped_at (atoi ds) 1 jobs) (job_at (atoi ds) 1 jobs) h
      (index-Place (atoi ds) 1 joblist jobs)
sent_by_name accepts memory joblist jobs (by_pid ds) h =
    kill_sends-Place accepts memory (atoi ds) joblist jobs (without (atoi ds) jobs)
      (with_stopped (atoi ds) jobs) (job_with (atoi ds) jobs) h (pid-Place (atoi ds) joblist jobs)

-- `kill` with `%` and digits, or with digits alone, for a list of jobs in memory and fuel that is more
-- than their number: it sends the signal to the group of the job that has the number, or the process,
-- and to the process with that number when there is no such job, after `%` too. When the call succeeds,
-- the list that the memory then holds is the same without the job; when it fails, or there is no such
-- job, the list is the same.
pub kill_command-Holds :
    (fuel : ℕ) (accepts : Sent → Bool) (memory : Memory) (joblist : Entry) (jobs : List Entry)
    (name : Name)
    → Holds memory (joblist ∷ jobs)
    → length jobs < fuel
    → digits_only (digits_of name) ≡ true
    → (memory' : Memory) × (kill_command fuel accepts memory joblist.address (some (text_of name))
        ≡ returns (some (victim (atoi (digits_of name)) (named name jobs)), memory'))
      × Holds memory' (joblist ∷ left name accepts jobs)
unfolding kill_command
kill_command-Holds fuel accepts memory joblist jobs name h l d =
    let (n, (m, linked)) = h.linked in
    let target = name_target fuel memory joblist jobs name h l d in
    let (memory', sends, holds) = sent_by_name accepts memory joblist jobs name h in
    (memory', rw (kill_command, m, target) sends, holds)
