-- ===== src/Shell/Jobs/Reaping.antt =====
-- hw4/src/main.c: the loop over the jobs at the end of a round, and the list that `jobs` prints.
use mathlib.Core.Path.{subst}
use system_fundamentals_c_pr.Base.{
  ℕ, zero, suc, ◌+◌, ◌≡◌, inl, inr, refl, Bool, true, not, ◌&&◌, List, [], ◌∷◌, ◌++◌, ◌==◌, ◌<◌,
  length, Bool-cases, if◌then◌else◌, arith, ==_of_ne, ==_refl,
}
use system_fundamentals_c_pr.Shell.Jobs.{
  Memory, returns, bad_pointer, next_job, first_pid, later_pids, reap_jobs, print_jobs,
}
use system_fundamentals_c_pr.Shell.Jobs.Links.{Entry, first_of, Linked, Holds, append_one}
use system_fundamentals_c_pr.Shell.Jobs.Removal.{last_of, node_of, removed, unlink_job-removed}

-- Each job has a process and `waitpid` does not return it.
abbrev pub left_alone : (ℕ → Bool) → List ℕ → List Entry → Bool
left_alone alive waited [] = true
left_alone alive waited (e ∷ es) =
    alive e.pid && not (first_pid waited == e.pid) && left_alone alive (later_pids waited) es

removed-next_job :
    (memory : Memory) (prev : ℕ) (b a : Entry) (back : List Entry)
    → next_job (removed memory prev b a back) a.address ≡ bad_pointer
removed-next_job memory prev b a back = rw (next_job, ==_refl a.address) refl

reap_behind :
    (fuel : ℕ) (alive : ℕ → Bool) (waited : List ℕ) (memory : Memory) (front : List Entry)
    (b : Entry) (rest : List Entry)
    → Holds memory (front ++ b ∷ rest)
    → length rest < fuel
    → reap_jobs fuel alive waited memory (first_of rest)
      ≡ (if left_alone alive waited rest then returns memory else bad_pointer)
unfolding reap_jobs
reap_behind zero alive waited memory front b rest h l = ground arith
reap_behind (suc fuel) alive waited memory front b [] h l = refl
reap_behind (suc fuel) alive waited memory front b (e ∷ es) h l =
    let (nb, mb, (n, (m, linked))) = node_of memory 0 front b (e ∷ es) h.linked in
    let unlinks = unlink_job-removed memory 0 front b e es h.distinct h.linked in
    let gone = removed-next_job memory (last_of 0 front) b e es in
    let h' = subst (λ xs. Holds memory xs) (append_one front b (e ∷ es)) h in
    elim (Bool-cases (alive e.pid)) [
      | inr dead ↦ rw (reap_jobs, ==_of_ne e.address 0 n, m, dead, unlinks, gone) refl
      | inl lives ↦ elim (Bool-cases (first_pid waited == e.pid)) [
        | inl found ↦ rw (reap_jobs, ==_of_ne e.address 0 n, m, lives, found, unlinks, gone) refl
        | inr other ↦
            rw (reap_jobs, ==_of_ne e.address 0 n, m, lives, other)
              (reap_behind fuel alive (later_pids waited) memory (front ++ b ∷ []) e es h'
                (omega arith))
      ]
    ]

-- The loop of `main` over the jobs, for a list of jobs in memory and fuel that is more than their
-- number: when each of them has a process and no call of `waitpid` returns the process of the job at
-- hand, it returns and changes nothing. As soon as one has to go, it reads `next` of the block that it
-- has just freed.
pub reap_jobs-left_alone :
    (fuel : ℕ) (alive : ℕ → Bool) (waited : List ℕ) (memory : Memory) (joblist : Entry)
    (jobs : List Entry)
    → Holds memory (joblist ∷ jobs)
    → length jobs < fuel
    → reap_jobs fuel alive waited memory (first_of jobs)
      ≡ (if left_alone alive waited jobs then returns memory else bad_pointer)
reap_jobs-left_alone fuel alive waited memory joblist jobs h l =
    reap_behind fuel alive waited memory [] joblist jobs h l

abbrev pub numbered : ℕ → List Entry → List (ℕ × List ℕ)
numbered i [] = []
numbered i (e ∷ es) = (i, e.execname) ∷ numbered (i + 1) es

-- The loop of `jobs`, for a list of jobs in memory, prints each of them once, in the order of the list,
-- with numbers that count up from `i`.
pub print_jobs-numbered :
    (fuel : ℕ) (memory : Memory) (prev i : ℕ) (jobs : List Entry)
    → Linked memory prev jobs
    → length jobs < fuel
    → print_jobs fuel memory i (first_of jobs) ≡ returns (numbered i jobs)
unfolding print_jobs
print_jobs-numbered zero memory prev i jobs h l = ground arith
print_jobs-numbered (suc fuel) memory prev i [] h l = refl
print_jobs-numbered (suc fuel) memory prev i (e ∷ es) (n, (m, h)) l =
    rw (print_jobs, ==_of_ne e.address 0 n, m)
      (rw (print_jobs-numbered fuel memory e.address (i + 1) es h (omega arith)) refl)
