-- ===== src/Shell/Foreground/Freed.antt =====
-- hw4/src/main.c: what `fg` finds of its job when the process has ended, or has been stopped.
use mathlib.Core.Path.{subst}
use system_fundamentals_c_pr.Base.{
  ℕ, ◌≡◌, ◌≢◌, refl, ap, ◌∙◌, sym, Bool, true, false, Option, none, some, List, ◌∷◌, ◌++◌, ◌<◌,
  length, eq_of_some, ==_of_ne, ==_refl,
}
use system_fundamentals_c_pr.Shell.Jobs.{
  Job, Memory, returns, bad_pointer, write_job, handle, sigchld_handler_shell, unlink_job,
}
use system_fundamentals_c_pr.Shell.Jobs.Links.{Entry, job_of, first_of, Holds}
use system_fundamentals_c_pr.Shell.Jobs.Removal.{last_of, node_of, removed, unlink_job-removed}
use system_fundamentals_c_pr.Shell.Jobs.Lookup.{
  job_with, without, with_stopped, find_pid-job_with, job_at, find_index-job_at, Place, nowhere, at,
  pid-Place,
}
use system_fundamentals_c_pr.Shell.Jobs.Handler.{sigchld_handler_shell-Holds}
use system_fundamentals_c_pr.Shell.Kill.{digits_only, atoi}
use system_fundamentals_c_pr.Shell.Foreground.{
  continued, wait_in_foreground, continue_job, fg_command,
}

-- A job that a lookup has found, between its neighbours.
record Standing (jobs : List Entry) (a : Entry) : Type 0 where
  front : List Entry
  before : Entry
  back : List Entry
  pieces : jobs ≡ front ++ before ∷ a ∷ back

placed :
    (b : Entry) (rest less stopped : List Entry) (found : Option Entry) (a : Entry)
    → Place b rest less stopped found
    → found ≡ some a
    → Standing (b ∷ rest) a
placed b rest less stopped found a (nowhere x y z) e = absurd (let e' = sym x ∙ e in cc e')
placed b rest less stopped found a (at front b' c back x y z w) e =
    let same : c ≡ a = eq_of_some (sym x ∙ e) in
    record {
      front = front;
      before = b';
      back = back;
      pieces = y ∙ ap (λ d. front ++ b' ∷ d ∷ back) same;
    }

-- The job in memory, and the memory without it.
node :
    (memory : Memory) (jobs : List Entry) (a : Entry)
    → Holds memory jobs
    → Standing jobs a
    → (p : ℕ) × (q : ℕ) × (a.address ≢ 0) × (memory a.address ≡ some (job_of a p q))
node memory jobs a h s =
    let h' = subst (λ es. Holds memory es) s.pieces h in
    let (nb, mb, (na, (ma, la))) = node_of memory 0 s.front s.before (a ∷ s.back) h'.linked in
    (s.before.address, first_of s.back, na, ma)

freed :
    (memory : Memory) (jobs : List Entry) (a : Entry)
    → Holds memory jobs
    → Standing jobs a
    → (memory' : Memory) × (unlink_job memory a.address ≡ some memory') × (memory' a.address ≡ none)
freed memory jobs a h s =
    let h' = subst (λ es. Holds memory es) s.pieces h in
    (
      removed memory (last_of 0 s.front) s.before a s.back,
      unlink_job-removed memory 0 s.front s.before a s.back h'.distinct h'.linked,
      rw (==_refl a.address) refl,
    )

-- The handler, for the process of a job that stands first among those with it.
handler_at :
    (fuel : ℕ) (memory : Memory) (joblist : Entry) (jobs : List Entry) (a : Entry)
    (is_stopped : Bool)
    → Holds memory (joblist ∷ jobs)
    → length jobs < fuel
    → job_with a.pid jobs ≡ some a
    → sigchld_handler_shell fuel memory joblist.address a.pid is_stopped
      ≡ handle memory is_stopped a.address
unfolding sigchld_handler_shell
handler_at fuel memory joblist jobs a is_stopped h l w =
    let (n, (m, linked)) = h.linked in
    rw
      (
        sigchld_handler_shell,
        m,
        find_pid-job_with fuel memory a.pid joblist.address jobs l linked,
        w,
      )
      refl

-- The lookup of `fg`.
fg_waits :
    (fuel : ℕ) (memory : Memory) (joblist : Entry) (jobs : List Entry) (ds : List ℕ) (a : Entry)
    (j : Job) (is_stopped : Bool)
    → Holds memory (joblist ∷ jobs)
    → length jobs < fuel
    → digits_only ds ≡ true
    → job_at (atoi ds) 1 jobs ≡ some a
    → a.address ≢ 0
    → memory a.address ≡ some j
    → fg_command fuel memory joblist.address (some (b'%' ∷ ds)) is_stopped
      ≡ wait_in_foreground fuel memory joblist.address a.address j is_stopped
unfolding fg_command continue_job
fg_waits fuel memory joblist jobs ds a j is_stopped h l d w na ma =
    let (n, (m, linked)) = h.linked in
    rw
      (
        fg_command,
        m,
        d,
        continue_job,
        find_index-job_at fuel memory (atoi ds) 1 joblist.address jobs l linked,
        w,
        ==_of_ne a.address 0 na,
        w,
        ma,
        w,
      )
      refl

memory_of_returns : {m n : Memory} → returns m ≡ returns n → m ≡ n
memory_of_returns e = cc e

ended_job :
    (fuel : ℕ) (memory : Memory) (joblist : Entry) (jobs : List Entry) (a : Entry) (p q : ℕ)
    → Holds memory (joblist ∷ jobs)
    → length jobs < fuel
    → job_with a.pid jobs ≡ some a
    → a.address ≢ 0
    → wait_in_foreground fuel memory joblist.address a.address (job_of a p q) false ≡ bad_pointer
unfolding wait_in_foreground handle
ended_job fuel memory joblist jobs a p q h l w na =
    let (memory', unlinks, gone) = freed memory (joblist ∷ jobs) a h (
      placed joblist jobs (without a.pid jobs) (with_stopped a.pid jobs) (job_with a.pid jobs) a
        (pid-Place a.pid joblist jobs) w) in
    rw
      (
        wait_in_foreground,
        handler_at fuel memory joblist jobs a false h l w,
        handle,
        ==_of_ne a.address 0 na,
        unlinks,
        gone,
      )
      refl

stopped_job :
    (fuel : ℕ) (memory : Memory) (joblist : Entry) (jobs : List Entry) (a : Entry) (p q : ℕ)
    → Holds memory (joblist ∷ jobs)
    → length jobs < fuel
    → job_with a.pid jobs ≡ some a
    → a.address ≢ 0
    → memory a.address ≡ some (job_of a p q)
    → (memory' : Memory) × (wait_in_foreground fuel memory joblist.address a.address
          (job_of a p q)
          true
        ≡ returns (continued a.pid a.stopped, memory'))
      × Holds memory' (joblist ∷ with_stopped a.pid jobs)
unfolding wait_in_foreground handle
stopped_job fuel memory joblist jobs a p q h l w na ma =
    let marked : Memory =
      write_job memory a.address (some (record (job_of a p q) { stopped = true })) in
    let steps : sigchld_handler_shell fuel memory joblist.address a.pid true ≡ returns marked =
      handler_at fuel memory joblist jobs a true h l w
      ∙ rw (handle, ==_of_ne a.address 0 na, ma) refl in
    let (memory', made, holds) =
      sigchld_handler_shell-Holds fuel memory joblist jobs a.pid true h l in
    let same : memory' ≡ marked = memory_of_returns (sym made ∙ steps) in
    (
      marked,
      rw (wait_in_foreground, steps, ==_refl a.address) refl,
      subst (λ m. Holds m (joblist ∷ with_stopped a.pid jobs)) same holds,
    )

-- `fg` with `%` and the number of a job, for a list of jobs in memory and fuel that is more than their
-- number, where no job in front of that one has the same process: when the process is stopped again, it
-- returns, and the list that the memory then holds is the same with the job stopped; when the process
-- ends, the handler frees the job while `fg` waits, and `fg` uses it after that.
pub fg_command-freed :
    (fuel : ℕ) (memory : Memory) (joblist : Entry) (jobs : List Entry) (ds : List ℕ) (a : Entry)
    → Holds memory (joblist ∷ jobs)
    → length jobs < fuel
    → digits_only ds ≡ true
    → job_at (atoi ds) 1 jobs ≡ some a
    → job_with a.pid jobs ≡ some a
    → (fg_command fuel memory joblist.address (some (b'%' ∷ ds)) false ≡ bad_pointer)
      × ((memory' : Memory) × (fg_command fuel memory joblist.address (some (b'%' ∷ ds)) true
            ≡ returns (continued a.pid a.stopped, memory'))
          × Holds memory' (joblist ∷ with_stopped a.pid jobs))
fg_command-freed fuel memory joblist jobs ds a h l d w with_pid =
    let (p, q, na, ma) = node memory (joblist ∷ jobs) a h (
      placed joblist jobs (without a.pid jobs) (with_stopped a.pid jobs) (job_with a.pid jobs) a
        (pid-Place a.pid joblist jobs) with_pid) in
    let (memory', stops, holds) = stopped_job fuel memory joblist jobs a p q h l with_pid na ma in
    (
      fg_waits fuel memory joblist jobs ds a (job_of a p q) false h l d w na ma
          ∙ ended_job fuel memory joblist jobs a p q h l with_pid na,
      (
        memory',
        fg_waits fuel memory joblist jobs ds a (job_of a p q) true h l d w na ma ∙ stops,
        holds,
      ),
    )
