-- ===== src/Shell/Jobs/Adding.antt =====
-- hw4/src/main.c: the job of a new command, behind the jobs that the list holds.
use system_fundamentals_c_pr.Base.{
  ℕ, zero, suc, ◌≡◌, ◌≢◌, refl, sym, false, some, List, [], ◌∷◌, ◌++◌, All, ◌<◌, length, arith,
  ==_of_ne, ==_refl,
}
use system_fundamentals_c_pr.Shell.Jobs.{Memory, returns, write_job, last_job, add_job}
use system_fundamentals_c_pr.Shell.Jobs.Links.{Entry, job_of, Linked, Distinct, Holds}

abbrev last_entry : Entry → List Entry → Entry
last_entry b [] = b
last_entry b (e ∷ es) = last_entry e es

abbrev before_last : ℕ → Entry → List Entry → ℕ
before_last prev b [] = prev
before_last prev b (e ∷ es) = before_last b.address e es

-- The memory with `new` behind the last job.
abbrev added : Memory → ℕ → Entry → List Entry → Entry → Memory
added memory prev b rest new =
    let last = last_entry b rest in
    write_job (write_job memory new.address (some (job_of new last.address 0))) last.address
      (some (job_of last (before_last prev b rest) new.address))

last_node :
    (memory : Memory) (prev : ℕ) (b : Entry) (rest : List Entry)
    → Linked memory prev (b ∷ rest)
    → memory (last_entry b rest).address
      ≡ some (job_of (last_entry b rest) (before_last prev b rest) 0)
last_node memory prev b [] (n, (m, h)) = m
last_node memory prev b (e ∷ es) (n, (m, h)) = last_node memory b.address e es h

last_job-last_entry :
    (fuel : ℕ) (memory : Memory) (prev : ℕ) (b : Entry) (rest : List Entry)
    → length rest < fuel
    → Linked memory prev (b ∷ rest)
    → last_job fuel memory b.address ≡ returns (last_entry b rest).address
unfolding last_job
last_job-last_entry zero memory prev b rest l h = ground arith
last_job-last_entry (suc fuel) memory prev b [] l (n, (m, h)) = rw (last_job, m) refl
last_job-last_entry (suc fuel) memory prev b (e ∷ es) l (n, (m, h)) =
    rw (last_job, m, ==_of_ne e.address 0 h.0)
      (last_job-last_entry fuel memory b.address e es (omega arith) h)

last_All :
    (P : Entry → Type 0) (b : Entry) (rest : List Entry) → All P (b ∷ rest) → P (last_entry b rest)
last_All P b [] (p, h) = p
last_All P b (e ∷ es) (p, h) = last_All P e es h

added-Linked :
    (memory : Memory) (prev : ℕ) (b : Entry) (rest : List Entry) (new : Entry)
    → new.address ≢ 0
    → All (λ e. e.address ≢ new.address) (b ∷ rest)
    → Distinct (b ∷ rest)
    → Linked memory prev (b ∷ rest)
    → Linked (added memory prev b rest new) prev (b ∷ rest ++ new ∷ [])
added-Linked memory prev b [] new z (nb, tt) d (n, (m, h)) = (
  n,
  (
    rw (==_refl b.address) refl,
    (z, (rw (==_of_ne new.address b.address (λ x. nb (sym x)), ==_refl new.address) refl, tt)),
  ),
)
added-Linked memory prev b (e ∷ es) new z (nb, fresh) (apart, d) (n, (m, h)) =
    let last = last_All (λ x. x.address ≢ b.address) e es apart in
    (
      n,
      (
        rw
            (
              ==_of_ne b.address (last_entry e es).address (λ x. last (sym x)),
              ==_of_ne b.address new.address nb,
            )
            m,
        added-Linked memory b.address e es new z fresh d h,
      ),
    )

All-append :
    (P : Entry → Type 0) (es : List Entry) (e : Entry) → All P es → P e → All P (es ++ e ∷ [])
All-append P [] e h p = (p, tt)
All-append P (d ∷ es) e (pd, h) p = (pd, All-append P es e h p)

Distinct-append :
    (es : List Entry) (new : Entry)
    → All (λ e. e.address ≢ new.address) es
    → Distinct es
    → Distinct (es ++ new ∷ [])
Distinct-append [] new fresh d = (tt, tt)
Distinct-append (e ∷ es) new (n, fresh) (apart, d) = (
  All-append (λ x. x.address ≢ e.address) es new apart (λ x. n (sym x)),
  Distinct-append es new fresh d,
)

-- `main`'s entry of a new job, for a list of jobs in memory, fuel that is more than their number, and a
-- block, not at 0, in which no job of the list stands: it returns, and the memory then holds the same
-- jobs with the new one behind them.
pub add_job-Holds :
    (fuel : ℕ) (memory : Memory) (joblist : Entry) (jobs : List Entry) (job : ℕ) (execname : List ℕ)
    (pid : ℕ)
    → Holds memory (joblist ∷ jobs)
    → length jobs < fuel
    → job ≢ 0
    → All (λ e. e.address ≢ job) (joblist ∷ jobs)
    → (memory' : Memory) × (add_job fuel memory joblist.address job execname pid ≡ returns memory')
      × Holds memory' (
          joblist ∷ jobs
          ++ record { address = job; execname = execname; pid = pid; stopped = false } ∷ [])
unfolding add_job
add_job-Holds fuel memory joblist jobs job execname pid h l z fresh =
    let new : Entry = record { address = job; execname = execname; pid = pid; stopped = false } in
    let last = last_All (λ e. e.address ≢ job) joblist jobs fresh in
    (
      added memory 0 joblist jobs new,
      rw
          (
            add_job,
            last_job-last_entry fuel memory 0 joblist jobs l h.linked,
            ==_of_ne (last_entry joblist jobs).address job last,
            last_node memory 0 joblist jobs h.linked,
          )
          refl,
      record {
        linked = added-Linked memory 0 joblist jobs new z fresh h.distinct h.linked;
        distinct = Distinct-append (joblist ∷ jobs) new fresh h.distinct;
      },
    )
