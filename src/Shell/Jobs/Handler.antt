-- ===== src/Shell/Jobs/Handler.antt =====
-- hw4/src/main.c: what `sigchld_handler_shell` makes of the jobs that the list holds.
use mathlib.Core.Path.{subst}
use system_fundamentals_c_pr.Base.{
  ℕ, ◌≡◌, ◌≢◌, refl, ap, ◌∙◌, sym, Bool, true, false, Option, some, List, [], ◌∷◌, ◌++◌, All, ◌<◌,
  length, if◌then◌else◌, ==_of_ne, ==_refl,
}
use system_fundamentals_c_pr.Shell.Jobs.{Memory, returns, write_job, sigchld_handler_shell, handle}
use system_fundamentals_c_pr.Shell.Jobs.Links.{
  Entry, job_of, first_of, Linked, Distinct, Holds, Linked-kept, All-front, append_one,
}
use system_fundamentals_c_pr.Shell.Jobs.Removal.{last_of, node_of, unlink_job-Holds}
use system_fundamentals_c_pr.Shell.Jobs.Lookup.{
  stopped_entry, address_of, job_with, without, with_stopped, find_pid-job_with, Place, nowhere, at,
  pid-Place,
}

-- The memory in which a job of the list is stopped.
abbrev stop_at : Memory → Entry → ℕ → ℕ → Memory
stop_at memory a prev next = write_job memory a.address (some (job_of (stopped_entry a) prev next))

first_of-stopped :
    (front : List Entry) (a : Entry) (back : List Entry)
    → first_of (front ++ a ∷ back) ≡ first_of (front ++ stopped_entry a ∷ back)
first_of-stopped [] a back = refl
first_of-stopped (e ∷ front) a back = refl

stop_at_others :
    (memory : Memory) (a : Entry) (prev next : ℕ) (es : List Entry)
    → All (λ e. e.address ≢ a.address) es
    → All (λ e. stop_at memory a prev next e.address ≡ memory e.address) es
stop_at_others memory a prev next [] h = tt
stop_at_others memory a prev next (e ∷ es) (n, h) =
    (rw (==_of_ne e.address a.address n) refl, stop_at_others memory a prev next es h)

stop_at-Linked :
    (memory : Memory) (prev : ℕ) (front : List Entry) (a : Entry) (back : List Entry)
    → Distinct (front ++ a ∷ back)
    → Linked memory prev (front ++ a ∷ back)
    → Linked
        (stop_at memory a (last_of prev front) (first_of back))
        prev
        (front ++ stopped_entry a ∷ back)
stop_at-Linked memory prev [] a back (apart, d) (n, (m, h)) = (
  n,
  (
    rw (==_refl a.address) refl,
    Linked-kept memory (stop_at memory a prev (first_of back)) a.address back
        (stop_at_others memory a prev (first_of back) back apart) h,
  ),
)
stop_at-Linked memory prev (e ∷ front) a back (apart, d) (n, (m, h)) =
    let (f, (na, nback)) = All-front (λ d. d.address ≢ e.address) front (a ∷ back) apart in
    (
      n,
      (
        rw (==_of_ne e.address a.address (λ x. na (sym x)))
            (m ∙ ap (λ x. some (job_of e prev x)) (first_of-stopped front a back)),
        stop_at-Linked memory e.address front a back d h,
      ),
    )

All-stopped :
    (x : ℕ) (front : List Entry) (a : Entry) (back : List Entry)
    → All (λ e. e.address ≢ x) (front ++ a ∷ back)
    → All (λ e. e.address ≢ x) (front ++ stopped_entry a ∷ back)
All-stopped x [] a back h = h
All-stopped x (e ∷ front) a back (n, h) = (n, All-stopped x front a back h)

Distinct-stopped :
    (front : List Entry) (a : Entry) (back : List Entry)
    → Distinct (front ++ a ∷ back)
    → Distinct (front ++ stopped_entry a ∷ back)
Distinct-stopped [] a back d = d
Distinct-stopped (e ∷ front) a back (apart, d) =
    (All-stopped e.address front a back apart, Distinct-stopped front a back d)

stop_at-Holds :
    (memory : Memory) (front : List Entry) (a : Entry) (back : List Entry)
    → Holds memory (front ++ a ∷ back)
    → Holds (stop_at memory a (last_of 0 front) (first_of back)) (front ++ stopped_entry a ∷ back)
stop_at-Holds memory front a back h = record {
  linked = stop_at-Linked memory 0 front a back h.distinct h.linked;
  distinct = Distinct-stopped front a back h.distinct;
}

last_of-append :
    (prev : ℕ) (front : List Entry) (b : Entry) → last_of prev (front ++ b ∷ []) ≡ b.address
last_of-append prev [] b = refl
last_of-append prev (e ∷ front) b = last_of-append e.address front b

abbrev pub after_signal : ℕ → Bool → List Entry → List Entry
after_signal pid is_stopped jobs = if is_stopped then with_stopped pid jobs else without pid jobs

-- The handler, when a lookup has found its place.
handled :
    (memory : Memory) (b : Entry) (rest less stopped : List Entry) (found : Option Entry)
    (is_stopped : Bool)
    → Holds memory (b ∷ rest)
    → Place b rest less stopped found
    → (memory' : Memory) × (handle memory is_stopped (address_of found) ≡ returns memory')
      × Holds memory' (b ∷ (if is_stopped then stopped else less))
unfolding handle
handled memory b rest less stopped found false h (nowhere x y z) =
    (memory, rw (handle, x) refl, subst (λ es. Holds memory (b ∷ es)) (sym y) h)
handled memory b rest less stopped found true h (nowhere x y z) =
    (memory, rw (handle, x) refl, subst (λ es. Holds memory (b ∷ es)) (sym z) h)
handled memory b rest less stopped found false h (at front b' a back x y z w) =
    let h' = subst (λ es. Holds memory es) y h in
    let (nb, mb, (na, ma)) = node_of memory 0 front b' (a ∷ back) h'.linked in
    let (memory', unlinks, holds) = unlink_job-Holds memory front b' a back h' in
    (
      memory',
      rw (handle, x, ==_of_ne a.address 0 na, x, unlinks) refl,
      subst (λ es. Holds memory' es) (sym z) holds,
    )
handled memory b rest less stopped found true h (at front b' a back x y z w) =
    let h' = subst (λ es. Holds memory es) y h in
    let (nb, mb, (na, (ma, la))) = node_of memory 0 front b' (a ∷ back) h'.linked in
    let h'' = subst (λ es. Holds memory es) (append_one front b' (a ∷ back)) h' in
    (
      stop_at memory a (last_of 0 (front ++ b' ∷ [])) (first_of back),
      rw (handle, x, ==_of_ne a.address 0 na, x, ma, x)
          (ap (λ p. returns (stop_at memory a p (first_of back)))
            (sym (last_of-append 0 front b'))),
      subst (λ es. Holds (stop_at memory a (last_of 0 (front ++ b' ∷ [])) (first_of back)) es)
          (sym w) (stop_at-Holds memory (front ++ b' ∷ []) a back h''),
    )

-- `sigchld_handler_shell`, for a list of jobs in memory behind the node that `joblist` points to, and
-- fuel that is more than their number: it returns, and the list that the memory then holds is the same
-- without the first job that has the process, or with that job stopped if the process is stopped; the
-- links are right in both directions.
pub sigchld_handler_shell-Holds :
    (fuel : ℕ) (memory : Memory) (joblist : Entry) (jobs : List Entry) (pid : ℕ) (is_stopped : Bool)
    → Holds memory (joblist ∷ jobs)
    → length jobs < fuel
    → (memory' : Memory) × (sigchld_handler_shell fuel memory joblist.address pid is_stopped
        ≡ returns memory')
      × Holds memory' (joblist ∷ after_signal pid is_stopped jobs)
unfolding sigchld_handler_shell
sigchld_handler_shell-Holds fuel memory joblist jobs pid is_stopped h l =
    let (n, (m, linked)) = h.linked in
    let (memory', made, holds) =
      handled memory joblist jobs (without pid jobs) (with_stopped pid jobs) (job_with pid jobs)
        is_stopped h (pid-Place pid joblist jobs) in
    (
      memory',
      rw (sigchld_handler_shell, m, find_pid-job_with fuel memory pid joblist.address jobs l linked)
          made,
      holds,
    )
