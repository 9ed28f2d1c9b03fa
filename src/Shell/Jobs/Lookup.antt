-- ===== src/Shell/Jobs/Lookup.antt =====
-- The jobs that hw4/src/main.c looks up in its list, by the process and by the number.
use system_fundamentals_c_pr.Base.{
  ℕ, zero, suc, ◌+◌, ◌≡◌, inl, inr, refl, ap, true, Option, none, some, List, [], ◌∷◌, ◌++◌, ◌==◌,
  ◌<◌, length, Bool-cases, if◌then◌else◌, arith, ==_of_ne,
}
use system_fundamentals_c_pr.Shell.Jobs.{Memory, returns, find_pid, find_index}
use system_fundamentals_c_pr.Shell.Jobs.Links.{Entry, first_of, Linked}

abbrev pub stopped_entry : Entry → Entry
stopped_entry e = record e { stopped = true }

-- The first job with a process.
unfoldable pub job_with : ℕ → List Entry → Option Entry
job_with pid [] = none
job_with pid (e ∷ es) = if e.pid == pid then some e else job_with pid es

abbrev pub address_of : Option Entry → ℕ
address_of none = 0
address_of (some e) = e.address

-- The jobs without the first one that has the process.
unfoldable pub without : ℕ → List Entry → List Entry
without pid [] = []
without pid (e ∷ es) = if e.pid == pid then es else e ∷ without pid es

-- The jobs, the first one that has the process being stopped.
unfoldable pub with_stopped : ℕ → List Entry → List Entry
with_stopped pid [] = []
with_stopped pid (e ∷ es) = if e.pid == pid then stopped_entry e ∷ es else e ∷ with_stopped pid es

pub find_pid-job_with :
    (fuel : ℕ) (memory : Memory) (pid prev : ℕ) (jobs : List Entry)
    → length jobs < fuel
    → Linked memory prev jobs
    → find_pid fuel memory pid (first_of jobs) ≡ returns (address_of (job_with pid jobs))
unfolding find_pid job_with
find_pid-job_with zero memory pid prev jobs l h = ground arith
find_pid-job_with (suc fuel) memory pid prev [] l h = refl
find_pid-job_with (suc fuel) memory pid prev (e ∷ es) l (n, (m, h)) =
    rw (find_pid, ==_of_ne e.address 0 n, m)
      (elim (Bool-cases (e.pid == pid)) [
        | inl y ↦ rw (y) refl
        | inr n2 ↦ rw (n2) (find_pid-job_with fuel memory pid e.address es (ground arith) h)
      ])

-- What a lookup in the jobs behind `b` leaves: no job, or one with `b'` in front of it, `front` being
-- the jobs before that.
pub data Place (b : Entry) (rest less stopped : List Entry) (found : Option Entry) : Type 0 where
  nowhere : found ≡ none → less ≡ rest → stopped ≡ rest → Place b rest less stopped found
  at :
      (front : List Entry) (b' a : Entry) (back : List Entry)
      → found ≡ some a
      → b ∷ rest ≡ front ++ b' ∷ a ∷ back
      → b ∷ less ≡ front ++ b' ∷ back
      → b ∷ stopped ≡ (front ++ b' ∷ []) ++ stopped_entry a ∷ back
      → Place b rest less stopped found

pub Place-behind :
    (b e : Entry) (rest less stopped : List Entry) (found : Option Entry)
    → Place e rest less stopped found
    → Place b (e ∷ rest) (e ∷ less) (e ∷ stopped) found
Place-behind b e rest less stopped found (nowhere x y z) =
    nowhere x (ap (λ es. e ∷ es) y) (ap (λ es. e ∷ es) z)
Place-behind b e rest less stopped found (at front b' a back x y z w) =
    at (b ∷ front) b' a back x (ap (λ es. b ∷ es) y) (ap (λ es. b ∷ es) z) (ap (λ es. b ∷ es) w)

pub pid-Place :
    (pid : ℕ) (b : Entry) (jobs : List Entry)
    → Place b jobs (without pid jobs) (with_stopped pid jobs) (job_with pid jobs)
unfolding job_with without with_stopped
pid-Place pid b [] = nowhere refl refl refl
pid-Place pid b (e ∷ es) = elim (Bool-cases (e.pid == pid)) [
  | inl y ↦ rw (y) (at [] b e es refl refl refl refl)
  | inr n ↦ rw (n) (
      Place-behind b e es (without pid es) (with_stopped pid es) (job_with pid es)
        (pid-Place pid e es))
]

-- The same for the job with a number, `i` being the number of the first one.
unfoldable pub job_at : ℕ → ℕ → List Entry → Option Entry
job_at jpid i [] = none
job_at jpid i (e ∷ es) = if i == jpid then some e else job_at jpid (i + 1) es

unfoldable pub without_at : ℕ → ℕ → List Entry → List Entry
without_at jpid i [] = []
without_at jpid i (e ∷ es) = if i == jpid then es else e ∷ without_at jpid (i + 1) es

unfoldable pub with_stopped_at : ℕ → ℕ → List Entry → List Entry
with_stopped_at jpid i [] = []
with_stopped_at jpid i (e ∷ es) =
    if i == jpid then stopped_entry e ∷ es else e ∷ with_stopped_at jpid (i + 1) es

pub find_index-job_at :
    (fuel : ℕ) (memory : Memory) (jpid i prev : ℕ) (jobs : List Entry)
    → length jobs < fuel
    → Linked memory prev jobs
    → find_index fuel memory jpid i (first_of jobs) ≡ returns (address_of (job_at jpid i jobs))
unfolding find_index job_at
find_index-job_at zero memory jpid i prev jobs l h = ground arith
find_index-job_at (suc fuel) memory jpid i prev [] l h = refl
find_index-job_at (suc fuel) memory jpid i prev (e ∷ es) l (n, (m, h)) =
    rw (find_index, ==_of_ne e.address 0 n)
      (elim (Bool-cases (i == jpid)) [
        | inl y ↦ rw (y) refl
        | inr n2 ↦
            rw (n2, m) (find_index-job_at fuel memory jpid (i + 1) e.address es (ground arith) h)
      ])

pub index-Place :
    (jpid i : ℕ) (b : Entry) (jobs : List Entry)
    → Place b jobs (without_at jpid i jobs) (with_stopped_at jpid i jobs) (job_at jpid i jobs)
unfolding job_at without_at with_stopped_at
index-Place jpid i b [] = nowhere refl refl refl
index-Place jpid i b (e ∷ es) = elim (Bool-cases (i == jpid)) [
  | inl y ↦ rw (y) (at [] b e es refl refl refl refl)
  | inr n ↦ rw (n) (
      Place-behind b e es (without_at jpid (i + 1) es) (with_stopped_at jpid (i + 1) es)
        (job_at jpid (i + 1) es) (index-Place jpid (i + 1) e es))
]
