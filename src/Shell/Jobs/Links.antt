-- ===== src/Shell/Jobs/Links.antt =====
-- The jobs of hw4/src/main.c that a linked list holds, in their order.
use mathlib.Core.List.{append_assoc}
use system_fundamentals_c_pr.Base.{
  ℕ, ◌≡◌, ◌≢◌, refl, ◌∙◌, sym, Bool, some, List, [], ◌∷◌, ◌++◌, All,
}
use system_fundamentals_c_pr.Shell.Jobs.{Job, Memory}

-- A job, at its address.
pub record Entry : Type 0 where
  pub address : ℕ
  pub execname : List ℕ
  pub pid : ℕ
  pub stopped : Bool

abbrev pub job_of : Entry → ℕ → ℕ → Job
job_of e prev next = record {
  execname = e.execname;
  pid = e.pid;
  stopped = e.stopped;
  prev = prev;
  next = next;
}

abbrev pub first_of : List Entry → ℕ
first_of [] = 0
first_of (e ∷ es) = e.address

-- The nodes are linked in both directions, the first one back to `prev`.
abbrev pub Linked : Memory → ℕ → List Entry → Type 0
Linked memory prev [] = Unit
Linked memory prev (e ∷ es) =
    (e.address ≢ 0)
    × ((memory e.address ≡ some (job_of e prev (first_of es))) × Linked memory e.address es)

-- No address twice.
abbrev pub Distinct : List Entry → Type 0
Distinct [] = Unit
Distinct (e ∷ es) = All (λ d. d.address ≢ e.address) es × Distinct es

-- The list holds the jobs, with the node of its own in front.
pub record Holds (memory : Memory) (jobs : List Entry) : Type 0 where
  pub linked : Linked memory 0 jobs
  pub distinct : Distinct jobs

-- A write elsewhere.
pub Linked-kept :
    (memory memory' : Memory) (prev : ℕ) (jobs : List Entry)
    → All (λ e. memory' e.address ≡ memory e.address) jobs
    → Linked memory prev jobs
    → Linked memory' prev jobs
Linked-kept memory memory' prev [] same h = tt
Linked-kept memory memory' prev (e ∷ es) (s, same) (n, (m, h)) =
    (n, (s ∙ m, Linked-kept memory memory' e.address es same h))

pub first_of-append :
    (front : List Entry) (e : Entry) (a b : List Entry)
    → first_of (front ++ e ∷ a) ≡ first_of (front ++ e ∷ b)
first_of-append [] e a b = refl
first_of-append (d ∷ front) e a b = refl

pub All-front :
    (P : Entry → Type 0) (front back : List Entry)
    → All P (front ++ back)
    → All P front × All P back
All-front P [] back h = (tt, h)
All-front P (e ∷ front) back (p, h) = let (f, b) = All-front P front back h in ((p, f), b)

pub All-map :
    (P Q : Entry → Type 0) (es : List Entry) → ((e : Entry) → P e → Q e) → All P es → All Q es
All-map P Q [] f h = tt
All-map P Q (e ∷ es) f (p, h) = (f e p, All-map P Q es f h)

pub append_one :
    (front : List Entry) (b : Entry) (back : List Entry)
    → front ++ b ∷ back ≡ (front ++ b ∷ []) ++ back
append_one front b back = sym (append_assoc front (b ∷ []) back)
