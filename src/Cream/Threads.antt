-- ===== src/Cream/Threads.antt =====
-- hw5/src/cream.c and queue.c: `main` and the workers on one queue, as steps of threads in any order. A
-- body under a lock is one step; between `Sem_wait` and the lock of `dequeue` other threads go on.
pub mod InOrder
use system_fundamentals_c_pr.Base.{
  ℕ, zero, suc, ◌-◌, ◌≡◌, ◌≢◌, Bool, true, false, Option, none, some, List, [], ◌∷◌, ◌++◌, ◌==◌,
  if◌then◌else◌,
}
use system_fundamentals_c_pr.Cream.Queue.{
  Queue, Ending, ends, blocks, misuses, deref, write, create_queue, enqueue,
}

-- `Sem_wait(&self->items)`; none blocks.
unfoldable pub sem_wait : Queue → Option Queue
sem_wait self = if self.items == 0 then none else some (record self { items = self.items - 1 })

-- `dequeue` under the lock.
unfoldable pub dequeue_locked : Queue → Ending ℕ
dequeue_locked self =
    if self.invalid then ends 0 true (some self) else elim (deref self.memory self.rear) [
      | none ↦ misuses
      | some node ↦
          ends node.item false
            (some (record self { rear = node.next; memory = write self.memory self.rear none }))
    ]

-- The queue, the connections that `main` has accepted and those that workers have taken, the oldest one
-- first, and how many workers are in front of `Sem_wait`, behind it, and at a connection.
pub record System : Type 0 where
  pub requests : Queue
  pub accepted : List ℕ
  pub taken : List ℕ
  pub idle : ℕ
  pub woken : ℕ
  pub serving : ℕ

abbrev pub start : ℕ → System
start workers = record {
  requests = create_queue;
  accepted = [];
  taken = [];
  idle = workers;
  woken = 0;
  serving = 0;
}

pub data Step : System → System → Type 0 where
  -- A round of the loop of `main`; `malloc` gives no NULL.
  accepts :
      (s : System) (connfd : ℕ) (q : Queue)
      → connfd ≢ 0
      → enqueue (some s.requests) connfd ≡ ends true false (some q)
      → Step s (record s { requests = q; accepted = s.accepted ++ connfd ∷ [] })
  wakes :
      (s : System) (idle : ℕ) (q : Queue)
      → s.idle ≡ suc idle
      → sem_wait s.requests ≡ some q
      → Step s (record s { requests = q; idle = idle; woken = suc s.woken })
  takes :
      (s : System) (woken connfd : ℕ) (q : Queue)
      → s.woken ≡ suc woken
      → dequeue_locked s.requests ≡ ends connfd false (some q)
      → Step s (record s {
        requests = q;
        taken = s.taken ++ connfd ∷ [];
        woken = woken;
        serving = suc s.serving;
      })
  finishes :
      (s : System) (serving : ℕ)
      → s.serving ≡ suc serving
      → Step s (record s { idle = suc s.idle; serving = serving })
  -- `return NULL` of a worker.
  leaves :
      (s : System) (serving : ℕ) → s.serving ≡ suc serving → Step s (record s { serving = serving })

pub data Reach (workers : ℕ) : System → Type 0 where
  begins : Reach workers (start workers)
  goes_on : {s t : System} → Reach workers s → Step s t → Reach workers t
