-- ===== src/Cream/Threads/InOrder.antt =====
-- hw5: connections are taken once each and in order, however the threads of the server interleave.
use mathlib.Core.List.{append_assoc, append-nil}
use system_fundamentals_c_pr.Base.{
  ℕ, zero, suc, ◌+◌, ◌-◌, ◌≤◌, ◌≡◌, ◌≢◌, inl, inr, refl, ap, ◌∙◌, sym, true, false, none, some,
  List, [], ◌∷◌, ◌++◌, length, length-append, arith, ◌==◌, Bool-cases, eq_of_some, ==_of_ne,
}
use system_fundamentals_c_pr.Cream.Queue.{
  Queue, queue_node, ends, blocks, deref, write, create_queue, enqueue, dequeue,
}
use system_fundamentals_c_pr.Cream.Queue.Chain.{Chain, end, link, extended, freed, Chain-last}
use system_fundamentals_c_pr.Cream.Queue.Fifo.{enqueued}
use system_fundamentals_c_pr.Cream.Threads.{
  sem_wait, dequeue_locked, System, start, Step, accepts, wakes, takes, finishes, leaves, Reach,
  begins, goes_on,
}

-- `dequeue` is its two steps, one after the other.
dequeue-sem_wait :
    (q : Queue)
    → dequeue (some q) ≡ elim (sem_wait q) [ none ↦ blocks | some q' ↦ dequeue_locked q' ]
unfolding dequeue sem_wait dequeue_locked
dequeue-sem_wait q = ground arith

-- What waits in the queue, the workers behind `Sem_wait` being counted off already.
pub record InOrder (s : System) (waiting : List ℕ) : Type 0 where
  pub valid : s.requests.invalid ≡ false
  pub counted : s.requests.items + s.woken ≡ length waiting
  pub chain : Chain s.requests.memory s.requests.front s.requests.rear waiting
  pub ordered : s.accepted ≡ s.taken ++ waiting

start-InOrder : (workers : ℕ) → InOrder (start workers) []
unfolding create_queue
start-InOrder workers = record { valid = refl; counted = refl; chain = end refl; ordered = refl }

abbrev locked : Queue → ℕ → Queue
locked q next = record q { rear = next; memory = write q.memory q.rear none }

-- The oldest item, when one waits.
locked_first :
    (q : Queue) (p item : ℕ) (items : List ℕ)
    → q.invalid ≡ false
    → q.rear ≡ p
    → Chain q.memory q.front p (item ∷ items)
    → (next : ℕ) × (dequeue_locked q ≡ ends item false (some (locked q next)))
      × Chain (write q.memory q.rear none) q.front next items
unfolding dequeue_locked
locked_first q _ item items v r (link p next _ _ e chain) = (
  next,
  (let e' : deref q.memory q.rear ≡ some (queue_node item next) = ap (deref q.memory) r ∙ e in
      ground (arith, v, e')),
  rw r (
      freed q.memory q.front next p items (item ∷ items) chain (link p next item items e chain)
        (omega arith)),
)

enqueue-enqueued :
    (q : Queue) (item : ℕ) (items : List ℕ)
    → q.invalid ≡ false
    → Chain q.memory q.front q.rear items
    → item ≢ 0
    → enqueue (some q) item ≡ ends true false (some (enqueued q item))
unfolding enqueue
enqueue-enqueued q item items v c ne =
    let l = Chain-last q.memory q.front q.rear items c in ground (arith, v, l, ==_of_ne item 0 ne)

queue_of_ends :
    {A : Type 0} {a b : A} {q r : Queue} → ends a false (some q) ≡ ends b false (some r) → q ≡ r
queue_of_ends e = cc e

value_of_ends :
    {A : Type 0} {a b : A} {q r : Queue} → ends a false (some q) ≡ ends b false (some r) → a ≡ b
value_of_ends e = cc e

accepts-InOrder :
    (s : System) (waiting : List ℕ) (connfd : ℕ)
    → InOrder s waiting
    → InOrder
        (record s { requests = enqueued s.requests connfd; accepted = s.accepted ++ connfd ∷ [] })
        (waiting ++ connfd ∷ [])
accepts-InOrder s waiting connfd h = record {
  valid = h.valid;
  counted = omega (arith, h.counted, length-append waiting (connfd ∷ []));
  chain = extended s.requests.memory s.requests.front s.requests.rear connfd waiting h.chain;
  ordered = ap (λ xs. xs ++ connfd ∷ []) h.ordered ∙ append_assoc s.taken waiting (connfd ∷ []);
}

-- What a worker behind `Sem_wait` finds: a connection always waits for it.
takes_first :
    (s : System) (waiting : List ℕ) (woken : ℕ)
    → InOrder s waiting
    → s.woken ≡ suc woken
    → (connfd : ℕ) × (next : ℕ) × (rest : List ℕ) × (waiting ≡ connfd ∷ rest)
      × (dequeue_locked s.requests ≡ ends connfd false (some (locked s.requests next)))
      × InOrder
          (record s {
            requests = locked s.requests next;
            taken = s.taken ++ connfd ∷ [];
            woken = woken;
            serving = suc s.serving;
          })
          rest
takes_first s [] woken h e = absurd (let c = h.counted in omega (arith, c, e))
takes_first s (connfd ∷ rest) woken h e =
    let (next, d, chain) =
      locked_first s.requests s.requests.rear connfd rest h.valid refl h.chain in
    (
      connfd,
      next,
      rest,
      refl,
      d,
      record {
        valid = h.valid;
        counted = (let c = h.counted in omega (arith, c, e));
        chain = chain;
        ordered = h.ordered ∙ sym (append_assoc s.taken (connfd ∷ []) rest);
      },
    )

wakes-InOrder :
    (s : System) (waiting : List ℕ) (idle : ℕ) (q : Queue)
    → sem_wait s.requests ≡ some q
    → InOrder s waiting
    → InOrder (record s { requests = q; idle = idle; woken = suc s.woken }) waiting
unfolding sem_wait
wakes-InOrder s waiting idle q e h = elim (Bool-cases (s.requests.items == 0)) [
  | inl y ↦
      absurd (let impossible : none ≡ some q = sym (rw (sem_wait, y) refl) ∙ e in cc impossible)
  | inr n ↦
      let same : record s.requests { items = s.requests.items - 1 } ≡ q =
        eq_of_some (sym (rw (sem_wait, n) refl) ∙ e) in
      rw (sym same) (record {
        valid = h.valid;
        counted = (let c = h.counted in ground (arith, c, n));
        chain = h.chain;
        ordered = h.ordered;
      })
]

-- One step.
Step-InOrder :
    {s t : System}
    → Step s t
    → (waiting : List ℕ) → InOrder s waiting
    → (rest : List ℕ) × InOrder t rest
unfolding sem_wait
Step-InOrder (accepts s connfd q ne e) waiting h =
    let same =
      queue_of_ends (sym (enqueue-enqueued s.requests connfd waiting h.valid h.chain ne) ∙ e) in
    (waiting ++ connfd ∷ [], rw (sym same) (accepts-InOrder s waiting connfd h))
Step-InOrder (wakes s idle q i e) waiting h = (waiting, wakes-InOrder s waiting idle q e h)
Step-InOrder (takes s woken connfd q w e) waiting h =
    let (c, next, rest, m, d, h') = takes_first s waiting woken h w in
    let same = queue_of_ends (sym d ∙ e) in
    let value = value_of_ends (sym d ∙ e) in (rest, rw (sym same, sym value) h')
Step-InOrder (finishes s serving e) waiting h =
    (waiting, record { valid = h.valid; counted = h.counted; chain = h.chain; ordered = h.ordered })
Step-InOrder (leaves s serving e) waiting h =
    (waiting, record { valid = h.valid; counted = h.counted; chain = h.chain; ordered = h.ordered })

abbrev pub working : System → ℕ
working s = s.idle + s.woken + s.serving

Step-working : {s t : System} → Step s t → working t ≤ working s
Step-working (accepts s connfd q ne e) = omega arith
Step-working (wakes s idle q i e) = omega arith
Step-working (takes s woken connfd q w e) = omega arith
Step-working (finishes s serving e) = omega arith
Step-working (leaves s serving e) = omega arith

Reach-working : {workers : ℕ} {s : System} → Reach workers s → working s ≤ workers
Reach-working begins = omega arith
Reach-working (goes_on r st) =
    let before = Reach-working r in let less = Step-working st in omega arith

-- However `main` and the workers interleave from the start of the server: the connections that were taken
-- and those that wait are, in this order, the ones that were accepted, so that each is taken at most once
-- and the oldest one first; the semaphore and the workers that it has let through are together as many as
-- the connections that wait, whose nodes are linked in this order; and there are never more workers than
-- were started.
pub Reach-InOrder :
    {workers : ℕ} {s : System}
    → Reach workers s
    → (waiting : List ℕ) × InOrder s waiting × (working s ≤ workers)
Reach-InOrder begins = ([], start-InOrder _, omega arith)
Reach-InOrder (goes_on r st) =
    let (waiting, h, w) = Reach-InOrder r in
    let (rest, h') = Step-InOrder st waiting h in (rest, h', Reach-working (goes_on r st))

-- A worker that `Sem_wait` has let through, in any state that the server reaches, finds a valid queue and
-- a node that is not freed: it gets the connection that was accepted first among those not yet taken.
pub Reach-takes :
    {workers : ℕ} {s : System} (woken : ℕ)
    → Reach workers s
    → s.woken ≡ suc woken
    → (connfd : ℕ) × (q : Queue) × (rest : List ℕ) × (dequeue_locked s.requests
        ≡ ends connfd false (some q))
      × (s.accepted ≡ s.taken ++ connfd ∷ rest)
Reach-takes {s = s} woken r e =
    let (waiting, h, l) = Reach-InOrder r in
    let (connfd, next, rest, m, d, h') = takes_first s waiting woken h e in
    (connfd, locked s.requests next, rest, d, h.ordered ∙ ap (λ xs. s.taken ++ xs) m)

-- The step of a worker that `Sem_wait` has let through.
takes_next :
    {workers : ℕ} (s : System) (waiting : List ℕ) (woken : ℕ)
    → Reach workers s
    → InOrder s waiting
    → s.woken ≡ suc woken
    → (connfd : ℕ) × (t : System) × Reach workers t × (t.taken ≡ s.taken ++ connfd ∷ [])
takes_next s waiting woken r h e =
    let (connfd, next, rest, m, d, h') = takes_first s waiting woken h e in
    (
      connfd,
      record s {
        requests = locked s.requests next;
        taken = s.taken ++ connfd ∷ [];
        woken = woken;
        serving = suc s.serving;
      },
      goes_on r (takes s woken connfd (locked s.requests next) e d),
      refl,
    )

progress_from :
    {workers : ℕ} (s : System) (waiting : List ℕ) (idle woken : ℕ)
    → Reach workers s
    → InOrder s waiting
    → s.idle ≡ suc idle
    → waiting ≢ []
    → s.woken ≡ woken
    → (connfd : ℕ) × (t : System) × Reach workers t × (t.taken ≡ s.taken ++ connfd ∷ [])
unfolding sem_wait
progress_from s [] idle woken r h e ne w = absurd (ne refl)
progress_from s (c ∷ waiting) idle (suc woken) r h e ne w = takes_next s (c ∷ waiting) woken r h w
progress_from s (c ∷ waiting) idle zero r h e ne w =
    let some_wait : (s.requests.items == 0) ≡ false = (let k = h.counted in ground (arith, k, w)) in
    let q : Queue = record s.requests { items = s.requests.items - 1 } in
    let waits : sem_wait s.requests ≡ some q = rw (sem_wait, some_wait) refl in
    takes_next (record s { requests = q; idle = idle; woken = suc s.woken }) (c ∷ waiting) s.woken
      (goes_on r (wakes s idle q e waits)) (wakes-InOrder s (c ∷ waiting) idle q waits h) refl

-- No connection is forgotten: in any state that the server reaches, as long as a worker is idle and one
-- was accepted that is not yet taken, steps lead to a state in which one more is taken.
pub Reach-progress :
    {workers : ℕ} {s : System} (idle : ℕ)
    → Reach workers s
    → s.idle ≡ suc idle
    → s.accepted ≢ s.taken
    → (connfd : ℕ) × (t : System) × Reach workers t × (t.taken ≡ s.taken ++ connfd ∷ [])
Reach-progress {s = s} idle r e ne =
    let (waiting, h, l) = Reach-InOrder r in
    progress_from s waiting idle s.woken r h e
      (λ n. ne (h.ordered ∙ ap (λ xs. s.taken ++ xs) n ∙ append-nil s.taken)) refl
