-- ===== src/Cream/Queue/Calls.antt =====
-- Sequences of calls of hw5/src/queue.c, against the queue as a list.
use system_fundamentals_c_pr.Base.{ℕ, ◌≡◌, ◌≢◌, refl, true, false, none, some, List, [], ◌∷◌, ◌++◌}
use system_fundamentals_c_pr.Cream.Queue.{Queue, ends, blocks, misuses, enqueue, dequeue}
use system_fundamentals_c_pr.Cream.Queue.Fifo.{
  Holds, Dequeues, enqueue-Holds, enqueued, dequeue-Dequeues,
}

pub data Call : Type 0 where
  adds : ℕ → Call
  takes : Call

-- How the calls of one thread end, with the items taken up to there: all of them return, or one blocks in
-- `sem_wait`, fails, or uses a pointer that is NULL or was freed.
pub data Outcome : Type 0 where
  finishes : List ℕ → Outcome
  waits : List ℕ → Outcome
  fails : List ℕ → Outcome
  uses_freed : List ℕ → Outcome

abbrev pub with_item : ℕ → Outcome → Outcome
with_item item (finishes items) = finishes (item ∷ items)
with_item item (waits items) = waits (item ∷ items)
with_item item (fails items) = fails (item ∷ items)
with_item item (uses_freed items) = uses_freed (item ∷ items)

abbrev pub taken : List Call → Queue → Outcome
taken [] q = finishes []
taken (adds item ∷ calls) q = elim (enqueue (some q) item) [
  | ends true errno (some q') ↦ taken calls q'
  | ends true errno none ↦ fails []
  | ends false errno q' ↦ fails []
  | blocks ↦ waits []
  | misuses ↦ uses_freed []
]
taken (takes ∷ calls) q = elim (dequeue (some q)) [
  | ends item false (some q') ↦ with_item item (taken calls q')
  | ends item false none ↦ fails []
  | ends item true q' ↦ fails []
  | blocks ↦ waits []
  | misuses ↦ uses_freed []
]

-- The same calls on a list that is added to at its end and taken from at its front: the one thing that
-- keeps a call from returning is that there is nothing to take.
abbrev pub taken_in_order : List Call → List ℕ → Outcome
taken_in_order [] items = finishes []
taken_in_order (adds item ∷ calls) items = taken_in_order calls (items ++ item ∷ [])
taken_in_order (takes ∷ calls) [] = waits []
taken_in_order (takes ∷ calls) (item ∷ items) = with_item item (taken_in_order calls items)

-- No call adds NULL.
abbrev pub AddsItems : List Call → Type 0
AddsItems [] = Unit
AddsItems (adds item ∷ calls) = (item ≢ 0) × AddsItems calls
AddsItems (takes ∷ calls) = AddsItems calls

-- A sequence of calls that adds no NULL takes the same items from a queue as from the list of the items
-- that the queue holds, and comes to the same end: all calls return, or the same one blocks because
-- nothing is there; none fails, and none uses a pointer that is NULL or was freed.
pub taken-taken_in_order :
    (calls : List Call) (q : Queue) (items : List ℕ)
    → Holds q items
    → AddsItems calls
    → taken calls q ≡ taken_in_order calls items
unfolding Dequeues
taken-taken_in_order [] q items h a = refl
taken-taken_in_order (adds item ∷ calls) q items h (ne, a) =
    let (e, h') = enqueue-Holds q items item h ne in
    rw (taken, e) (taken-taken_in_order calls (enqueued q item) (items ++ item ∷ []) h' a)
taken-taken_in_order (takes ∷ calls) q [] h a =
    let e = dequeue-Dequeues q [] h in rw (taken, e) refl
taken-taken_in_order (takes ∷ calls) q (item ∷ items) h a =
    let (q', e, h') = dequeue-Dequeues q (item ∷ items) h in
    rw (taken, e, taken-taken_in_order calls q' items h' a) refl
