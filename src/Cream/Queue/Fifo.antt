-- ===== src/Cream/Queue/Fifo.antt =====
-- The functions of hw5/src/queue.c as operations on a list of items, first in first out.
use system_fundamentals_c_pr.Base.{
  ℕ, zero, suc, ◌+◌, ◌-◌, ◌<◌, ◌≡◌, ◌≢◌, refl, ap, ◌∙◌, true, false, none, some, List, [], ◌∷◌,
  ◌++◌, length, length-append, arith, ◌==◌, ==_of_ne, if◌then◌else◌,
}
use system_fundamentals_c_pr.Cream.Queue.{
  queue_node, Queue, Memory, ends, blocks, deref, write, alloc, create_queue, enqueue, dequeue,
  destroy_nodes, invalidate_queue,
}
use system_fundamentals_c_pr.Cream.Queue.Chain.{
  Chain, end, link, extended, freed, Chain-last, live, live-length, live-write,
}

-- The queue holds these items, the oldest one first.
pub record Holds (q : Queue) (items : List ℕ) : Type 0 where
  pub valid : q.invalid ≡ false
  pub counted : q.items ≡ length items
  pub chain : Chain q.memory q.front q.rear items

-- A new queue holds no item.
pub create_queue-Holds : Holds create_queue []
unfolding create_queue
create_queue-Holds = record { valid = refl; counted = refl; chain = end refl }

abbrev pub enqueued : Queue → ℕ → Queue
enqueued q item = record q {
  front = length q.memory + 1;
  items = q.items + 1;
  memory = alloc (write q.memory q.front (some (queue_node item (length q.memory + 1))));
}

-- On a queue that holds items, `enqueue` of an item that is not NULL returns true, uses no pointer that is
-- NULL or freed, and leaves a queue that holds the item behind the others.
pub enqueue-Holds :
    (q : Queue) (items : List ℕ) (item : ℕ)
    → Holds q items
    → item ≢ 0
    → (enqueue (some q) item ≡ ends true false (some (enqueued q item)))
      × Holds (enqueued q item) (items ++ item ∷ [])
unfolding enqueue
enqueue-Holds q items item h ne =
    let l = Chain-last q.memory q.front q.rear items h.chain in
    (
      ground (arith, h.valid, l, ==_of_ne item 0 ne),
      record {
        valid = h.valid;
        counted = omega (arith, h.counted, length-append items (item ∷ []));
        chain = extended q.memory q.front q.rear item items h.chain;
      },
    )

-- What `dequeue` does to a queue that holds these items.
unfoldable pub Dequeues : Queue → List ℕ → Type 0
Dequeues q [] = dequeue (some q) ≡ blocks
Dequeues q (item ∷ items) =
    (q' : Queue) × (dequeue (some q) ≡ ends item false (some q')) × Holds q' items

abbrev pub dequeued : Queue → ℕ → Queue
dequeued q next = record q { rear = next; items = q.items - 1; memory = write q.memory q.rear none }

dequeue_front :
    (q : Queue) (item next : ℕ)
    → q.invalid ≡ false
    → q.items ≢ 0
    → deref q.memory q.rear ≡ some (queue_node item next)
    → dequeue (some q) ≡ ends item false (some (dequeued q next))
unfolding dequeue
dequeue_front q item next v c e = ground (arith, v, ==_of_ne q.items 0 c, e)

first :
    (q : Queue) (p item : ℕ) (items : List ℕ)
    → q.invalid ≡ false
    → q.items ≡ suc (length items)
    → q.rear ≡ p
    → Chain q.memory q.front p (item ∷ items)
    → (q' : Queue) × (dequeue (some q) ≡ ends item false (some q')) × Holds q' items
first q _ item items v c r (link p next _ _ e chain) = (
  dequeued q next,
  dequeue_front q item next v (omega arith) (ap (deref q.memory) r ∙ e),
  record {
    valid = v;
    counted = omega arith;
    chain = rw r (
        freed q.memory q.front next p items (item ∷ items) chain (link p next item items e chain)
          (omega arith));
  },
)

-- `dequeue` returns the oldest item of a queue and leaves a queue that holds the others, in order; on a
-- queue that holds no item it blocks.
pub dequeue-Dequeues : (q : Queue) (items : List ℕ) → Holds q items → Dequeues q items
unfolding Dequeues dequeue
dequeue-Dequeues q [] h = rw h.counted refl
dequeue-Dequeues q (item ∷ items) h = first q q.rear item items h.valid h.counted refl h.chain

destroyed-Chain :
    (fuel : ℕ) (memory : Memory) (last p : ℕ) (items : List ℕ)
    → Chain memory last p items
    → live memory < fuel
    → (rest : Memory) × (destroy_nodes fuel memory p ≡ some (items ++ 0 ∷ [], rest))
unfolding destroy_nodes
destroyed-Chain zero memory last p items c l = absurd (omega arith)
destroyed-Chain (suc fuel) memory zero _ _ (end e) l = absurd (cc e)
destroyed-Chain (suc zero) memory (suc last) _ _ (end e) l =
    absurd (omega (arith, live-write memory (suc last) _ e))
destroyed-Chain (suc (suc fuel)) memory (suc last) _ _ (end e) l =
    (write memory (suc last) none, rw (destroy_nodes, e) refl)
destroyed-Chain (suc fuel) memory last _ _ (link zero next item items e c) l = absurd (cc e)
destroyed-Chain (suc fuel) memory last _ _ (link (suc p) next item items e c) l =
    let whole = link (suc p) next item items e c in
    let (rest, h) =
      destroyed-Chain fuel (write memory (suc p) none) last next items
        (freed memory last next (suc p) items (item ∷ items) c whole (omega arith))
        (omega (arith, live-write memory (suc p) _ e)) in
    (rest, rw (destroy_nodes, e, h) refl)

-- `invalidate_queue` on a queue that holds items returns true and calls the destructor on each of them,
-- the oldest first, and then on NULL, the item of the last node; a node is freed once and not used after.
-- Then `enqueue` and a second `invalidate_queue` fail with EINVAL, and `dequeue` does so only as often as
-- there were items: it blocks where there was none.
pub invalidate_queue-Holds :
    (q : Queue) (items : List ℕ) (item : ℕ)
    → Holds q items
    → (q' : Queue) × (invalidate_queue (some q) true ≡ ends (true, items ++ 0 ∷ []) false (some q'))
      × (enqueue (some q') item ≡ ends false true (some q'))
      × (invalidate_queue (some q') true ≡ ends (false, []) true (some q'))
      × (dequeue (some q') ≡ (
          if length items == 0
          then blocks
          else ends 0 true (some (record q' { items = length items - 1 }))))
unfolding invalidate_queue enqueue dequeue
invalidate_queue-Holds q items item h =
    let (rest, d) =
      destroyed-Chain (length q.memory + 1) q.memory q.front q.rear items h.chain
        (omega (arith, live-length q.memory)) in
    (
      record q { invalid = true; memory = rest },
      rw (h.valid, d) refl,
      ground arith,
      refl,
      rw h.counted refl,
    )
