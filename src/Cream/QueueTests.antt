-- ===== src/Cream/QueueTests.antt =====
-- hw5/src/queue.c: the theorems at concrete queues, and runs of the functions.
use system_fundamentals_c_pr.Base.{
  ℕ, ◌≤◌, ◌++◌, ◌≡◌, refl, true, false, none, some, List, [], ◌∷◌, arith,
}
use system_fundamentals_c_pr.Cream.Threads.{
  System, start, Reach, begins, goes_on, accepts, wakes, sem_wait, dequeue_locked,
}
use system_fundamentals_c_pr.Cream.Threads.InOrder.{
  InOrder, working, Reach-InOrder, Reach-takes, Reach-progress,
}
use system_fundamentals_c_pr.Cream.Queue.{
  Queue, ends, blocks, queue_node, create_queue, enqueue, dequeue, invalidate_queue,
}
use system_fundamentals_c_pr.Cream.Queue.Chain.{end, link}
use system_fundamentals_c_pr.Cream.Queue.Fifo.{
  Holds, enqueued, Dequeues, enqueue-Holds, dequeue-Dequeues, invalidate_queue-Holds,
}
use system_fundamentals_c_pr.Cream.Queue.Calls.{
  Call, adds, takes, finishes, taken, taken-taken_in_order,
}

-- A queue after `enqueue` of 5 and 6, where 4 was taken before.
abbrev two : Queue
two = record {
  front = 4;
  rear = 2;
  items = 2;
  invalid = false;
  memory = none ∷ some (queue_node 5 3) ∷ some (queue_node 6 4) ∷ some (queue_node 0 0) ∷ [];
}

two-Holds : Holds two (5 ∷ 6 ∷ [])
two-Holds = record {
  valid = refl;
  counted = refl;
  chain = link 2 3 5 (6 ∷ []) refl (link 3 4 6 [] refl (end refl));
}

enqueue_test :
    (enqueue (some two) 7 ≡ ends true false (some (enqueued two 7)))
    × Holds (enqueued two 7) (5 ∷ 6 ∷ 7 ∷ [])
enqueue_test = enqueue-Holds two (5 ∷ 6 ∷ []) 7 two-Holds (omega arith)

dequeue_test : (q' : Queue) × (dequeue (some two) ≡ ends 5 false (some q')) × Holds q' (6 ∷ [])
unfolding Dequeues
dequeue_test = dequeue-Dequeues two (5 ∷ 6 ∷ []) two-Holds

invalidate_queue_test :
    (q' : Queue) × (invalidate_queue (some two) true ≡ ends (true, 5 ∷ 6 ∷ 0 ∷ []) false (some q'))
    × (enqueue (some q') 8 ≡ ends false true (some q'))
    × (invalidate_queue (some q') true ≡ ends (false, []) true (some q'))
    × (dequeue (some q') ≡ ends 0 true (some (record q' { items = 1 })))
invalidate_queue_test = invalidate_queue-Holds two (5 ∷ 6 ∷ []) 8 two-Holds

abbrev calls : List Call
calls = takes ∷ adds 7 ∷ takes ∷ takes ∷ []

calls_example : taken calls two ≡ finishes (5 ∷ 6 ∷ 7 ∷ [])
calls_example = taken-taken_in_order calls two (5 ∷ 6 ∷ []) two-Holds (omega arith, tt)

-- A new queue blocks the thread that asks it for an item.
empty_test : dequeue (some create_queue) ≡ blocks
unfolding dequeue create_queue
empty_test = refl

-- Two workers, one connection, and a worker that has been let through.
abbrev one_request : Queue
one_request = record {
  front = 2;
  rear = 1;
  items = 1;
  invalid = false;
  memory = some (queue_node 5 2) ∷ some (queue_node 0 0) ∷ [];
}

abbrev accepted_one : System
accepted_one = record {
  requests = one_request;
  accepted = 5 ∷ [];
  taken = [];
  idle = 2;
  woken = 0;
  serving = 0;
}

abbrev woken_one : System
woken_one = record accepted_one { requests = record one_request { items = 0 }; idle = 1; woken = 1 }

reached_one : Reach 2 accepted_one
unfolding enqueue create_queue
reached_one = goes_on begins (accepts (start 2) 5 one_request (omega arith) refl)

reached_woken : Reach 2 woken_one
unfolding sem_wait
reached_woken =
    goes_on reached_one (wakes accepted_one 1 (record one_request { items = 0 }) refl refl)

Reach-InOrder_example : (waiting : List ℕ) × InOrder woken_one waiting × (working woken_one ≤ 2)
Reach-InOrder_example = Reach-InOrder reached_woken

Reach-takes_example :
    (connfd : ℕ) × (q : Queue) × (rest : List ℕ) × (dequeue_locked
        (record one_request { items = 0 })
      ≡ ends connfd false (some q))
    × (5 ∷ [] ≡ [] ++ connfd ∷ rest)
Reach-takes_example = Reach-takes 0 reached_woken refl

Reach-progress_example : (connfd : ℕ) × (t : System) × Reach 2 t × (t.taken ≡ [] ++ connfd ∷ [])
Reach-progress_example = Reach-progress 1 reached_one refl (λ e. ground arith)
