-- ===== src/Cream/Queue.antt =====
-- hw5/src/queue.c: the queue of requests, as one thread runs its functions. A pointer to an item is a
-- number and NULL is 0. The nodes stand in a memory of blocks: the pointer p to a node is the block p - 1,
-- `calloc` adds a block at the end and `free` empties one.
pub mod Chain
pub mod Fifo
pub mod Calls
use system_fundamentals_c_pr.Base.{
  ℕ, zero, suc, ◌+◌, ◌-◌, Bool, true, false, Option, none, some, List, [], ◌∷◌, ◌++◌, length,
  get_or, set, ◌==◌, if◌then◌else◌,
}

pub record QueueNode : Type 0 where
  pub item : ℕ
  pub next : ℕ

abbrev pub queue_node : ℕ → ℕ → QueueNode
queue_node item next = record { item = item; next = next }

abbrev pub Memory : Type 0
Memory = List (Option QueueNode)

-- `queue_t` with the memory of its nodes; `items` is the value of the semaphore.
pub record Queue : Type 0 where
  pub front : ℕ
  pub rear : ℕ
  pub items : ℕ
  pub invalid : Bool
  pub memory : Memory

-- How a call ends: with a value, whether `errno` is set to EINVAL, and the queue behind the pointer; in
-- `sem_wait`, until another thread posts; or at the use of a pointer that is NULL or was freed.
pub data Ending (A : Type 0) : Type 0 where
  ends : A → Bool → Option Queue → Ending A
  blocks : Ending A
  misuses : Ending A

-- The node behind a pointer; `none` for NULL and for a freed node.
abbrev pub deref : Memory → ℕ → Option QueueNode
deref memory zero = none
deref memory (suc p) = get_or memory p none

abbrev pub write : Memory → ℕ → Option QueueNode → Memory
write memory zero block = memory
write memory (suc p) block = set memory p block

-- The node of a `calloc`, behind the pointer `length memory + 1`.
abbrev pub alloc : Memory → Memory
alloc memory = memory ++ some (queue_node 0 0) ∷ []

-- `create_queue`, where allocation succeeds.
unfoldable pub create_queue : Queue
create_queue = record { front = 1; rear = 1; items = 0; invalid = false; memory = alloc [] }

unfoldable pub enqueue : Option Queue → ℕ → Ending Bool
enqueue none item = ends false true none
enqueue (some self) item =
    if item == 0
    then ends false true (some self)
    else if self.invalid
    then ends false true (some self)
    else elim (deref self.memory self.front) [
      | none ↦ misuses
      | some node ↦
          let new = length self.memory + 1 in
          ends true false (
            some (record self {
              front = new;
              items = self.items + 1;
              memory = alloc (write self.memory self.front (some (queue_node item new)));
            }))
    ]

-- `Sem_wait` counts down also where the queue turns out to be invalid.
unfoldable pub dequeue : Option Queue → Ending ℕ
dequeue none = ends 0 true none
dequeue (some self) =
    if self.items == 0
    then blocks
    else if self.invalid
    then ends 0 true (some (record self { items = self.items - 1 }))
    else elim (deref self.memory self.rear) [
      | none ↦ misuses
      | some node ↦ ends node.item false (
          some (record self {
            rear = node.next;
            items = self.items - 1;
            memory = write self.memory self.rear none;
          }))
    ]

-- `while(curr_node != NULL)` of `invalidate_queue`: the calls of the destructor in order, and the memory;
-- `none` is the use of a freed node, or that the fuel is short.
unfoldable pub destroy_nodes : ℕ → Memory → ℕ → Option (List ℕ × Memory)
destroy_nodes zero memory curr_node = none
destroy_nodes (suc fuel) memory zero = some ([], memory)
destroy_nodes (suc fuel) memory (suc p) = elim (deref memory (suc p)) [
  | none ↦ none
  | some node ↦ elim (destroy_nodes fuel (write memory (suc p) none) node.next) [
    | none ↦ none
    | some (items, rest) ↦ some (node.item ∷ items, rest)
  ]
]

-- The value returned with the calls of the destructor. The rounds are one for each block, and a last one.
unfoldable pub invalidate_queue : Option Queue → Bool → Ending (Bool × List ℕ)
invalidate_queue none has_destroy = ends (false, []) true none
invalidate_queue (some self) has_destroy =
    if has_destroy
    then (if self.invalid
        then ends (false, []) true (some self)
        else elim (destroy_nodes (length self.memory + 1) self.memory self.rear) [
          | none ↦ misuses
          | some (items, memory) ↦
              ends (true, items) false (some (record self { invalid = true; memory = memory }))
        ])
    else ends (false, []) true (some self)
