-- ===== src/Cream/Queue/Chain.antt =====
-- The linked nodes of hw5/src/queue.c, and what writing, freeing and allocating does to them.
use system_fundamentals_c_pr.Base.{
  ℕ, zero, suc, ◌+◌, ◌≤◌, ◌<◌, ◌≡◌, ◌≢◌, refl, ap, ◌∙◌, sym, Option, none, some, List, [], ◌∷◌,
  ◌++◌, length, length-set, get_or, get_or-set_self, get_or-set_ne, get_or-append_old,
  get_or-append_new, set, arith, eq_of_some,
}
use system_fundamentals_c_pr.Cream.Queue.{QueueNode, queue_node, Memory, deref, write, alloc}

-- The nodes from a pointer to the last one, which is as `calloc` leaves it, hold these items in order.
pub data Chain (memory : Memory) (last : ℕ) : ℕ → List ℕ → Type 0 where
  end : deref memory last ≡ some (queue_node 0 0) → Chain memory last last []
  link :
      (p next item : ℕ) (items : List ℕ)
      → deref memory p ≡ some (queue_node item next)
      → Chain memory last next items
      → Chain memory last p (item ∷ items)

within :
    (memory : Memory) (i : ℕ) (n : QueueNode) → get_or memory i none ≡ some n → i < length memory
within [] i n e = absurd (cc e)
within (x ∷ memory) zero n e = omega arith
within (x ∷ memory) (suc i) n e = omega (arith, within memory i n e)

pub deref-write_self :
    (memory : Memory) (p : ℕ) (n : QueueNode) (block : Option QueueNode)
    → deref memory p ≡ some n
    → deref (write memory p block) p ≡ block
deref-write_self memory zero n block e = absurd (cc e)
deref-write_self memory (suc p) n block e =
    get_or-set_self memory p block none (within memory p n e)

pub deref-write_ne :
    (memory : Memory) (p q : ℕ) (block : Option QueueNode)
    → p ≢ q
    → deref (write memory p block) q ≡ deref memory q
deref-write_ne memory zero q block ne = refl
deref-write_ne memory (suc p) zero block ne = refl
deref-write_ne memory (suc p) (suc q) block ne =
    get_or-set_ne memory p q block none (λ e. ne (ap suc e))

pub deref-alloc_old :
    (memory : Memory) (p : ℕ) (n : QueueNode)
    → deref memory p ≡ some n
    → deref (alloc memory) p ≡ some n
deref-alloc_old memory zero n e = absurd (cc e)
deref-alloc_old memory (suc p) n e = get_or-append_old memory _ p none (within memory p n e) ∙ e

pub deref-alloc_new :
    (memory : Memory) → deref (alloc memory) (length memory + 1) ≡ some (queue_node 0 0)
deref-alloc_new memory =
    let e : length memory + 1 ≡ suc (length memory) = omega arith in
    rw e (get_or-append_new memory [] (some (queue_node 0 0)) none)

pub length-write :
    (memory : Memory) (p : ℕ) (block : Option QueueNode)
    → length (write memory p block) ≡ length memory
length-write memory zero block = refl
length-write memory (suc p) block = length-set memory p block

pub Chain-last :
    (memory : Memory) (last p : ℕ) (items : List ℕ)
    → Chain memory last p items
    → deref memory last ≡ some (queue_node 0 0)
Chain-last memory last _ _ (end e) = e
Chain-last memory last _ _ (link p next item rest e chain) = Chain-last memory last next rest chain

no-Chain :
    (memory : Memory) (last p : ℕ) (items : List ℕ)
    → deref memory p ≡ none
    → Chain memory last p items
    → ⊥
no-Chain memory last _ _ e (end h) = absurd (cc (e, h))
no-Chain memory last _ _ e (link p next item rest h chain) = absurd (cc (e, h))

next_of_node : (a b c d : ℕ) → some (queue_node a b) ≡ some (queue_node c d) → b ≡ d
next_of_node a b c d e = ap (λ (n : QueueNode). n.next) (eq_of_some e)

-- The last node has no successor, and so is no link of the chain.
link-ne :
    (memory : Memory) (last p next item : ℕ) (items : List ℕ)
    → deref memory p ≡ some (queue_node item next)
    → Chain memory last next items
    → last ≢ p
link-ne memory last p next item items e chain eq =
    let l = Chain-last memory last next items chain in
    let z : next ≡ 0 = next_of_node item next 0 0 (sym e ∙ rw eq at l) in
    no-Chain memory last next items (rw z refl) chain

-- `enqueue` turns the last node into a link to a new one.
pub extended :
    (memory : Memory) (last p item : ℕ) (items : List ℕ)
    → Chain memory last p items
    → Chain
        (alloc (write memory last (some (queue_node item (length memory + 1)))))
        (length memory + 1)
        p
        (items ++ item ∷ [])
extended memory last _ item _ (end e) =
    let new = some (queue_node item (length memory + 1)) in
    let written = write memory last new in
    link last (length memory + 1) item []
      (deref-alloc_old written last _ (deref-write_self memory last _ new e))
      (end (rw (length-write memory last new) at (deref-alloc_new written)))
extended memory last _ item _ (link p next first rest e chain) =
    link p next first (rest ++ item ∷ [])
      (deref-alloc_old _ p _
        (deref-write_ne memory last p _ (link-ne memory last p next first rest e chain) ∙ e))
      (extended memory last next item rest chain)

item_of_node : (a b c d : ℕ) → some (queue_node a b) ≡ some (queue_node c d) → a ≡ c
item_of_node a b c d e = ap (λ (n : QueueNode). n.item) (eq_of_some e)

-- The nodes determine the items.
Chain-length :
    (memory : Memory) (last p q : ℕ) (xs ys : List ℕ)
    → p ≡ q
    → Chain memory last p xs
    → Chain memory last q ys
    → length xs ≡ length ys
Chain-length memory last _ _ _ _ eq (end e) (end h) = refl
Chain-length memory last _ _ _ _ eq (end e) (link q next item rest h chain) =
    absurd (link-ne memory last q next item rest h chain eq)
Chain-length memory last _ _ _ _ eq (link p next item rest h chain) (end e) =
    absurd (link-ne memory last p next item rest h chain (sym eq))
Chain-length memory last _ _ _ _ eq (link p next item xs h c) (link q next2 item2 ys h2 d) =
    ap suc (
      Chain-length memory last next next2 xs ys
        (next_of_node item next item2 next2 (sym h ∙ rw eq h2)) c d)

apart :
    (memory : Memory) (last p q : ℕ) (xs ys : List ℕ)
    → Chain memory last p xs
    → Chain memory last q ys
    → length xs < length ys
    → q ≢ p
apart memory last p q xs ys c d l e =
    let h = Chain-length memory last q p ys xs e d c in absurd (omega (arith, h))

-- A chain does not come back to a node that a longer one starts with, and stays when that is freed.
pub freed :
    (memory : Memory) (last p q : ℕ) (xs ys : List ℕ)
    → Chain memory last p xs
    → Chain memory last q ys
    → length xs < length ys
    → Chain (write memory q none) last p xs
freed memory last _ q _ ys (end e) d l =
    end (deref-write_ne memory q last none (apart memory last _ q [] ys (end e) d l) ∙ e)
freed memory last _ q _ ys (link p next item xs e c) d l =
    link p next item xs
      (deref-write_ne memory q p none
          (apart memory last p q (item ∷ xs) ys (link p next item xs e c) d l)
        ∙ e)
      (freed memory last next q xs ys c d (omega arith))

-- The nodes that are not freed.
abbrev pub live : Memory → ℕ
live [] = 0
live (none ∷ memory) = live memory
live (some n ∷ memory) = suc (live memory)

pub live-length : (memory : Memory) → live memory ≤ length memory
live-length [] = omega arith
live-length (none ∷ memory) = omega (arith, live-length memory)
live-length (some n ∷ memory) = omega (arith, live-length memory)

live-set :
    (memory : Memory) (i : ℕ) (n : QueueNode)
    → get_or memory i none ≡ some n
    → live memory ≡ suc (live (set memory i none))
live-set [] i n e = absurd (cc e)
live-set (none ∷ memory) zero n e = absurd (cc e)
live-set (some m ∷ memory) zero n e = refl
live-set (none ∷ memory) (suc i) n e = live-set memory i n e
live-set (some m ∷ memory) (suc i) n e = ap suc (live-set memory i n e)

pub live-write :
    (memory : Memory) (p : ℕ) (n : QueueNode)
    → deref memory p ≡ some n
    → live memory ≡ suc (live (write memory p none))
live-write memory zero n e = absurd (cc e)
live-write memory (suc p) n e = live-set memory p n e
