-- ===== src/Alloc/Free/Push.antt =====
-- `push_block` of hw3/src/sfmm.c leaves the words that are no links.
use system_fundamentals_c_pr.Base.{ℕ, ◌≢◌, inl, inr, refl, ◌∙◌, get_or, ◌==◌, arith, Bool-cases}
use system_fundamentals_c_pr.Alloc.Memory.{Heap, store, next_of, prev_of}
use system_fundamentals_c_pr.Alloc.Keeps.{Keeps, store-Keeps}
use system_fundamentals_c_pr.Alloc.Free.{push_block}

pub push_block-Keeps :
    (heap : Heap) (block i a : ℕ)
    → a ≢ next_of block
    → (get_or heap.heads i 0 ≢ 0 → a ≢ prev_of (get_or heap.heads i 0))
    → Keeps heap (push_block heap block i) a
unfolding push_block
push_block-Keeps heap block i a ne apart =
    let head = get_or heap.heads i 0 in
    let k = store-Keeps heap a (next_of block) head ne in
    elim (Bool-cases (head == 0)) [
      | inl e ↦ rw (push_block, e) (record { word = k.word; lower = refl; upper = refl })
      | inr e ↦
          let l =
            store-Keeps (store heap (next_of block) head) a (prev_of head) block
              (apart (ground (arith, e))) in
          rw (push_block, e) (record { word = l.word ∙ k.word; lower = refl; upper = refl })
    ]
