-- ===== src/Alloc/Free/Twice.antt =====
-- A second call of `sf_free` of hw3/src/sfmm.c on one pointer.
use mathlib.Core.Path.{subst}
use system_fundamentals_c_pr.Base.{
  ℕ, suc, ◌+◌, ◌*◌, ◌^◌, ◌<◌, ◌≡◌, ◌≢◌, inl, inr, refl, ap, ◌∙◌, sym, false, not, ◌&&◌, ◌||◌,
  get_or, ltb, ◌==◌, arith, Bool-cases, Option-cases, ==_of_ne, ==_refl,
}
use system_fundamentals_c_pr.Alloc.Memory.{
  Heap, store, allocated, block_size, set_allocated, set_block_size, set_requested_size, next_of,
  prev_of, below, list_maxima, list_of_size, frees, aborts,
}
use system_fundamentals_c_pr.Alloc.Keeps.{Keeps, store-Keeps, Keeps-trans, footer-ne}
use system_fundamentals_c_pr.Alloc.Free.Push.{push_block-Keeps}
use system_fundamentals_c_pr.Alloc.Free.{
  is_sound, coalesce, insert_block, push_block, outside, release, sf_free,
}

abbrev footer_of : Heap → ℕ → ℕ
footer_of heap header = below (header + block_size (heap.words header) * 16)

-- The stores of `insert_block` before the lists.
abbrev cleared : Heap → ℕ → Heap
cleared heap h = store (store heap (next_of h) 0) (prev_of h) 0

abbrev ended : Heap → ℕ → Heap
ended heap h =
    let footer = footer_of (cleared heap h) h in
    store (cleared heap h) footer (
      set_requested_size
        (set_block_size (set_allocated ((cleared heap h).words footer) 0)
          (block_size ((cleared heap h).words h)))
        0)

module _ (heap : Heap) (h : ℕ) where
  cleared-Keeps : Keeps heap (cleared heap h) h
  cleared-Keeps =
      Keeps-trans heap (store heap (next_of h) 0) (cleared heap h) h
        (store-Keeps heap h (next_of h) 0 (λ e. omega (arith, e)))
        (store-Keeps (store heap (next_of h) 0) h (prev_of h) 0 (λ e. omega (arith, e)))

  ended-Keeps :
      0 < block_size (heap.words h)
      → h + block_size (heap.words h) * 16 < 2 ^ 64
      → Keeps heap (ended heap h) h
  ended-Keeps l b =
      let same : (cleared heap h).words h ≡ heap.words h = cleared-Keeps.word in
      Keeps-trans heap (cleared heap h) (ended heap h) h cleared-Keeps (
        store-Keeps (cleared heap h) h (footer_of (cleared heap h) h) _
          (rw same (footer-ne h (block_size (heap.words h)) l b)))

module _ (heap : Heap) (h : ℕ) where
  insert_block-Keeps :
      (heap' : Heap)
      → 0 < block_size (heap.words h)
      → h + block_size (heap.words h) * 16 < 2 ^ 64
      → ((i : ℕ) → h ≢ prev_of (get_or heap.heads i 0))
      → insert_block heap h ≡ frees heap'
      → Keeps heap heap' h
  unfolding insert_block
  insert_block-Keeps heap' l b apart e =
      elim (Option-cases (list_of_size list_maxima (block_size ((ended heap h).words h) * 16))) [
        | inl n ↦ absurd (cc (rw (insert_block, n) at e))
        | inr (i, n) ↦
            let made : push_block (ended heap h) h i ≡ heap' = cc (rw (insert_block, n) at e) in
            Keeps-trans heap (ended heap h) heap' h (ended-Keeps heap h l b) (
              subst (λ x. Keeps (ended heap h) x h) made
                (push_block-Keeps (ended heap h) h i h (λ e'. omega (arith, e'))
                  (λ some_head. apart i)))
      ]

-- `sf_free` looks at the header first.
free_aborts :
    (heap : Heap) (ptr : ℕ) → allocated (heap.words (below ptr)) ≡ 0 → sf_free heap ptr ≡ aborts
unfolding sf_free
free_aborts heap ptr e = ground (arith, e)

-- The heap in which `sf_free` looks for free blocks behind the one that it frees.
abbrev marked : Heap → ℕ → Heap
marked heap h = store heap h (set_allocated (heap.words h) 0)

abbrev opened : Heap → ℕ → ℕ → Heap
opened heap h footer = store heap footer (set_allocated (heap.words footer) 0)

abbrev behind : Heap → ℕ → ℕ
behind heap h = h + block_size (heap.words h) * 16

-- The block behind is in use, or there is none.
abbrev IsAlone : Heap → ℕ → Type 0
IsAlone heap h =
    (ltb (behind heap h) heap.heap_end && allocated (heap.words (behind heap h)) == 0) ≡ false

coalesce_alone :
    (fuel : ℕ) (heap : Heap) (h : ℕ)
    → IsAlone heap h
    → coalesce (suc fuel) heap h (behind heap h) ≡ frees heap
unfolding coalesce
coalesce_alone fuel heap h alone = rw (coalesce, alone) refl

release_alone :
    (heap : Heap) (h footer : ℕ)
    → IsAlone (opened heap h footer) h
    → release heap h footer ≡ insert_block (opened heap h footer) h
unfolding release
release_alone heap h footer alone =
    rw (release, coalesce_alone heap.heap_end (opened heap h footer) h alone) refl

free_releases :
    (heap heap' : Heap) (ptr : ℕ)
    → sf_free heap ptr ≡ frees heap'
    → (outside heap (below ptr) ≡ false)
      × (release (marked heap (below ptr)) (below ptr) (footer_of heap (below ptr)) ≡ frees heap')
unfolding sf_free
free_releases heap heap' ptr e =
    let h = below ptr in
    let footer = footer_of heap h in
    elim (Bool-cases (outside heap h || h == 0 || allocated (heap.words h) == 0)) [
      | inl f ↦ absurd (cc (rw (sf_free, f) at e))
      | inr f ↦
          elim (Bool-cases (
            outside heap footer
            || not (is_sound ((marked heap h).words h) ((marked heap h).words footer)))) [
              | inl g ↦ absurd (cc (rw (sf_free, f, g) at e))
              | inr g ↦ (ground (arith, f), rw (sf_free, f, g) at e)
            ]
    ]

module _ (heap : Heap) (h : ℕ) (l : 0 < block_size (heap.words h))
    (b : h + block_size (heap.words h) * 16 < 2 ^ 64) where
  opened_word :
      (opened (marked heap h) h (footer_of heap h)).words h ≡ set_allocated (heap.words h) 0
  opened_word =
      rw (==_of_ne h (footer_of heap h) (footer-ne h (block_size (heap.words h)) l b), ==_refl h)
        refl

  opened_size :
      block_size ((opened (marked heap h) h (footer_of heap h)).words h) ≡ block_size (heap.words h)
  opened_size = ap block_size opened_word ∙ omega arith

-- When `sf_free` returns, it has cleared the bit of the header that says that the block is in use and left
-- the rest of the header, and `sf_free` of the same pointer then calls abort: for a block that is not
-- empty, ends below 2 ^ 64, has no free block behind it, and where no free list begins two words before it.
pub sf_free-twice :
    (heap heap' : Heap) (ptr : ℕ)
    → 0 < block_size (heap.words (below ptr))
    → below ptr + block_size (heap.words (below ptr)) * 16 < 2 ^ 64
    → IsAlone
        (opened (marked heap (below ptr)) (below ptr) (footer_of heap (below ptr)))
        (below ptr)
    → ((i : ℕ) → below ptr ≢ prev_of (get_or heap.heads i 0))
    → sf_free heap ptr ≡ frees heap'
    → (heap'.words (below ptr) ≡ set_allocated (heap.words (below ptr)) 0)
      × (sf_free heap' ptr ≡ aborts)
sf_free-twice heap heap' ptr l b alone apart e =
    let h = below ptr in
    let footer = footer_of heap h in
    let (within, r) = free_releases heap heap' ptr e in
    let mid = opened (marked heap h) h footer in
    let size : block_size (mid.words h) ≡ block_size (heap.words h) = opened_size heap h l b in
    let k : Keeps mid heap' h =
      insert_block-Keeps mid h heap' (rw size l) (rw size b) apart
        (sym (release_alone (marked heap h) h footer alone) ∙ r) in
    let word : heap'.words h ≡ set_allocated (heap.words h) 0 = k.word ∙ opened_word heap h l b in
    (word, free_aborts heap' ptr (ap allocated word ∙ omega arith))
