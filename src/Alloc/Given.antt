-- ===== src/Alloc/Given.antt =====
-- `sf_malloc` of hw3/src/sfmm.c where a free list holds a block that is large enough, and `sf_free` of
-- what it gives.
use mathlib.Core.Path.{subst}
use system_fundamentals_c_pr.Base.{
  ℕ, zero, suc, ◌+◌, ◌*◌, ◌-◌, ◌/◌, ◌%◌, ◌^◌, ◌≤◌, ◌<◌, ◌≡◌, ◌≢◌, ◌⊎◌, inl, inr, refl, ap, ◌∙◌, sym,
  true, false, not, ◌&&◌, ◌||◌, ◌==◌, ltb, arith, Bool-cases, ==_of_ne, ==_refl, Option-cases,
}
use system_fundamentals_c_pr.Alloc.Memory.{
  Heap, store, allocated, padded, block_size, requested_size, set_allocated, set_block_size,
  set_requested_size, next_of, prev_of, below, page_size, list_maxima, list_of_size, Freed, frees,
  aborts, outside_lists, endless,
}
use system_fundamentals_c_pr.Alloc.Keeps.{store-Keeps}
use system_fundamentals_c_pr.Alloc.Free.{
  is_sound, coalesce, unlink_before, unlink_behind, grow, insert_block, outside, release, sf_free,
}
use system_fundamentals_c_pr.Alloc.Malloc.{
  no_error, gives, init_heap, Search, start_search, fits, search_lists, searched,
}
use system_fundamentals_c_pr.Alloc.Malloc.Sizes.{start_search-IsStart, Suits-is_sound}
use system_fundamentals_c_pr.Alloc.Malloc.Carve.{CanGive, IsGiven, searching, carve-IsGiven}
use system_fundamentals_c_pr.Alloc.Malloc.Found.{Leads, search_lists-finds}
use system_fundamentals_c_pr.Alloc.Pages.{sf_malloc}

-- A request of `size` bytes for which the search of `sf_malloc` comes to the block `c`, of n * 16 bytes in the
-- list i. The search passes over the lists whose maximum is not larger than the size of a block for it.
pub record IsServed (heap : Heap) (size i c n : ℕ) : Type 0 where
  pub some_size : 0 < size
  pub size_small : size ≤ page_size * 4
  pub some_page : page_size ≤ heap.heap_end - heap.heap_start
  pub block : c ≢ 0
  pub leads : Leads heap (start_search heap size).required_size list_maxima 0 i c
  pub fitting : fits heap c (start_search heap size).required_size ≡ true
  pub can_give : CanGive heap i c n

start_searching :
    (heap : Heap) (size : ℕ)
    → start_search heap size
      ≡ searching heap (start_search heap size).required_size (start_search heap size).padding
start_searching heap size = elim (Bool-cases ((size + 16) % 16 == 0)) [
  | inl e ↦ rw e refl
  | inr e ↦ rw e refl
]

ready_heap :
    (sf_sbrk : Heap → Heap × ℕ) (heap : Heap)
    → page_size ≤ heap.heap_end - heap.heap_start
    → init_heap sf_sbrk heap ≡ heap
unfolding init_heap
ready_heap sf_sbrk heap l = ground (arith, l)

legal_size :
    (size : ℕ) → 0 < size → size ≤ page_size * 4 → (size == 0 || ltb (page_size * 4) size) ≡ false
legal_size size l u = ground (arith, l, u)

malloc_found :
    (fuel : ℕ) (sf_sbrk : Heap → Heap × ℕ) (heap : Heap) (size : ℕ) (s : Search)
    → (size == 0 || ltb (page_size * 4) size) ≡ false
    → init_heap sf_sbrk heap ≡ heap
    → search_lists (heap.heap_end + 4) list_maxima 0 size (start_search heap size) ≡ searched s
    → s.allocated_block ≢ 0
    → sf_malloc (suc fuel) sf_sbrk heap size ≡ gives s.allocated_block no_error s.heap
unfolding sf_malloc
malloc_found fuel sf_sbrk heap size s legal ready finding found =
    rw (sf_malloc, legal, ready, finding, ==_of_ne s.allocated_block 0 found) refl

-- For a size from 1 to four pages, where there is a page already, and the links of the block, and its old
-- contents as far as they are taken for links, do not point into it: `sf_malloc` gives the first block that
-- is free and large enough in the lists whose maximum is larger than the size of a block for the request
-- (not in one whose maximum is that size), without `sf_sbrk` and with `sf_errno` 0; its header and its
-- footer, 16 bytes more than requested or up to 47, say that it is in use, and how many bytes were requested.
pub sf_malloc-IsGiven :
    (fuel : ℕ) (sf_sbrk : Heap → Heap × ℕ) (heap : Heap) (size i c n : ℕ)
    → IsServed heap size i c n
    → (heap' : Heap) × (sf_malloc (suc fuel) sf_sbrk heap size ≡ gives (c + 8) no_error heap')
      × IsGiven heap heap' size c n
unfolding sf_malloc
sf_malloc-IsGiven fuel sf_sbrk heap size i c n served =
    let required = (start_search heap size).required_size in
    let padding = (start_search heap size).padding in
    let start = start_search-IsStart heap size in
    let fit : required / 16 ≤ n = ground (arith, served.fitting, served.can_give.whole) in
    let room : 2 ≤ n = omega (arith, fit, start.enough, start.whole, served.some_size) in
    let (s, given, block, carved) =
      carve-IsGiven heap i c n size required padding served.can_give room start fit served.some_size
        (omega (arith, served.size_small)) in
    let found : s.allocated_block ≢ 0 = omega (arith, block) in
    let finding =
      ap (search_lists (heap.heap_end + 4) list_maxima 0 size) (start_searching heap size)
      ∙ search_lists-finds heap required padding size i c s served.block served.fitting carved
          given.header_allocated given.unlinked found list_maxima 0 served.leads in
    (
      s.heap,
      malloc_found fuel sf_sbrk heap size s (legal_size size served.some_size served.size_small)
            (ready_heap sf_sbrk heap served.some_page) finding found
          ∙ ap (λ p. gives p no_error s.heap) block,
      given,
    )

coalesce-returns :
    (fuel : ℕ) (heap : Heap) (header block : ℕ) → coalesce fuel heap header block ≢ aborts
unfolding coalesce
coalesce-returns zero heap header block e = absurd (cc e)
coalesce-returns (suc fuel) heap header block e =
    elim (Bool-cases (ltb block heap.heap_end && allocated (heap.words block) == 0)) [
      | inr f ↦ absurd (cc (rw (coalesce, f) at e))
      | inl f ↦ elim (Option-cases (unlink_before (grow heap header block) block)) [
        | inl g ↦ absurd (cc (rw (coalesce, f, g) at e))
        | inr (h, g) ↦
            coalesce-returns fuel (unlink_behind h block) header _ (rw (coalesce, f, g) at e)
      ]
    ]

abbrev insert_ended : Heap → ℕ → Heap
insert_ended heap header =
    let cleared = store (store heap (next_of header) 0) (prev_of header) 0 in
    let size = block_size (cleared.words header) in
    let footer = below (header + size * 16) in
    store cleared footer
      (set_requested_size (set_block_size (set_allocated (cleared.words footer) 0) size) 0)

insert_block-returns : (heap : Heap) (header : ℕ) → insert_block heap header ≢ aborts
unfolding insert_block
insert_block-returns heap header e =
    elim (Option-cases
      (list_of_size list_maxima (block_size ((insert_ended heap header).words header) * 16))) [
        | inl f ↦ absurd (cc (rw (insert_block, f) at e))
        | inr (i, f) ↦ absurd (cc (rw (insert_block, f) at e))
      ]

Freed-cases :
    (f : Freed)
    → ((h : Heap) × (f ≡ frees h)) ⊎ ((f ≡ aborts) ⊎ ((f ≡ outside_lists) ⊎ (f ≡ endless)))
Freed-cases (frees h) = inl (h, refl)
Freed-cases aborts = inr (inl refl)
Freed-cases outside_lists = inr (inr (inl refl))
Freed-cases endless = inr (inr (inr refl))

release-returns : (heap : Heap) (header footer : ℕ) → release heap header footer ≢ aborts
unfolding release
release-returns heap header footer e =
    let open_heap = store heap footer (set_allocated (heap.words footer) 0) in
    let loop =
      coalesce (suc heap.heap_end) open_heap header
        (header + block_size (open_heap.words header) * 16) in
    elim (Freed-cases loop) [
      | inl (h, f) ↦ insert_block-returns h header (rw (release, f) at e)
      | inr (inl f) ↦ coalesce-returns (suc heap.heap_end) open_heap header _ f
      | inr (inr (inl f)) ↦ absurd (cc (rw (release, f) at e))
      | inr (inr (inr f)) ↦ absurd (cc (rw (release, f) at e))
    ]

free_of_tests :
    (heap : Heap) (ptr : ℕ)
    → (let header = below ptr in
        let footer = below (header + block_size (heap.words header) * 16) in
        let marked = store heap header (set_allocated (heap.words header) 0) in
        ((outside heap header || header == 0 || allocated (heap.words header) == 0) ≡ false)
        × ((outside heap footer || not (is_sound (marked.words header) (marked.words footer)))
            ≡ false))
    → sf_free heap ptr ≢ aborts
unfolding sf_free
free_of_tests heap ptr (t, u) e =
    let header = below ptr in
    let footer = below (header + block_size (heap.words header) * 16) in
    release-returns (store heap header (set_allocated (heap.words header) 0)) header footer
      (rw (sf_free, t, u) at e)

module _ (heap heap' : Heap) (size c n : ℕ) (given : IsGiven heap heap' size c n) (small : n < 4096)
    (some_size : 0 < size) (block : c ≢ 0) (low : heap.heap_start ≤ c)
    (high : c + n * 16 ≤ heap.heap_end) (fits_memory : c + n * 16 < 2 ^ 64) where
  k : ℕ
  k = given.count

  k_large : 2 ≤ k
  unfolding k
  k_large = omega (arith, given.suits.enough, some_size)

  k_inside : k ≤ n
  unfolding k
  k_inside = given.suits.inside

  own_header : below (c + 8) ≡ c
  own_header = omega (arith, k_inside, k_large, fits_memory)

  own_footer : below (c + k * 16) + 8 ≡ c + k * 16
  own_footer = omega (arith, k_inside, k_large, fits_memory)

  marked : Heap
  marked = store heap' c (set_allocated (heap'.words c) 0)

  marked_sound : is_sound (marked.words c) (marked.words (below (c + k * 16))) ≡ true
  unfolding marked k
  marked_sound =
      let header : marked.words c ≡ set_allocated (heap'.words c) 0 = rw (==_refl c) refl in
      let footer =
        (store-Keeps heap' (below (c + k * 16)) c (set_allocated (heap'.words c) 0)
          (λ e. omega (arith, e, own_footer, k_large))).word in
      Suits-is_sound size n k given.padding (marked.words c) (marked.words (below (c + k * 16)))
        given.suits small (ap block_size header ∙ omega (arith, given.header_size))
        (ap padded header ∙ omega (arith, given.header_padded))
        (ap padded footer ∙ given.footer_padded) (ap allocated footer ∙ given.footer_allocated)
        (ap requested_size footer ∙ given.footer_requested)

  header-inside : (outside heap' c || c == 0 || allocated (heap'.words c) == 0) ≡ false
  header-inside = ground (arith, given.lower, given.upper, given.header_allocated, low, high, block)

  footer-inside :
      (outside heap' (below (c + k * 16))
        || not (is_sound (marked.words c) (marked.words (below (c + k * 16)))))
      ≡ false
  footer-inside =
      let l : heap'.heap_start ≤ below (c + k * 16) =
        omega (arith, given.lower, own_footer, k_large, low) in
      let u : below (c + k * 16) ≤ heap'.heap_end =
        omega (arith, given.upper, own_footer, k_inside, high) in
      ground (arith, l, u, marked_sound)

  given_freed : sf_free heap' (c + 8) ≢ aborts
  unfolding marked k
  given_freed =
      free_of_tests heap' (c + 8)
        (rw own_header header-inside, rw (own_header, given.header_size) footer-inside)

-- What `sf_malloc` gives passes the tests of `sf_free`: where it serves a request, of a size from 1 to four
-- pages, from a block that lies in the heap, and the links of the block, and its old contents as far as they
-- are taken for links, do not point into it, `sf_free` of the pointer that it returns does not call abort.
pub sf_free-of_malloc :
    (fuel : ℕ) (sf_sbrk : Heap → Heap × ℕ) (heap heap' : Heap) (size i c n ptr : ℕ)
    → IsServed heap size i c n
    → heap.heap_start ≤ c
    → c + n * 16 ≤ heap.heap_end
    → sf_malloc (suc fuel) sf_sbrk heap size ≡ gives ptr no_error heap'
    → sf_free heap' ptr ≢ aborts
sf_free-of_malloc fuel sf_sbrk heap heap' size i c n ptr served low high e =
    let (h, gave, given) = sf_malloc-IsGiven fuel sf_sbrk heap size i c n served in
    let same : gives (c + 8) no_error h ≡ gives ptr no_error heap' = sym gave ∙ e in
    let same_ptr : c + 8 ≡ ptr = cc same in
    let same_heap : h ≡ heap' = cc same in
    let can = served.can_give in
    subst (λ x. sf_free x ptr ≢ aborts) same_heap
      (subst (λ x. sf_free h x ≢ aborts) same_ptr
        (given_freed heap h size c n given can.small served.some_size served.block low high
          can.fits_memory))
