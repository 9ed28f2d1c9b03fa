-- ===== src/Alloc/MallocTests.antt =====
-- hw3: the theorems of `sf_malloc` at a concrete heap, and calls that follow one another.
use system_fundamentals_c_pr.Base.{
  ℕ, ◌+◌, ◌*◌, ◌^◌, ◌≤◌, ◌<◌, ◌≡◌, ◌≢◌, inl, inr, refl, ◌==◌, if◌then◌else◌, List, [], ◌∷◌,
  replicate, get_or, arith, get_or-replicate, Bool-cases,
}
use system_fundamentals_c_pr.Alloc.Memory.{Heap, aborts, block_size, store}
use system_fundamentals_c_pr.Alloc.Free.{sf_free}
use system_fundamentals_c_pr.Alloc.Malloc.{
  no_error, Given, gives, past_lists, runs_on, take_out, search_lists, init_heap,
}
use system_fundamentals_c_pr.Alloc.Malloc.Inside.{IsApart}
use system_fundamentals_c_pr.Alloc.Malloc.Carve.{CanGive, IsGiven}
use system_fundamentals_c_pr.Alloc.Malloc.Found.{skips, passes, finds, here}
use system_fundamentals_c_pr.Alloc.Pages.{sf_malloc, add_page}
use system_fundamentals_c_pr.Alloc.Given.{IsServed, sf_malloc-IsGiven, sf_free-of_malloc}
use system_fundamentals_c_pr.Alloc.Realloc.{
  Resized, resizes, resize_aborts, resize_past_lists, resize_runs_on, sf_realloc, copy_bytes,
}

-- The first page as one free block.
abbrev page : Heap
page = record {
  words = λ a. if a == 4096 then 4096 else if a == 8184 then 4096 * 2 ^ 32 + 4096 else 0;
  heads = 0 ∷ 0 ∷ 0 ∷ 4096 ∷ [];
  heap_start = 4096;
  heap_end = 8192;
}

-- `sf_sbrk`, whose new pages are as they are.
abbrev sbrk : Heap → Heap × ℕ
sbrk heap = (record heap { heap_end = heap.heap_end + 4096 }, heap.heap_end)

page-contents : (a : ℕ) → 4120 ≤ a → a < 8192 → IsApart 4096 256 (page.words a)
page-contents a low high = elim (Bool-cases (a == 8184)) [
  | inl e ↦ inr (inr (ground (arith, e, low)))
  | inr e ↦ inl (ground (arith, e, low))
]

page-heads : (j : ℕ) → IsApart 4096 256 (get_or (replicate 4 0) j 0)
page-heads j = inl (get_or-replicate {A = ℕ} 4 j 0)

page-CanGive : CanGive page 3 4096 256
unfolding take_out
page-CanGive = record {
  whole = refl;
  small = omega arith;
  fits_memory = omega arith;
  next_apart = inl refl;
  prev_apart = inl refl;
  contents = page-contents;
  no_head = page-heads;
}

page-IsServed : IsServed page 100 3 4096 256
page-IsServed = record {
  some_size = omega arith;
  size_small = omega arith;
  some_page = omega arith;
  block = λ e. omega (arith, e);
  leads = skips 128 (512 ∷ 2048 ∷ 65535 ∷ []) 0 3 4096 refl (
      passes 512 (2048 ∷ 65535 ∷ []) 1 3 4096 0 refl (here 0) (omega arith) (
        passes 2048 (65535 ∷ []) 2 3 4096 0 refl (here 0) (omega arith)
          (finds 65535 [] 3 4096 0 refl (here 4096) (omega arith))));
  fitting = refl;
  can_give = page-CanGive;
}

malloc_example :
    (heap' : Heap) × (sf_malloc 1 sbrk page 100 ≡ gives 4104 no_error heap')
    × IsGiven page heap' 100 4096 256
malloc_example = sf_malloc-IsGiven 0 sbrk page 100 3 4096 256 page-IsServed

abbrev heap_of : Given → Heap
heap_of (gives p e h) = h
heap_of past_lists = page
heap_of runs_on = page

abbrev given_heap : Heap
given_heap = heap_of (sf_malloc 1 sbrk page 100)

malloc_test : sf_malloc 1 sbrk page 100 ≡ gives 4104 no_error given_heap
unfolding sf_malloc init_heap search_lists add_page
malloc_test = refl

given_freed_example : sf_free given_heap 4104 ≢ aborts
given_freed_example =
    sf_free-of_malloc 0 sbrk page given_heap 100 3 4096 256 4104 page-IsServed (omega arith)
      (omega arith) malloc_test

-- No heap yet.
abbrev fresh : Heap
fresh = record { words = λ a. 0; heads = replicate 4 0; heap_start = 4096; heap_end = 4096 }

-- The pointer, and the heads of the lists.
abbrev shown : Given → List ℕ
shown (gives p e h) = p ∷ h.heads
shown past_lists = []
shown runs_on = []

-- Four pages take five new ones, of which the first is lost: a free block that is in no list.
lost_page_test : shown (sf_malloc 7 sbrk fresh 16384) ≡ 8200 ∷ 0 ∷ 0 ∷ 0 ∷ 24592 ∷ []
unfolding sf_malloc init_heap search_lists add_page
lost_page_test = refl

-- A block was in use, with 5000 and 6000 in the bytes behind 128, and is free again. Then a
-- request for 100 bytes writes to the addresses 5000 and 6000, which the user chose.
abbrev stale : Heap
stale = store (store page 4232 5000) 4240 6000

stale_test :
    ((heap_of (sf_malloc 1 sbrk stale 100)).words 6008 ≡ 5000)
    × ((heap_of (sf_malloc 1 sbrk stale 100)).words 4232 ≡ 0)
unfolding sf_malloc init_heap search_lists add_page
stale_test = (refl, refl)

abbrev resized_heap : Resized → Heap
resized_heap (resizes p e h) = h
resized_heap resize_aborts = fresh
resized_heap resize_past_lists = fresh
resized_heap resize_runs_on = fresh

abbrev resized_ptr : Resized → ℕ
resized_ptr (resizes p e h) = p
resized_ptr resize_aborts = 1
resized_ptr resize_past_lists = 2
resized_ptr resize_runs_on = 3

-- 16 bytes whose first word is 77, with the header 33 in front.
abbrev small_block : Heap
small_block = store (heap_of (sf_malloc 1 sbrk page 16)) 4104 77

abbrev larger : Resized
larger = sf_realloc 1 sbrk small_block 4104 100

-- The bytes that `sf_realloc` copies begin with the header.
shifted_test :
    (resized_ptr larger ≡ 4136)
    × ((resized_heap larger).words 4136 ≡ 33)
    × ((resized_heap larger).words 4144 ≡ 77)
unfolding sf_realloc copy_bytes sf_malloc init_heap search_lists add_page
shifted_test = (refl, refl, refl)

-- A block of 112 bytes is made smaller in place, and larger again by the block behind it.
abbrev smaller : Resized
smaller = sf_realloc 1 sbrk given_heap 4104 20

smaller_test :
    (resized_ptr smaller ≡ 4104)
    × (block_size ((resized_heap smaller).words 4096) ≡ 3)
    × ((resized_heap smaller).heads ≡ 0 ∷ 0 ∷ 0 ∷ 4144 ∷ [])
unfolding sf_realloc sf_malloc init_heap search_lists add_page
smaller_test = (refl, refl, refl)
