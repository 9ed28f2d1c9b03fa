-- ===== src/Alloc/Malloc.antt =====
-- `sf_malloc` of hw3/src/sfmm.c. `sf_sbrk` is the library's: it gives the heap that it leaves and the
-- pointer that it returns.
pub mod Inside
pub mod Links
pub mod Rest
pub mod Close
pub mod Sizes
pub mod Carve
pub mod Found
use system_fundamentals_c_pr.Base.{
  ℕ, zero, suc, ◌+◌, ◌-◌, ◌*◌, ◌/◌, ◌%◌, ◌^◌, Bool, true, false, not, ◌&&◌, ◌||◌, Option, none,
  some, List, [], ◌∷◌, get_or, set, ltb, leb, ◌==◌, if◌then◌else◌,
}
use system_fundamentals_c_pr.Alloc.Memory.{
  Heap, store, allocated, padded, block_size, requested_size, set_allocated, set_padded,
  set_two_zeroes, set_block_size, set_requested_size, next_of, prev_of, below, back, page_size,
  set_head, list_minima, list_maxima, list_of_size,
}
use system_fundamentals_c_pr.Alloc.Free.{unlink_before, unlink_behind, grow, push_block}

-- `sf_errno`
pub data Errno : Type 0 where
  no_error : Errno
  invalid : Errno
  no_memory : Errno

-- How a call ends: with a pointer and `sf_errno`, behind `seg_free_list`, or never.
pub data Given : Type 0 where
  gives : ℕ → Errno → Heap → Given
  past_lists : Given
  runs_on : Given

-- `for(int i = 3; i >= 0; i--) if(seg_free_list[i].min < PAGE_SZ)`: the index where it stops.
unfoldable pub last_below : List ℕ → ℕ → Option ℕ
last_below [] size = none
last_below (min ∷ minima) size = elim (last_below minima size) [
  | some i ↦ some (i + 1)
  | none ↦ if ltb min size then some 0 else none
]

-- The first page as one free block, at the head of a list.
unfoldable pub first_block : Heap → ℕ → Heap
first_block heap i =
    let block = heap.heap_start in
    let header =
      set_block_size (set_two_zeroes (set_padded (set_allocated (heap.words block) 0) 0) 0)
        (page_size / 16) in
    let linked = store (store (store heap block header) (next_of block) 0) (prev_of block) 0 in
    let footer = below (block + block_size (linked.words block) * 16) in
    let ended =
      set_requested_size
        (set_block_size (set_two_zeroes (set_padded (set_allocated (linked.words footer) 0) 0) 0)
          (page_size / 16))
        page_size in
    set_head (store linked footer ended) i block

unfoldable pub init_heap : (Heap → Heap × ℕ) → Heap → Heap
unfolding last_below first_block
init_heap sf_sbrk heap =
    if ltb (heap.heap_end - heap.heap_start) page_size
    then elim (last_below list_minima page_size) [
      | none ↦ (sf_sbrk heap).0
      | some i ↦ first_block (sf_sbrk heap).0 i
    ]
    else heap

-- The variables of the search.
pub record Search : Type 0 where
  pub heap : Heap
  pub allocated_block : ℕ
  pub required_size : ℕ
  pub padding : ℕ

-- `size + 16`, up to the next multiple of 16.
abbrev pub start_search : Heap → ℕ → Search
start_search heap size =
    let required = size + 16 in
    if required % 16 == 0
    then record { heap = heap; allocated_block = 0; required_size = required; padding = 0 }
    else record {
      heap = heap;
      allocated_block = 0;
      required_size = required + (16 - required % 16);
      padding = 1;
    }

-- `if(block->prev != NULL) … else …` with the list known.
unfoldable pub take_front : Heap → ℕ → ℕ → Heap
take_front heap i block =
    let prev = heap.words (prev_of block) in
    let next = heap.words (next_of block) in
    if not (prev == 0) then store heap (next_of prev) next else set_head heap i next

-- `if(block->next != NULL) { block->next->prev = block->prev; block->next = NULL; }`
unfoldable pub take_back : Heap → ℕ → Heap
take_back heap block =
    let next = heap.words (next_of block) in
    if not (next == 0)
    then store (store heap (prev_of next) (heap.words (prev_of block))) (next_of block) 0
    else heap

-- The block leaves its list.
unfoldable pub take_out : Heap → ℕ → ℕ → Heap
unfolding take_front take_back
take_out heap i block = store (take_back (take_front heap i block) block) (prev_of block) 0

-- `allocated = 1`, and the word of the old footer is 0.
unfoldable pub open_block : Heap → ℕ → Heap
open_block heap block =
    let marked = store heap block (set_allocated (heap.words block) 1) in
    store marked (below (block + block_size (marked.words block) * 16)) 0

-- A block of `whole` times 16 bytes that would leave a rest of 16 bytes is given away as it is.
unfoldable pub chosen_size : ℕ → ℕ → ℕ
chosen_size whole required = if whole == required / 16 + 1 then required + 16 else required

unfoldable pub chosen_padding : ℕ → ℕ → ℕ → ℕ
chosen_padding whole required padding = if whole == required / 16 + 1 then 1 else padding

unfoldable pub size_of_rest : ℕ → ℕ → ℕ
size_of_rest whole required = if ltb (required / 16) whole then whole - required / 16 else 0

-- The header and the footer of the block that is given away.
unfoldable pub close_block : Heap → ℕ → ℕ → ℕ → ℕ → Heap
close_block heap block required padding size =
    let headed =
      store heap block (set_padded (set_block_size (heap.words block) (required / 16)) padding) in
    let footer = below (block + block_size (headed.words block) * 16) in
    store headed footer (
      set_requested_size
        (set_block_size (set_padded (set_allocated (headed.words footer) 1) padding)
          (block_size (headed.words block)))
        size)

-- What the code does with the words that it takes for the links of the rest.
unfoldable pub rest_front : Heap → ℕ → ℕ → Heap
rest_front heap i second =
    let prev = heap.words (prev_of second) in
    let next = heap.words (next_of second) in
    if not (prev == 0)
    then store (store heap (next_of prev) next) (prev_of second) 0
    else set_head heap i next

-- The header and the footer of the rest.
unfoldable pub end_rest : Heap → ℕ → ℕ → Heap
end_rest heap second size =
    let headed = store heap second (set_block_size (set_allocated (heap.words second) 0) size) in
    let footer = below (second + block_size (headed.words second) * 16) in
    store headed footer (set_block_size (set_allocated (headed.words footer) 0) size)

-- The rest of the block becomes a free block; `none` is an index behind the lists.
unfoldable pub place_rest : Heap → ℕ → ℕ → ℕ → Option Heap
unfolding end_rest rest_front take_back push_block list_of_size
place_rest heap i second second_size =
    let unlinked = take_back (rest_front (end_rest heap second second_size) i second) second in
    elim (list_of_size list_maxima (block_size (unlinked.words second) * 16)) [
      | none ↦ none
      | some listi ↦ some (push_block unlinked second listi)
    ]

unfoldable pub add_rest : Heap → ℕ → ℕ → ℕ → Option Heap
unfolding place_rest
add_rest heap i block second_size =
    place_rest heap i (block + block_size (heap.words block) * 16) second_size

abbrev pub found_at : ℕ → ℕ → ℕ → Heap → Search
found_at block required padding heap = record {
  heap = heap;
  allocated_block = block + 8;
  required_size = required;
  padding = padding;
}

-- The block, of `whole` times 16 bytes, in two.
unfoldable pub split_block : ℕ → ℕ → ℕ → Heap → ℕ → ℕ → ℕ → Option Search
unfolding chosen_size chosen_padding size_of_rest close_block add_rest
split_block size i block opened whole required_size padding =
    let required = chosen_size whole required_size in
    let padding' = chosen_padding whole required_size padding in
    let closed = close_block opened block required padding' size in
    if not (size_of_rest whole required == 0)
    then elim (add_rest closed i block (size_of_rest whole required)) [
      | none ↦ none
      | some heap ↦ some (found_at block required padding' heap)
    ]
    else some (found_at block required padding' closed)

-- The body of `if(!(current_block->header.allocated) && …)`.
unfoldable pub carve : ℕ → ℕ → ℕ → Search → Option Search
unfolding take_out open_block split_block
carve size i block s =
    let opened = open_block (take_out s.heap i block) block in
    split_block size i block opened (block_size (opened.words block)) s.required_size s.padding

pub data Searched : Type 0 where
  searched : Search → Searched
  search_past_lists : Searched
  search_runs_on : Searched

abbrev pub fits : Heap → ℕ → ℕ → Bool
fits heap block required =
    allocated (heap.words block) == 0 && leb (required / 16) (block_size (heap.words block))

-- `while(current_block != NULL)`; the block that was carved is looked at again.
unfoldable pub walk : ℕ → ℕ → ℕ → ℕ → Search → Searched
unfolding carve
walk zero size i current s = search_runs_on
walk (suc fuel) size i current s = elim (current == 0) [
  | true ↦ searched s
  | false ↦ elim (fits s.heap current s.required_size) [
    | true ↦ elim (carve size i current s) [
      | none ↦ search_past_lists
      | some s' ↦ walk fuel size i current s'
    ]
    | false ↦ walk fuel size i (s.heap.words (next_of current)) s
  ]
]

-- `for(int i = 0; i < 4 && allocated_block == NULL; i++)`, from an index on.
unfoldable pub search_lists : ℕ → List ℕ → ℕ → ℕ → Search → Searched
unfolding walk
search_lists fuel [] i size s = searched s
search_lists fuel (max ∷ maxima) i size s = elim (s.allocated_block == 0) [
  | false ↦ searched s
  | true ↦ elim (ltb s.required_size max) [
    | false ↦ search_lists fuel maxima (i + 1) size s
    | true ↦ elim (walk fuel size i (get_or s.heap.heads i 0) s) [
      | searched s' ↦ search_lists fuel maxima (i + 1) size s'
      | search_past_lists ↦ search_past_lists
      | search_runs_on ↦ search_runs_on
    ]
  ]
]
