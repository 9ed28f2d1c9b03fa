-- ===== src/Alloc/Free.antt =====
-- `sf_free` of hw3/src/sfmm.c.
pub mod Push
pub mod Twice
use system_fundamentals_c_pr.Base.{
  ℕ, zero, suc, ◌+◌, ◌-◌, ◌*◌, ◌/◌, ◌%◌, ◌^◌, Bool, true, false, not, ◌&&◌, ◌||◌, Option, none,
  some, List, [], ◌∷◌, get_or, set, ltb, leb, ◌==◌, if◌then◌else◌,
}
use system_fundamentals_c_pr.Alloc.Memory.{
  Heap, store, allocated, padded, block_size, requested_size, set_allocated, set_block_size,
  set_requested_size, next_of, prev_of, below, list_maxima, list_of_size, Freed, frees, aborts,
  outside_lists, endless,
}

-- `if(block->prev != NULL) … else …`: the block before, or the head of the block's list, points behind it.
unfoldable pub unlink_before : Heap → ℕ → Option Heap
unfolding list_of_size
unlink_before heap block =
    let prev = heap.words (prev_of block) in
    let next = heap.words (next_of block) in
    if not (prev == 0)
    then some (store heap (next_of prev) next)
    else elim (list_of_size list_maxima (block_size (heap.words block) * 16)) [
      | none ↦ none
      | some i ↦
          let moved : Heap = record heap { heads = set heap.heads i next } in
          some (if not (next == 0) then store moved (prev_of next) 0 else moved)
    ]

-- `if(block->next != NULL) block->next->prev = block->prev`
unfoldable pub unlink_behind : Heap → ℕ → Heap
unlink_behind heap block =
    let next = heap.words (next_of block) in
    if not (next == 0) then store heap (prev_of next) (heap.words (prev_of block)) else heap

-- `freed_header->header.block_size += next_coalesce->header.block_size`
unfoldable pub grow : Heap → ℕ → ℕ → Heap
grow heap header block =
    let w = heap.words header in
    store heap header (set_block_size w (block_size w + block_size (heap.words block)))

-- `while((void *)next_coalesce < get_heap_end() && !(next_coalesce->header.allocated))`. A round moves
-- up by sixteen bytes at least, unless it meets a block of size 0 and stays there.
unfoldable pub coalesce : ℕ → Heap → ℕ → ℕ → Freed
unfolding unlink_before unlink_behind grow
coalesce zero heap header block = endless
coalesce (suc fuel) heap header block =
    elim (ltb block heap.heap_end && allocated (heap.words block) == 0) [
      | false ↦ frees heap
      | true ↦ elim (unlink_before (grow heap header block) block) [
        | none ↦ outside_lists
        | some heap' ↦
            let heap'' = unlink_behind heap' block in
            coalesce fuel heap'' header (block + block_size (heap''.words block) * 16)
      ]
    ]

-- The block becomes the head of a list.
unfoldable pub push_block : Heap → ℕ → ℕ → Heap
push_block heap header i =
    let head = get_or heap.heads i 0 in
    let linked = store heap (next_of header) head in
    let backed = if not (head == 0) then store linked (prev_of head) header else linked in
    record backed { heads = set backed.heads i header }

-- From `freed_header->next = NULL` to the end: the footer, and the block as the head of its list.
unfoldable pub insert_block : Heap → ℕ → Freed
unfolding list_of_size push_block
insert_block heap header =
    let cleared = store (store heap (next_of header) 0) (prev_of header) 0 in
    let size = block_size (cleared.words header) in
    let footer = below (header + size * 16) in
    let ended =
      store cleared footer
        (set_requested_size (set_block_size (set_allocated (cleared.words footer) 0) size) 0) in
    elim (list_of_size list_maxima (block_size (ended.words header) * 16)) [
      | none ↦ outside_lists
      | some i ↦ frees (push_block ended header i)
    ]

-- The tests that call abort, on the header and the footer.
unfoldable pub is_sound : ℕ → ℕ → Bool
is_sound header footer =
    let size = block_size header * 16 % 2 ^ 32 in
    let needed = (requested_size footer + 16) % 2 ^ 32 in
    not (allocated footer == 0)
    && padded footer == padded header
    && (needed == size || not (padded header == 0))
    && leb needed size
    && not (needed == size && not (padded header == 0))

abbrev pub outside : Heap → ℕ → Bool
outside heap p = ltb p heap.heap_start || ltb heap.heap_end p

-- From the footer's `allocated = 0` to the end.
unfoldable pub release : Heap → ℕ → ℕ → Freed
unfolding coalesce insert_block
release heap header footer =
    let open_heap = store heap footer (set_allocated (heap.words footer) 0) in
    elim (coalesce (suc heap.heap_end) open_heap header
      (header + block_size (open_heap.words header) * 16)) [
        | frees heap' ↦ insert_block heap' header
        | aborts ↦ aborts
        | outside_lists ↦ outside_lists
        | endless ↦ endless
      ]

unfoldable pub sf_free : Heap → ℕ → Freed
unfolding is_sound release
sf_free heap ptr =
    let header = below ptr in
    if outside heap header || header == 0 || allocated (heap.words header) == 0
    then aborts
    else let marked = store heap header (set_allocated (heap.words header) 0) in
      let footer = below (header + block_size (heap.words header) * 16) in
      if outside heap footer || not (is_sound (marked.words header) (marked.words footer))
      then aborts
      else release marked header footer
