-- ===== src/Alloc/Realloc.antt =====
-- `sf_realloc` of hw3/src/sfmm.c.
use system_fundamentals_c_pr.Base.{
  ℕ, zero, suc, ◌+◌, ◌-◌, ◌*◌, ◌/◌, ◌%◌, ◌^◌, true, false, not, ◌||◌, ltb, ◌==◌, if◌then◌else◌,
}
use system_fundamentals_c_pr.Alloc.Memory.{
  Heap, store, allocated, block_size, requested_size, set_allocated, set_padded, set_two_zeroes,
  set_block_size, set_requested_size, below, Freed, frees, aborts, outside_lists, endless,
}
use system_fundamentals_c_pr.Alloc.Free.{is_sound, outside, sf_free}
use system_fundamentals_c_pr.Alloc.Malloc.{
  Errno, no_error, gives, past_lists, runs_on, chosen_size, chosen_padding, size_of_rest,
  start_search,
}
use system_fundamentals_c_pr.Alloc.Pages.{sf_malloc}

-- How a call ends: as `sf_malloc` or `sf_free` does, or by abort.
pub data Resized : Type 0 where
  resizes : ℕ → Errno → Heap → Resized
  resize_aborts : Resized
  resize_past_lists : Resized
  resize_runs_on : Resized

-- `memcpy` of n bytes between words, the last one in part.
unfoldable pub copy_words : ℕ → Heap → ℕ → ℕ → Heap
copy_words zero heap to from = heap
copy_words (suc n) heap to from = copy_words n (store heap to (heap.words from)) (to + 8) (from + 8)

unfoldable pub copy_bytes : Heap → ℕ → ℕ → ℕ → Heap
unfolding copy_words
copy_bytes heap to from n =
    let copied = copy_words (n / 8) heap to from in
    let last = n / 8 * 8 in
    let low = 2 ^ (8 * (n % 8)) in
    store copied (to + last)
      (copied.words (to + last) / low * low + copied.words (from + last) % low)

-- A call of `sf_free` at the end, and the pointer that is returned.
abbrev pub freed_then : Freed → ℕ → Errno → Resized
freed_then (frees heap) ptr errno = resizes ptr errno heap
freed_then aborts ptr errno = resize_aborts
freed_then outside_lists ptr errno = resize_past_lists
freed_then endless ptr errno = resize_runs_on

-- A block that is too small: the bytes from its header on are copied to a new block.
unfoldable pub move_block : ℕ → (Heap → Heap × ℕ) → Heap → ℕ → ℕ → ℕ → Resized
unfolding sf_malloc copy_bytes sf_free
move_block fuel sf_sbrk heap header footer size = elim (sf_malloc fuel sf_sbrk heap size) [
  | past_lists ↦ resize_past_lists
  | runs_on ↦ resize_runs_on
  | gives new_block errno heap' ↦ elim (new_block == 0) [
    | true ↦ resizes 0 errno heap'
    | false ↦
        freed_then
          (sf_free (copy_bytes heap' new_block header (requested_size (heap'.words footer)))
            (header + 8))
          new_block errno
  ]
]

-- The header and the footer of the block with its new size.
unfoldable pub shrink_block : Heap → ℕ → ℕ → ℕ → ℕ → Heap
shrink_block heap header required padding size =
    let headed =
      store heap header (set_padded (set_block_size (heap.words header) (required / 16)) padding) in
    let footer = below (header + required) in
    store headed footer (
      set_requested_size
        (set_block_size
          (set_two_zeroes (set_padded (set_allocated (headed.words footer) 1) padding) 0)
          (block_size (headed.words header)))
        size)

-- The rest of the block, as a block in use that `sf_free` takes.
unfoldable pub split_rest : Heap → ℕ → ℕ → Heap
split_rest heap second second_size =
    let headed =
      store heap second
        (set_padded (set_block_size (set_allocated (heap.words second) 1) second_size) 0) in
    let footer = below (second + block_size (headed.words second) * 16) in
    store headed footer (
      set_requested_size
        (set_padded (set_block_size (set_allocated (headed.words footer) 1) second_size) 0)
        (second_size * 16 - 16))

unfoldable pub keep_block : Heap → ℕ → ℕ → Resized
unfolding chosen_size chosen_padding size_of_rest shrink_block split_rest sf_free
keep_block heap header size =
    let s = start_search heap size in
    let whole = block_size (heap.words header) in
    let required = chosen_size whole s.required_size in
    let padding = chosen_padding whole s.required_size s.padding in
    let second_size = size_of_rest whole required in
    let shrunk = shrink_block heap header required padding size in
    let second = header + block_size (shrunk.words header) * 16 in
    if not (second_size == 0)
    then freed_then (sf_free (split_rest shrunk second second_size) (second + 8)) (header + 8)
        no_error
    else resizes (header + 8) no_error shrunk

-- `sf_errno` is that of the calls, and else as it was, which is `no_error` here.
unfoldable pub sf_realloc : ℕ → (Heap → Heap × ℕ) → Heap → ℕ → ℕ → Resized
unfolding sf_free is_sound move_block keep_block
sf_realloc fuel sf_sbrk heap ptr size =
    if size == 0
    then freed_then (sf_free heap ptr) 0 no_error
    else let header = below ptr in
      let footer = below (header + block_size (heap.words header) * 16) in
      if outside heap header
        || header == 0
        || allocated (heap.words header) == 0
        || outside heap footer
        || not (is_sound (heap.words header) (heap.words footer))
      then resize_aborts
      else if ltb (block_size (heap.words header) * 16) (size + 16)
      then move_block fuel sf_sbrk heap header footer size
      else if ltb (size + 16) (block_size (heap.words header) * 16)
      then keep_block heap header size
      else resizes (header + 8) no_error heap
