-- ===== src/Alloc/Pages.antt =====
-- `sf_malloc` of hw3/src/sfmm.c where the free lists hold no block that is large enough.
use system_fundamentals_c_pr.Base.{
  ℕ, zero, suc, ◌+◌, ◌-◌, ◌*◌, ◌/◌, ◌^◌, true, false, ◌&&◌, ◌||◌, Option, none, some, ltb, leb,
  ◌==◌, if◌then◌else◌,
}
use system_fundamentals_c_pr.Alloc.Memory.{
  Heap, store, allocated, block_size, set_allocated, set_block_size, set_requested_size, below,
  back, page_size, list_maxima, list_of_size,
}
use system_fundamentals_c_pr.Alloc.Free.{unlink_before, unlink_behind, grow, push_block}
use system_fundamentals_c_pr.Alloc.Malloc.{
  no_error, invalid, no_memory, Given, gives, past_lists, runs_on, init_heap, start_search,
  searched, search_past_lists, search_runs_on, search_lists,
}

pub data Joined : Type 0 where
  joined : ℕ → Heap → Joined
  join_past_lists : Joined
  join_runs_on : Joined

-- The block in front, by the size in its footer.
abbrev pub block_before : Heap → ℕ → ℕ
block_before heap block = back block (block_size (heap.words (below block)) * 16)

-- `while((void *)prev_coalesce > get_heap_start() && !(prev_coalesce->header.allocated))`
unfoldable pub join_before : ℕ → Heap → ℕ → ℕ → Joined
unfolding unlink_before unlink_behind grow
join_before zero heap block prev = join_runs_on
join_before (suc fuel) heap block prev =
    elim (ltb heap.heap_start prev && allocated (heap.words prev) == 0) [
      | false ↦ joined block heap
      | true ↦ elim (unlink_before (grow heap prev block) prev) [
        | none ↦ join_past_lists
        | some heap' ↦
            let heap'' = unlink_behind heap' prev in
            join_before fuel heap'' prev (block_before heap'' prev)
      ]
    ]

-- The joined block, free, as the head of a list.
unfoldable pub end_page : Heap → ℕ → Option Heap
unfolding list_of_size push_block
end_page heap block =
    let freed = store heap block (set_allocated (heap.words block) 0) in
    let footer = below freed.heap_end in
    let ended = store freed footer (
      set_requested_size
        (set_block_size (set_allocated (freed.words footer) 0) (block_size (freed.words block)))
        0) in
    elim (list_of_size list_maxima (block_size (ended.words block) * 16)) [
      | none ↦ none
      | some listi ↦ some (push_block ended block listi)
    ]

pub data Paged : Type 0 where
  paged : Heap → Paged
  refused : Heap → Paged
  paged_past_lists : Paged
  paged_runs_on : Paged

-- `sf_sbrk` and what follows it; a pointer is negative as a long from 2 ^ 63 on.
unfoldable pub add_page : (Heap → Heap × ℕ) → Heap → Paged
unfolding join_before end_page
add_page sf_sbrk heap =
    let (grown, start_page) = sf_sbrk heap in
    if leb (2 ^ 63) start_page
    then refused grown
    else let headed =
        store grown start_page
          (set_block_size (grown.words start_page) ((grown.heap_end - start_page) / 16)) in
      elim (join_before (suc headed.heap_end) headed start_page (block_before headed start_page)) [
        | join_past_lists ↦ paged_past_lists
        | join_runs_on ↦ paged_runs_on
        | joined block heap' ↦ elim (end_page heap' block) [
          | none ↦ paged_past_lists
          | some heap'' ↦ paged heap''
        ]
      ]

-- The calls of `sf_malloc` within one another are counted by the fuel.
unfoldable pub sf_malloc : ℕ → (Heap → Heap × ℕ) → Heap → ℕ → Given
sf_malloc zero sf_sbrk heap size = runs_on
sf_malloc (suc fuel) sf_sbrk heap size = elim (size == 0 || ltb (page_size * 4) size) [
  | true ↦ gives 0 invalid heap
  | false ↦
      let ready = init_heap sf_sbrk heap in
      elim (search_lists (ready.heap_end + 4) list_maxima 0 size (start_search ready size)) [
        | search_past_lists ↦ past_lists
        | search_runs_on ↦ runs_on
        | searched s ↦ elim (s.allocated_block == 0) [
          | false ↦ gives s.allocated_block no_error s.heap
          | true ↦ elim (add_page sf_sbrk s.heap) [
            | refused heap' ↦ gives 0 no_memory heap'
            | paged_past_lists ↦ past_lists
            | paged_runs_on ↦ runs_on
            | paged heap' ↦ sf_malloc fuel sf_sbrk heap' size
          ]
        ]
      ]
]
