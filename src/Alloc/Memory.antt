-- ===== src/Alloc/Memory.antt =====
-- hw3/include/sfmm.h: the heap as words of eight bytes at their addresses, which are multiples of eight
-- where the pointers are. The fields of headers and footers are bits of a word.
use system_fundamentals_c_pr.Base.{
  ℕ, ◌+◌, ◌-◌, ◌*◌, ◌/◌, ◌%◌, ◌^◌, Option, none, some, List, [], ◌∷◌, set, ltb, ◌==◌, if◌then◌else◌,
}

-- `heads` are those of `seg_free_list`, and 0 is NULL.
pub record Heap : Type 0 where
  pub words : ℕ → ℕ
  pub heads : List ℕ
  pub heap_start : ℕ
  pub heap_end : ℕ

abbrev pub store : Heap → ℕ → ℕ → Heap
store heap a w = record heap { words = λ b. if b == a then w else heap.words b }

-- The bit fields of `sf_header` and `sf_footer`, the lowest first: 1, 1, 2, 28 and 32 bits.
abbrev pub allocated : ℕ → ℕ
allocated w = w % 2

abbrev pub padded : ℕ → ℕ
padded w = w / 2 % 2

abbrev pub block_size : ℕ → ℕ
block_size w = w / 16 % 2 ^ 28

abbrev pub requested_size : ℕ → ℕ
requested_size w = w / 2 ^ 32

abbrev pub set_allocated : ℕ → ℕ → ℕ
set_allocated w b = w / 2 * 2 + b % 2

abbrev pub set_padded : ℕ → ℕ → ℕ
set_padded w b = w / 4 * 4 + b % 2 * 2 + w % 2

abbrev pub set_two_zeroes : ℕ → ℕ → ℕ
set_two_zeroes w n = w / 16 * 16 + n % 4 * 4 + w % 4

abbrev pub set_block_size : ℕ → ℕ → ℕ
set_block_size w n = w / 2 ^ 32 * 2 ^ 32 + n % 2 ^ 28 * 16 + w % 16

abbrev pub set_requested_size : ℕ → ℕ → ℕ
set_requested_size w n = n % 2 ^ 32 * 2 ^ 32 + w % 2 ^ 32

-- The members of `sf_free_header` behind its header.
abbrev pub next_of : ℕ → ℕ
next_of block = block + 8

abbrev pub prev_of : ℕ → ℕ
prev_of block = block + 16

-- `(void *)p - 8`, for pointers of 64 bits.
abbrev pub below : ℕ → ℕ
below p = (p + 2 ^ 64 - 8) % 2 ^ 64

-- `(void *)p - n`
abbrev pub back : ℕ → ℕ → ℕ
back p n = (p + 2 ^ 64 - n) % 2 ^ 64

abbrev pub page_size : ℕ
page_size = 4096

abbrev pub set_head : Heap → ℕ → ℕ → Heap
set_head heap i block = record heap { heads = set heap.heads i block }

-- LIST_1_MIN to LIST_4_MIN.
abbrev pub list_minima : List ℕ
list_minima = 32 ∷ 129 ∷ 513 ∷ 2049 ∷ []

-- LIST_1_MAX to LIST_4_MAX, in a `uint16_t`.
abbrev pub list_maxima : List ℕ
list_maxima = 128 ∷ 512 ∷ 2048 ∷ 65535 ∷ []

-- `for(i = 0; seg_free_list[i].max < size; i++)`; `none` is an index behind the array.
unfoldable pub list_of_size : List ℕ → ℕ → Option ℕ
list_of_size [] size = none
list_of_size (max ∷ maxima) size =
    let rest = list_of_size maxima size in
    if ltb max size then elim rest [ none ↦ none | some i ↦ some (i + 1) ] else some 0

-- How `sf_free` ends: it returns, or calls abort, or reads behind `seg_free_list`, or does not end.
pub data Freed : Type 0 where
  frees : Heap → Freed
  aborts : Freed
  outside_lists : Freed
  endless : Freed
