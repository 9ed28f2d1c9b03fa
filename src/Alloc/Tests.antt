-- ===== src/Alloc/Tests.antt =====
-- hw3: the theorems at a concrete heap.
use system_fundamentals_c_pr.Base.{
  ℕ, ◌+◌, ◌*◌, ◌^◌, ◌≡◌, ◌≢◌, refl, ◌==◌, if◌then◌else◌, replicate, get_or, get_or-replicate, arith,
}
use system_fundamentals_c_pr.Alloc.Memory.{
  Heap, Freed, frees, aborts, outside_lists, endless, below, prev_of, set_allocated, list_of_size,
}
use system_fundamentals_c_pr.Alloc.Free.{
  sf_free, is_sound, coalesce, insert_block, push_block, release,
}
use system_fundamentals_c_pr.Alloc.Free.Twice.{sf_free-twice}

-- One block of 64 bytes in use, of which 48 were requested.
abbrev heap : Heap
heap = record {
  words = λ a. if a == 4096 then 65 else if a == 4152 then 48 * 2 ^ 32 + 65 else 0;
  heads = replicate 4 0;
  heap_start = 4096;
  heap_end = 4160;
}

abbrev heap_of : Freed → Heap
heap_of (frees h) = h
heap_of aborts = heap
heap_of outside_lists = heap
heap_of endless = heap

abbrev freed : Heap
freed = heap_of (sf_free heap 4104)

no_list : (i : ℕ) → below 4104 ≢ prev_of (get_or heap.heads i 0)
no_list i e = omega (arith, e, get_or-replicate {A = ℕ} 4 i 0)

free_test : sf_free heap 4104 ≡ frees freed
unfolding sf_free is_sound coalesce release insert_block push_block list_of_size
free_test = refl

twice_example : (freed.words 4096 ≡ set_allocated 65 0) × (sf_free freed 4104 ≡ aborts)
twice_example = sf_free-twice heap freed 4104 (omega arith) (omega arith) refl no_list free_test
