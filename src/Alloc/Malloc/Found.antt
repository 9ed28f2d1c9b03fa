-- ===== src/Alloc/Malloc/Found.antt =====
-- The search of hw3/src/sfmm.c for a block that is large enough.
use system_fundamentals_c_pr.Base.{
  ℕ, zero, suc, ◌+◌, ◌-◌, ◌≤◌, ◌≡◌, ◌≢◌, refl, ap, ◌∙◌, true, false, ltb, List, [], ◌∷◌, get_or,
  some, arith, ==_of_ne,
}
use system_fundamentals_c_pr.Alloc.Memory.{Heap, allocated, next_of}
use system_fundamentals_c_pr.Alloc.Malloc.{Search, fits, carve, walk, search_lists, searched}
use system_fundamentals_c_pr.Alloc.Malloc.Carve.{searching}

-- By k links behind blocks that do not fit, the list at `p` leads to `q`.
pub data Reaches (heap : Heap) (required : ℕ) : ℕ → ℕ → ℕ → Type 0 where
  here : (p : ℕ) → Reaches heap required p p 0
  behind :
      (p q k : ℕ)
      → p ≢ 0
      → fits heap p required ≡ false
      → Reaches heap required (heap.words (next_of p)) q k
      → Reaches heap required p q (suc k)

-- The search comes to the block `c`, in the list i: the lists before it have a maximum that is not larger than
-- the size, and are passed over even where it is that size, or hold no block that fits. The first index is
-- that of the first maximum.
pub data Leads (heap : Heap) (required : ℕ) : List ℕ → ℕ → ℕ → ℕ → Type 0 where
  skips :
      (max : ℕ) (maxima : List ℕ) (j i c : ℕ)
      → ltb required max ≡ false
      → Leads heap required maxima (j + 1) i c
      → Leads heap required (max ∷ maxima) j i c
  passes :
      (max : ℕ) (maxima : List ℕ) (j i c k : ℕ)
      → ltb required max ≡ true
      → Reaches heap required (get_or heap.heads j 0) 0 k
      → k ≤ heap.heap_end
      → Leads heap required maxima (j + 1) i c
      → Leads heap required (max ∷ maxima) j i c
  finds :
      (max : ℕ) (maxima : List ℕ) (i c k : ℕ)
      → ltb required max ≡ true
      → Reaches heap required (get_or heap.heads i 0) c k
      → k ≤ heap.heap_end
      → Leads heap required (max ∷ maxima) i i c

walk_reaches :
    (size i : ℕ) (s : Search) (p q k fuel total : ℕ)
    → Reaches s.heap s.required_size p q k
    → total ≡ k + fuel
    → walk total size i p s ≡ walk fuel size i q s
unfolding walk
walk_reaches size i s p q zero fuel total (here _) e =
    let same : total ≡ fuel = omega (arith, e) in rw same refl
walk_reaches size i s p q (suc k) fuel zero (behind _ _ _ n f r) e = absurd (omega (arith, e))
walk_reaches size i s p q (suc k) fuel (suc total) (behind _ _ _ n f r) e =
    rw (walk, ==_of_ne p 0 n, f)
      (walk_reaches size i s (s.heap.words (next_of p)) q k fuel total r (omega (arith, e)))

walk_end : (fuel size i : ℕ) (s : Search) → walk (suc fuel) size i 0 s ≡ searched s
unfolding walk
walk_end fuel size i s = refl

walk-fits :
    (fuel size i c : ℕ) (s s' : Search)
    → c ≢ 0
    → fits s.heap c s.required_size ≡ true
    → carve size i c s ≡ some s'
    → walk (suc fuel) size i c s ≡ walk fuel size i c s'
unfolding walk
walk-fits fuel size i c s s' n f e = rw (walk, ==_of_ne c 0 n, f, e) refl

walk_past :
    (fuel size i c : ℕ) (s : Search)
    → c ≢ 0
    → fits s.heap c s.required_size ≡ false
    → walk (suc fuel) size i c s ≡ walk fuel size i (s.heap.words (next_of c)) s
unfolding walk
walk_past fuel size i c s n f = rw (walk, ==_of_ne c 0 n, f) refl

-- The block that was carved is in use and has no block behind it in its list, which ends the loop.
walk_carved :
    (fuel size i c : ℕ) (s s' : Search)
    → c ≢ 0
    → fits s.heap c s.required_size ≡ true
    → carve size i c s ≡ some s'
    → allocated (s'.heap.words c) ≡ 1
    → s'.heap.words (next_of c) ≡ 0
    → walk (suc (suc (suc fuel))) size i c s ≡ searched s'
unfolding walk
walk_carved fuel size i c s s' n f e u l =
    let in_use : fits s'.heap c s'.required_size ≡ false = ground (arith, u) in
    walk-fits (suc (suc fuel)) size i c s s' n f e
    ∙ walk_past (suc fuel) size i c s' n in_use
    ∙ ap (λ p. walk (suc fuel) size i p s') l
    ∙ walk_end fuel size i s'

search_done :
    (fuel : ℕ) (maxima : List ℕ) (i size : ℕ) (s : Search)
    → s.allocated_block ≢ 0
    → search_lists fuel maxima i size s ≡ searched s
unfolding search_lists
search_done fuel [] i size s n = refl
search_done fuel (max ∷ maxima) i size s n = rw (search_lists, ==_of_ne s.allocated_block 0 n) refl

module _ (heap : Heap) (required padding size i c : ℕ) (s' : Search) (block : c ≢ 0)
    (fitting : fits heap c required ≡ true)
    (carved : carve size i c (searching heap required padding) ≡ some s')
    (given : allocated (s'.heap.words c) ≡ 1) (unlinked : s'.heap.words (next_of c) ≡ 0)
    (found : s'.allocated_block ≢ 0) where
  pub search_lists-finds :
      (maxima : List ℕ) (j : ℕ)
      → Leads heap required maxima j i c
      → search_lists (heap.heap_end + 4) maxima j size (searching heap required padding)
        ≡ searched s'
  unfolding search_lists
  search_lists-finds [] j leads = elim leads [ ]
  search_lists-finds (max ∷ maxima) j (skips _ _ _ _ _ no_room rest) =
      rw (search_lists, no_room) (search_lists-finds maxima (j + 1) rest)
  search_lists-finds (max ∷ maxima) j (passes _ _ _ _ _ k large r l rest) =
      let s = searching heap required padding in
      let walked : walk (heap.heap_end + 4) size j (get_or heap.heads j 0) s ≡ searched s =
        walk_reaches size j s (get_or heap.heads j 0) 0 k (suc (heap.heap_end + 3 - k))
          (heap.heap_end + 4) r (omega (arith, l))
        ∙ walk_end (heap.heap_end + 3 - k) size j s in
      rw (search_lists, large, walked) (search_lists-finds maxima (j + 1) rest)
  search_lists-finds (max ∷ maxima) j (finds _ _ _ _ k large r l) =
      let s = searching heap required padding in
      let walked : walk (heap.heap_end + 4) size i (get_or heap.heads i 0) s ≡ searched s' =
        walk_reaches size i s (get_or heap.heads i 0) c k (suc (suc (suc (heap.heap_end + 1 - k))))
          (heap.heap_end + 4) r (omega (arith, l))
        ∙ walk_carved (heap.heap_end + 1 - k) size i c s s' block fitting carved given unlinked in
      rw (search_lists, large, walked)
        (search_done (heap.heap_end + 4) maxima (i + 1) size s' found)
