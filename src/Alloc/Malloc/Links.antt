-- ===== src/Alloc/Malloc/Links.antt =====
-- The functions of hw3/src/sfmm.c on links leave the words of a block that the links do not point to.
use system_fundamentals_c_pr.Base.{
  ℕ, ◌+◌, ◌*◌, ◌≤◌, ◌<◌, ◌≡◌, ◌≢◌, inl, inr, refl, ◌==◌, arith, Bool-cases, ==_refl,
}
use system_fundamentals_c_pr.Alloc.Memory.{Heap, store, next_of, prev_of}
use system_fundamentals_c_pr.Alloc.Keeps.{Keeps, Keeps-refl, Keeps-trans, store-Keeps}
use system_fundamentals_c_pr.Alloc.Malloc.{take_front, take_back, rest_front}
use system_fundamentals_c_pr.Alloc.Malloc.Inside.{
  IsApart, IsApart-next, IsApart-prev, NoHead, NoHead-set,
}

module _ (c n a : ℕ) (low : c ≤ a) (high : a < c + n * 16) (heap : Heap) where
  pub take_front-Keeps :
      (i block : ℕ)
      → IsApart c n (heap.words (prev_of block))
      → Keeps heap (take_front heap i block) a
  unfolding take_front
  take_front-Keeps i block apart =
      let prev = heap.words (prev_of block) in
      elim (Bool-cases (prev == 0)) [
        | inl e ↦ rw (take_front, e) (record { word = refl; lower = refl; upper = refl })
        | inr e ↦
            rw (take_front, e)
              (store-Keeps heap a (next_of prev) _
                (IsApart-next c n prev a apart (ground (arith, e)) low high))
      ]

  pub take_back-Keeps :
      (block : ℕ)
      → a ≢ next_of block
      → IsApart c n (heap.words (next_of block))
      → Keeps heap (take_back heap block) a
  unfolding take_back
  take_back-Keeps block ne apart =
      let next = heap.words (next_of block) in
      elim (Bool-cases (next == 0)) [
        | inl e ↦ rw (take_back, e) (Keeps-refl heap a)
        | inr e ↦
            let between = store heap (prev_of next) (heap.words (prev_of block)) in
            rw (take_back, e)
              (Keeps-trans heap between (store between (next_of block) 0) a
                (store-Keeps heap a (prev_of next) _
                  (IsApart-prev c n next a apart (ground (arith, e)) low high))
                (store-Keeps between a (next_of block) 0 ne))
      ]

  pub rest_front-Keeps :
      (i second : ℕ)
      → a ≢ prev_of second
      → IsApart c n (heap.words (prev_of second))
      → Keeps heap (rest_front heap i second) a
  unfolding rest_front
  rest_front-Keeps i second ne apart =
      let prev = heap.words (prev_of second) in
      elim (Bool-cases (prev == 0)) [
        | inl e ↦ rw (rest_front, e) (record { word = refl; lower = refl; upper = refl })
        | inr e ↦
            let between = store heap (next_of prev) (heap.words (next_of second)) in
            rw (rest_front, e)
              (Keeps-trans heap between (store between (prev_of second) 0) a
                (store-Keeps heap a (next_of prev) _
                  (IsApart-next c n prev a apart (ground (arith, e)) low high))
                (store-Keeps between a (prev_of second) 0 ne))
      ]

module _ (heap : Heap) where
  -- The link behind is NULL.
  pub take_back-next : (block : ℕ) → (take_back heap block).words (next_of block) ≡ 0
  unfolding take_back
  take_back-next block =
      let next = heap.words (next_of block) in
      elim (Bool-cases (next == 0)) [
        | inl e ↦ rw (take_back, e) (ground (arith, e))
        | inr e ↦ rw (take_back, e, ==_refl (next_of block)) refl
      ]

  pub take_back-heads : (block : ℕ) → (take_back heap block).heads ≡ heap.heads
  unfolding take_back
  take_back-heads block = elim (Bool-cases (heap.words (next_of block) == 0)) [
    | inl e ↦ rw (take_back, e) refl
    | inr e ↦ rw (take_back, e) refl
  ]

  pub rest_front-heads :
      (c n i second : ℕ)
      → NoHead c n heap.heads
      → IsApart c n (heap.words (next_of second))
      → NoHead c n (rest_front heap i second).heads
  unfolding rest_front
  rest_front-heads c n i second h apart = elim (Bool-cases (heap.words (prev_of second) == 0)) [
    | inl e ↦ rw (rest_front, e) (NoHead-set c n heap.heads i (heap.words (next_of second)) h apart)
    | inr e ↦ rw (rest_front, e) h
  ]
