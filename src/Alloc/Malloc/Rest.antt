-- ===== src/Alloc/Malloc/Rest.antt =====
-- The rest of a block that hw3/src/sfmm.c splits.
use system_fundamentals_c_pr.Base.{
  ℕ, ◌+◌, ◌*◌, ◌^◌, ◌≤◌, ◌<◌, ◌≡◌, ◌≢◌, inl, inr, refl, ap, ◌∙◌, get_or, ltb, some, arith,
  Bool-cases, ==_refl,
}
use system_fundamentals_c_pr.Alloc.Memory.{
  Heap, store, allocated, block_size, set_allocated, set_block_size, next_of, prev_of, below,
  list_maxima, list_of_size,
}
use system_fundamentals_c_pr.Alloc.Keeps.{Keeps, Keeps-trans, store-Keeps}
use system_fundamentals_c_pr.Alloc.Free.{push_block}
use system_fundamentals_c_pr.Alloc.Free.Push.{push_block-Keeps}
use system_fundamentals_c_pr.Alloc.Malloc.{take_back, rest_front, end_rest, place_rest, add_rest}
use system_fundamentals_c_pr.Alloc.Malloc.Inside.{IsApart, IsApart-prev, NoHead}
use system_fundamentals_c_pr.Alloc.Malloc.Links.{
  take_back-Keeps, rest_front-Keeps, take_back-heads, rest_front-heads,
}

-- A list takes every block below 64 KiB.
pub list_of_size-some :
    (size : ℕ) → size ≤ 65535 → (i : ℕ) × (list_of_size list_maxima size ≡ some i)
unfolding list_of_size
list_of_size-some size l = elim (Bool-cases (ltb 128 size)) [
  | inr e ↦ (0, ground (arith, e))
  | inl e ↦ elim (Bool-cases (ltb 512 size)) [
    | inr f ↦ (1, ground (arith, e, f))
    | inl f ↦ elim (Bool-cases (ltb 2048 size)) [
      | inr g ↦ (2, ground (arith, e, f, g))
      | inl g ↦ (3, ground (arith, e, f, g, l))
    ]
  ]
]

rest_header : Heap → ℕ → ℕ → ℕ
rest_header heap b m = set_block_size (set_allocated (heap.words b) 0) m

module _ (heap : Heap) (b m : ℕ) (small : m < 4096) where
  rest_header-fields :
      (block_size (rest_header heap b m) ≡ m) × (allocated (rest_header heap b m) ≡ 0)
  unfolding rest_header
  rest_header-fields = (omega (arith, small), omega arith)

  end_rest-Keeps : (a : ℕ) → a ≢ b → a ≢ below (b + m * 16) → Keeps heap (end_rest heap b m) a
  unfolding end_rest rest_header
  end_rest-Keeps a ne far =
      let headed = store heap b (rest_header heap b m) in
      let word : headed.words b ≡ rest_header heap b m = rw (==_refl b) refl in
      let size : block_size (headed.words b) ≡ m = ap block_size word ∙ rest_header-fields.0 in
      Keeps-trans heap headed (end_rest heap b m) a (store-Keeps heap a b (rest_header heap b m) ne)
        (store-Keeps headed a (below (b + block_size (headed.words b) * 16)) _ (rw size far))

  end_rest-header : b ≢ below (b + m * 16) → (end_rest heap b m).words b ≡ rest_header heap b m
  unfolding end_rest rest_header
  end_rest-header far =
      let headed = store heap b (rest_header heap b m) in
      let word : headed.words b ≡ rest_header heap b m = rw (==_refl b) refl in
      let size : block_size (headed.words b) ≡ m = ap block_size word ∙ rest_header-fields.0 in
      (store-Keeps headed b (below (b + block_size (headed.words b) * 16)) _ (rw size far)).word
      ∙ word

-- A block of `k` and a rest of `m` times sixteen bytes, from `c` on.
module _ (heap : Heap) (c k m : ℕ) (large : 2 ≤ m) (small : k + m < 4096)
    (fits_memory : c + (k + m) * 16 < 2 ^ 64) (no_head : NoHead c (k + m) heap.heads)
    (stale : (a : ℕ)
      → c + k * 16 ≤ a
      → a < c + (k + m) * 16
      → IsApart c (k + m) (heap.words a)) where
  b : ℕ
  b = c + k * 16

  ended : Heap
  unfolding b
  ended = end_rest heap b m

  stale-ended : (a : ℕ) → b < a → a < b + 24 → IsApart c (k + m) (ended.words a)
  unfolding b ended
  stale-ended a l u =
      let kept =
        end_rest-Keeps heap b m (omega (arith, small)) a (λ e. omega (arith, e, l))
          (λ e. omega (arith, e, u, large, fits_memory)) in
      rw kept.word (stale a (omega (arith, l)) (omega (arith, u, large)))

  unlinked : ℕ → Heap
  unfolding b ended
  unlinked i = take_back (rest_front ended i b) b

  front-next : (i : ℕ) → (rest_front ended i b).words (next_of b) ≡ ended.words (next_of b)
  unfolding b ended
  front-next i =
      (rest_front-Keeps c (k + m) (next_of b) (omega arith) (omega (arith, large)) ended i b
        (λ e. omega (arith, e)) (stale-ended (prev_of b) (omega arith) (omega arith))).word

  unlinked-Keeps :
      (i a : ℕ)
      → c ≤ a
      → a < c + (k + m) * 16
      → a ≢ next_of b
      → a ≢ prev_of b
      → Keeps ended (unlinked i) a
  unfolding b ended unlinked
  unlinked-Keeps i a low high ne ne' =
      Keeps-trans ended (rest_front ended i b) (unlinked i) a
        (rest_front-Keeps c (k + m) a low high ended i b ne'
          (stale-ended (prev_of b) (omega arith) (omega arith)))
        (take_back-Keeps c (k + m) a low high (rest_front ended i b) b ne
          (rw (front-next i) (stale-ended (next_of b) (omega arith) (omega arith))))

  unlinked-NoHead : (i : ℕ) → NoHead c (k + m) (unlinked i).heads
  unfolding b ended unlinked end_rest
  unlinked-NoHead i = rw (take_back-heads (rest_front ended i b) b) (
      rest_front-heads ended c (k + m) i b no_head
        (stale-ended (next_of b) (omega arith) (omega arith)))

  -- The header of the rest.
  unlinked-header : (i : ℕ) → (unlinked i).words b ≡ rest_header heap b m
  unfolding b ended
  unlinked-header i =
      (unlinked-Keeps i b (omega arith) (omega (arith, large)) (λ e. omega (arith, e))
        (λ e. omega (arith, e))).word
      ∙ end_rest-header heap b m (omega (arith, small)) (λ e. omega (arith, e, large, fits_memory))

  pushed : ℕ → ℕ → Heap
  unfolding b
  pushed i listi = push_block (unlinked i) b listi

  pushed-Keeps :
      (i listi a : ℕ)
      → c ≤ a
      → a < c + (k + m) * 16
      → a ≢ next_of b
      → a ≢ prev_of b
      → Keeps ended (pushed i listi) a
  unfolding b pushed
  pushed-Keeps i listi a low high ne ne' =
      Keeps-trans ended (unlinked i) (pushed i listi) a (unlinked-Keeps i a low high ne ne') (
        push_block-Keeps (unlinked i) b listi a ne (λ some_head.
          IsApart-prev c (k + m) (get_or (unlinked i).heads listi 0) a (unlinked-NoHead i listi)
            some_head low high))

  pushed-old : (i listi a : ℕ) → c ≤ a → a < b → Keeps heap (pushed i listi) a
  unfolding b ended
  pushed-old i listi a low high =
      Keeps-trans heap ended (pushed i listi) a
        (end_rest-Keeps heap b m (omega (arith, small)) a (λ e. omega (arith, e, high))
          (λ e. omega (arith, e, high, large, fits_memory)))
        (pushed-Keeps i listi a low (omega (arith, high)) (λ e. omega (arith, e, high))
          (λ e. omega (arith, e, high)))

  -- What `add_rest` leaves: the words of the block in front as they were, and a free block behind.
  pub record Added (heap' : Heap) : Type 0 where
    pub old : (a : ℕ) → c ≤ a → a < c + k * 16 → Keeps heap heap' a
    pub rest_size : block_size (heap'.words (c + k * 16)) ≡ m
    pub rest_free : allocated (heap'.words (c + k * 16)) ≡ 0

  place_rest-pushed :
      (i listi : ℕ)
      → list_of_size list_maxima (block_size ((unlinked i).words b) * 16) ≡ some listi
      → place_rest heap i b m ≡ some (pushed i listi)
  unfolding place_rest ended unlinked pushed
  place_rest-pushed i listi found = rw (place_rest, found) refl

  pub add_rest-Added :
      (i : ℕ)
      → block_size (heap.words c) ≡ k
      → (heap' : Heap) × (add_rest heap i c m ≡ some heap') × Added heap'
  unfolding add_rest b ended
  add_rest-Added i size =
      let fields = rest_header-fields heap b m (omega (arith, small)) in
      let (listi, found) = list_of_size-some (m * 16) (omega (arith, small)) in
      let whole = ap block_size (unlinked-header i) ∙ fields.0 in
      let placed =
        place_rest-pushed i listi (ap (λ n. list_of_size list_maxima (n * 16)) whole ∙ found) in
      let last =
        (pushed-Keeps i listi b (omega arith) (omega (arith, large)) (λ e. omega (arith, e))
          (λ e. omega (arith, e))).word
        ∙ end_rest-header heap b m (omega (arith, small))
            (λ e. omega (arith, e, large, fits_memory)) in
      (
        pushed i listi,
        ap (λ n. place_rest heap i (c + n * 16) m) size ∙ placed,
        record {
          old = λ a low high. pushed-old i listi a low high;
          rest_size = ap block_size last ∙ fields.0;
          rest_free = ap allocated last ∙ fields.1;
        },
      )
