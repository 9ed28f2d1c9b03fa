-- ===== src/Alloc/Malloc/Close.antt =====
-- The words of the block that `sf_malloc` of hw3/src/sfmm.c gives away.
use system_fundamentals_c_pr.Base.{
  ℕ, ◌+◌, ◌*◌, ◌/◌, ◌^◌, ◌≤◌, ◌<◌, ◌≡◌, ◌≢◌, refl, ap, ◌∙◌, sym, arith, ==_refl,
}
use system_fundamentals_c_pr.Alloc.Memory.{
  Heap, store, allocated, padded, block_size, requested_size, set_allocated, set_padded,
  set_block_size, set_requested_size, next_of, prev_of, below,
}
use system_fundamentals_c_pr.Alloc.Keeps.{Keeps, Keeps-trans, store-Keeps, footer-ne}
use system_fundamentals_c_pr.Alloc.Malloc.{take_front, take_back, take_out, open_block, close_block}
use system_fundamentals_c_pr.Alloc.Malloc.Inside.{IsApart}
use system_fundamentals_c_pr.Alloc.Malloc.Links.{take_front-Keeps, take_back-Keeps, take_back-next}

-- A block of n * 16 bytes from `c` on whose links point elsewhere.
module _ (heap : Heap) (c n i : ℕ) (room : 2 ≤ n) where
  module _ (next_apart : IsApart c n (heap.words (next_of c)))
      (prev_apart : IsApart c n (heap.words (prev_of c))) where
    front_next : (take_front heap i c).words (next_of c) ≡ heap.words (next_of c)
    front_next =
        (take_front-Keeps c n (next_of c) (omega arith) (omega (arith, room)) heap i c
          prev_apart).word

    pub take_out-Keeps :
        (a : ℕ)
        → c ≤ a
        → a < c + n * 16
        → a ≢ next_of c
        → a ≢ prev_of c
        → Keeps heap (take_out heap i c) a
    unfolding take_out
    take_out-Keeps a low high ne ne' =
        let front = take_front heap i c in
        let back = take_back front c in
        Keeps-trans heap back (take_out heap i c) a
          (Keeps-trans heap front back a (take_front-Keeps c n a low high heap i c prev_apart)
            (take_back-Keeps c n a low high front c ne (rw front_next next_apart)))
          (store-Keeps back a (prev_of c) 0 ne')

  pub take_out-next : (take_out heap i c).words (next_of c) ≡ 0
  unfolding take_out
  take_out-next =
      (store-Keeps (take_back (take_front heap i c) c) (next_of c) (prev_of c) 0
        (λ e. omega (arith, e))).word
      ∙ take_back-next (take_front heap i c) c

-- `open_block` on a block of n * 16 bytes.
module _ (heap : Heap) (c n : ℕ) (whole : block_size (heap.words c) ≡ n) (positive : 0 < n)
    (fits_memory : c + n * 16 < 2 ^ 64) where
  marked_size : block_size (set_allocated (heap.words c) 1) ≡ n
  marked_size = omega (arith, whole)

  open_footer :
      below (c + block_size ((store heap c (set_allocated (heap.words c) 1)).words c) * 16)
      ≡ below (c + n * 16)
  open_footer = rw (==_refl c, marked_size) refl

  pub open_block-Keeps : (a : ℕ) → a ≢ c → a ≢ below (c + n * 16) → Keeps heap (open_block heap c) a
  unfolding open_block
  open_block-Keeps a ne far =
      let marked = store heap c (set_allocated (heap.words c) 1) in
      Keeps-trans heap marked (open_block heap c) a (store-Keeps heap a c _ ne)
        (store-Keeps marked a _ 0 (rw open_footer far))

  pub open_block-header : (open_block heap c).words c ≡ set_allocated (heap.words c) 1
  unfolding open_block
  open_block-header =
      (store-Keeps (store heap c (set_allocated (heap.words c) 1)) c _ 0
        (rw open_footer (footer-ne c n positive fits_memory))).word
      ∙ rw (==_refl c) refl

  pub open_block-footer : (open_block heap c).words (below (c + n * 16)) ≡ 0
  unfolding open_block
  open_block-footer = rw (open_footer, ==_refl (below (c + n * 16))) refl

-- The words that `close_block` writes.
module _ (heap : Heap) (c k padding size : ℕ) where
  pub closed_header : ℕ
  closed_header = set_padded (set_block_size (heap.words c) k) padding

  pub closed_footer : ℕ
  closed_footer =
      set_requested_size
        (set_block_size (set_padded (set_allocated (heap.words (below (c + k * 16))) 1) padding) k)
        size

  pub closed_header-fields :
      k < 2 ^ 28
      → padding ≤ 1
      → (block_size closed_header ≡ k)
        × (padded closed_header ≡ padding)
        × (allocated closed_header ≡ allocated (heap.words c))
  unfolding closed_header
  closed_header-fields l p = (omega (arith, l, p), omega (arith, l, p), omega (arith, l, p))

  pub closed_footer-fields :
      k < 2 ^ 28
      → padding ≤ 1
      → size < 2 ^ 32
      → (block_size closed_footer ≡ k)
        × (padded closed_footer ≡ padding)
        × (allocated closed_footer ≡ 1)
        × (requested_size closed_footer ≡ size)
  unfolding closed_footer
  closed_footer-fields l p s = (
    omega (arith, l, p, s),
    omega (arith, l, p, s),
    omega (arith, l, p, s),
    omega (arith, l, p, s),
  )

module _ (heap : Heap) (c required padding size : ℕ) (k_small : required / 16 < 2 ^ 28)
    (k_positive : 0 < required / 16) (bit : padding ≤ 1)
    (fits_memory : c + required / 16 * 16 < 2 ^ 64) where
  headed : Heap
  unfolding closed_header
  headed = store heap c (closed_header heap c (required / 16) padding size)

  headed_word : headed.words c ≡ closed_header heap c (required / 16) padding size
  unfolding headed
  headed_word = rw (==_refl c) refl

  headed_size : block_size (headed.words c) ≡ required / 16
  headed_size =
      ap block_size headed_word
      ∙ (closed_header-fields heap c (required / 16) padding size k_small bit).0

  headed_footer : below (c + block_size (headed.words c) * 16) ≡ below (c + required / 16 * 16)
  headed_footer = ap (λ k. below (c + k * 16)) headed_size

  pub close_block-Keeps :
      (a : ℕ)
      → a ≢ c
      → a ≢ below (c + required / 16 * 16)
      → Keeps heap (close_block heap c required padding size) a
  unfolding close_block headed closed_header
  close_block-Keeps a ne far =
      Keeps-trans heap headed (close_block heap c required padding size) a
        (store-Keeps heap a c (closed_header heap c (required / 16) padding size) ne)
        (store-Keeps headed a (below (c + block_size (headed.words c) * 16)) _
          (rw headed_footer far))

  pub close_block-header :
      (close_block heap c required padding size).words c
      ≡ closed_header heap c (required / 16) padding size
  unfolding close_block headed closed_header
  close_block-header =
      (store-Keeps headed c (below (c + block_size (headed.words c) * 16)) _
        (rw headed_footer (footer-ne c (required / 16) k_positive fits_memory))).word
      ∙ headed_word

  old_footer :
      headed.words (below (c + required / 16 * 16)) ≡ heap.words (below (c + required / 16 * 16))
  unfolding headed
  old_footer =
      (store-Keeps heap (below (c + required / 16 * 16)) c _
        (λ e. footer-ne c (required / 16) k_positive fits_memory (sym e))).word

  pub close_block-footer :
      (close_block heap c required padding size).words (below (c + required / 16 * 16))
      ≡ closed_footer heap c (required / 16) padding size
  unfolding close_block headed closed_header closed_footer
  close_block-footer =
      rw (headed_footer, ==_refl (below (c + required / 16 * 16)), old_footer, headed_size) refl
