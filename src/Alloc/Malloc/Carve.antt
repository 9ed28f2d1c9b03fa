-- ===== src/Alloc/Malloc/Carve.antt =====
-- `carve` of hw3/src/sfmm.c on a block of a free list.
use mathlib.Core.Path.{subst, subst⁻¹}
use system_fundamentals_c_pr.Base.{
  ℕ, ◌+◌, ◌*◌, ◌/◌, ◌^◌, ◌≤◌, ◌<◌, ◌≡◌, ◌≢◌, inl, inr, refl, ap, ◌∙◌, ◌==◌, ltb, some, arith,
  Bool-cases, ==_of_ne,
}
use system_fundamentals_c_pr.Alloc.Memory.{
  Heap, allocated, padded, block_size, requested_size, next_of, prev_of, below,
}
use system_fundamentals_c_pr.Alloc.Keeps.{Keeps, Keeps-refl}
use system_fundamentals_c_pr.Alloc.Malloc.{
  Search, take_out, open_block, close_block, chosen_size, chosen_padding, size_of_rest, split_block,
  found_at, carve,
}
use system_fundamentals_c_pr.Alloc.Malloc.Inside.{IsApart, NoHead}
use system_fundamentals_c_pr.Alloc.Malloc.Rest.{add_rest-Added}
use system_fundamentals_c_pr.Alloc.Malloc.Close.{
  take_out-Keeps, take_out-next, open_block-Keeps, open_block-header, open_block-footer,
  close_block-Keeps, close_block-header, close_block-footer, closed_header-fields,
  closed_footer-fields,
}
use system_fundamentals_c_pr.Alloc.Malloc.Sizes.{IsStart, Suits, chosen-Suits}

-- A block of n * 16 bytes in a list, whose links, and whose other words as far as they are taken for
-- links, do not point into it; and no list begins in it when it is out of its list.
pub record CanGive (heap : Heap) (i c n : ℕ) : Type 0 where
  pub whole : block_size (heap.words c) ≡ n
  pub small : n < 4096
  pub fits_memory : c + n * 16 < 2 ^ 64
  pub next_apart : IsApart c n (heap.words (next_of c))
  pub prev_apart : IsApart c n (heap.words (prev_of c))
  pub contents : (a : ℕ) → c + 24 ≤ a → a < c + n * 16 → IsApart c n (heap.words a)
  pub no_head : NoHead c n (take_out heap i c).heads

-- The header and the footer of the block that is given away for `size` bytes, out of n * 16.
pub record IsGiven (heap heap' : Heap) (size c n : ℕ) : Type 0 where
  pub count : ℕ
  pub padding : ℕ
  pub suits : Suits size n count padding
  pub header_size : block_size (heap'.words c) ≡ count
  pub header_padded : padded (heap'.words c) ≡ padding
  pub header_allocated : allocated (heap'.words c) ≡ 1
  pub footer_size : block_size (heap'.words (below (c + count * 16))) ≡ count
  pub footer_padded : padded (heap'.words (below (c + count * 16))) ≡ padding
  pub footer_allocated : allocated (heap'.words (below (c + count * 16))) ≡ 1
  pub footer_requested : requested_size (heap'.words (below (c + count * 16))) ≡ size
  pub unlinked : heap'.words (next_of c) ≡ 0
  pub lower : heap'.heap_start ≡ heap.heap_start
  pub upper : heap'.heap_end ≡ heap.heap_end

module _ (heap : Heap) (i c n : ℕ) (can : CanGive heap i c n) (room : 2 ≤ n) where
  taken : Heap
  taken = take_out heap i c

  opened : Heap
  unfolding taken
  opened = open_block taken c

  taken-Keeps :
      (a : ℕ) → c ≤ a → a < c + n * 16 → a ≢ next_of c → a ≢ prev_of c → Keeps heap taken a
  unfolding taken
  taken-Keeps = take_out-Keeps heap c n i room can.next_apart can.prev_apart

  taken-header : Keeps heap taken c
  taken-header =
      taken-Keeps c (omega arith) (omega (arith, room)) (λ e. omega (arith, e))
        (λ e. omega (arith, e))

  taken-whole : block_size (taken.words c) ≡ n
  taken-whole = ap block_size taken-header.word ∙ can.whole

  positive : 0 < n
  positive = omega (arith, room)

  opened-whole : block_size (opened.words c) ≡ n
  unfolding opened
  opened-whole =
      ap block_size (open_block-header taken c n taken-whole positive can.fits_memory)
      ∙ omega (arith, taken-whole)

  opened-allocated : allocated (opened.words c) ≡ 1
  unfolding opened
  opened-allocated =
      ap allocated (open_block-header taken c n taken-whole positive can.fits_memory) ∙ omega arith

  opened-Keeps : (a : ℕ) → a ≢ c → a ≢ below (c + n * 16) → Keeps taken opened a
  unfolding opened
  opened-Keeps = open_block-Keeps taken c n taken-whole positive can.fits_memory

  taken-next : taken.words (next_of c) ≡ 0
  unfolding taken
  taken-next = take_out-next heap c n i room

  opened-next : opened.words (next_of c) ≡ 0
  opened-next =
      (opened-Keeps (next_of c) (λ e. omega (arith, e))
        (λ e. omega (arith, e, room, can.fits_memory))).word
      ∙ taken-next

  -- The words behind the links are the old ones, but for the footer, which is 0.
  opened-contents : (a : ℕ) → c + 24 ≤ a → a < c + n * 16 → IsApart c n (opened.words a)
  unfolding opened
  opened-contents a low high = elim (Bool-cases (a == below (c + n * 16))) [
    | inl e ↦
        let here : a ≡ below (c + n * 16) = ground (arith, e) in
        inl (
          ap (λ x. opened.words x) here
          ∙ open_block-footer taken c n taken-whole positive can.fits_memory)
    | inr e ↦
        let far : a ≢ below (c + n * 16) = ground (arith, e) in
        let k = opened-Keeps a (λ h. omega (arith, h, low)) far in
        let l =
          taken-Keeps a (omega (arith, low)) high (λ h. omega (arith, h, low))
            (λ h. omega (arith, h, low)) in
        rw (k.word ∙ l.word) (can.contents a low high)
  ]

  opened-heads : NoHead c n opened.heads
  unfolding taken opened open_block
  opened-heads = can.no_head

  module _ (size required padding : ℕ) (start : IsStart size required padding)
      (fitting : required / 16 ≤ n) where
    chosen : ℕ
    chosen = chosen_size n required

    flag : ℕ
    flag = chosen_padding n required padding

    suits : Suits size n (chosen / 16) flag
    unfolding chosen flag
    suits = chosen-Suits size n required padding start fitting

    bit : flag ≤ 1
    bit = elim suits.exact [ inl (p, q) ↦ omega (arith, p) | inr (p, q) ↦ omega (arith, p) ]

    count_small : chosen / 16 < 2 ^ 28
    count_small = omega (arith, suits.inside, can.small)

    ends_low : c + chosen / 16 * 16 < 2 ^ 64
    ends_low = omega (arith, suits.inside, can.fits_memory)

    module _ (some_size : 0 < size) (size_small : size < 2 ^ 32) where
      count_large : 2 ≤ chosen / 16
      count_large = omega (arith, suits.enough, some_size)

      count_positive : 0 < chosen / 16
      count_positive = omega (arith, count_large)

      closed : Heap
      closed = close_block opened c chosen flag size

      closed-Keeps : (a : ℕ) → a ≢ c → a ≢ below (c + chosen / 16 * 16) → Keeps opened closed a
      unfolding closed
      closed-Keeps =
          close_block-Keeps opened c chosen flag size count_small count_positive bit ends_low

      -- A heap that keeps the words that were written has given the block away.
      IsGiven-kept :
          (heap' : Heap)
          → Keeps closed heap' c
          → Keeps closed heap' (next_of c)
          → Keeps closed heap' (below (c + chosen / 16 * 16))
          → IsGiven heap heap' size c n
      unfolding closed
      IsGiven-kept heap' k l r =
          let h = closed_header-fields opened c (chosen / 16) flag size count_small bit in
          let f =
            closed_footer-fields opened c (chosen / 16) flag size count_small bit size_small in
          let header =
            k.word
            ∙ close_block-header opened c chosen flag size count_small count_positive bit
                ends_low in
          let footer =
            r.word
            ∙ close_block-footer opened c chosen flag size count_small count_positive bit
                ends_low in
          let next =
            closed-Keeps (next_of c) (λ e. omega (arith, e))
              (λ e. omega (arith, e, count_large, ends_low)) in
          let far =
            opened-Keeps (next_of c) (λ e. omega (arith, e))
              (λ e. omega (arith, e, room, can.fits_memory)) in
          record {
            count = chosen / 16;
            padding = flag;
            suits = suits;
            header_size = ap block_size header ∙ h.0;
            header_padded = ap padded header ∙ h.1;
            header_allocated = ap allocated header ∙ h.2 ∙ opened-allocated;
            footer_size = ap block_size footer ∙ f.0;
            footer_padded = ap padded footer ∙ f.1;
            footer_allocated = ap allocated footer ∙ f.2;
            footer_requested = ap requested_size footer ∙ f.3;
            unlinked = l.word ∙ next.word ∙ opened-next;
            lower = l.lower ∙ next.lower ∙ far.lower ∙ taken-header.lower;
            upper = l.upper ∙ next.upper ∙ far.upper ∙ taken-header.upper;
          }

      split_whole :
          size_of_rest n chosen ≡ 0
          → IsGiven heap closed size c n
            × (split_block size i c opened n required padding
                ≡ some (found_at c chosen flag closed))
      unfolding split_block chosen flag closed
      split_whole e = (
        IsGiven-kept closed (Keeps-refl closed c) (Keeps-refl closed (next_of c))
            (Keeps-refl closed (below (c + chosen / 16 * 16))),
        rw (split_block, e) refl,
      )

      rest_count :
          size_of_rest n chosen ≢ 0
          → (n ≡ chosen / 16 + size_of_rest n chosen) × (2 ≤ size_of_rest n chosen)
      unfolding size_of_rest
      rest_count ne = elim (Bool-cases (ltb (chosen / 16) n)) [
        | inr e ↦ absurd (ne (rw (size_of_rest, e) refl))
        | inl e ↦
            let l : chosen / 16 < n = ground (arith, e) in
            rw (size_of_rest, e) (omega (arith, l), omega (arith, l, suits.no_splinter))
      ]

      closed-contents :
          (a : ℕ) → c + chosen / 16 * 16 ≤ a → a < c + n * 16 → IsApart c n (closed.words a)
      closed-contents a low high =
          let k =
            closed-Keeps a (λ e. omega (arith, e, low, count_large))
              (λ e. omega (arith, e, low, count_large, ends_low)) in
          rw k.word (opened-contents a (omega (arith, low, count_large)) high)

      closed-heads : NoHead c n closed.heads
      unfolding closed close_block
      closed-heads = opened-heads

      closed-count : block_size (closed.words c) ≡ chosen / 16
      unfolding closed
      closed-count =
          ap block_size
            (close_block-header opened c chosen flag size count_small count_positive bit ends_low)
          ∙ (closed_header-fields opened c (chosen / 16) flag size count_small bit).0

      split_in_two :
          size_of_rest n chosen ≢ 0
          → (heap' : Heap) × IsGiven heap heap' size c n
            × (split_block size i c opened n required padding ≡ some (found_at c chosen flag heap'))
      unfolding split_block chosen flag closed
      split_in_two ne =
          let m = size_of_rest n chosen in
          let (e, large) = rest_count ne in
          let (heap', added, a) =
            add_rest-Added closed c (chosen / 16) m large (subst (λ x. x < 4096) e can.small)
              (subst (λ x. c + x * 16 < 2 ^ 64) e can.fits_memory)
              (subst (λ x. NoHead c x closed.heads) e closed-heads)
              (λ a low high.
                subst (λ x. IsApart c x (closed.words a)) e
                  (closed-contents a low (subst⁻¹ (λ x. a < c + x * 16) e high)))
              i closed-count in
          (
            heap',
            IsGiven-kept heap' (a.old c (omega arith) (omega (arith, count_large)))
                (a.old (next_of c) (omega arith) (omega (arith, count_large)))
                (a.old (below (c + chosen / 16 * 16)) (omega (arith, count_large, ends_low))
                  (omega (arith, count_large, ends_low))),
            rw (split_block, ==_of_ne m 0 ne, added) refl,
          )

-- The search before it has found a block.
abbrev pub searching : Heap → ℕ → ℕ → Search
searching heap required padding = record {
  heap = heap;
  allocated_block = 0;
  required_size = required;
  padding = padding;
}

-- `carve` on such a block gives it away.
pub carve-IsGiven :
    (heap : Heap) (i c n size required padding : ℕ)
    → CanGive heap i c n
    → 2 ≤ n
    → IsStart size required padding
    → required / 16 ≤ n
    → 0 < size
    → size < 2 ^ 32
    → (s : Search) × IsGiven heap s.heap size c n
      × (s.allocated_block ≡ c + 8)
      × (carve size i c (searching heap required padding) ≡ some s)
unfolding carve chosen taken opened
carve-IsGiven heap i c n size required padding can room start fitting l u =
    let whole = opened-whole heap i c n can room in
    let rest = size_of_rest n (chosen heap i c n can room size required padding start fitting) in
    elim (Bool-cases (rest == 0)) [
      | inl e ↦
          let (given, split) =
            split_whole heap i c n can room size required padding start fitting l u
              (ground (arith, e)) in
          (
            _,
            given,
            refl,
            ap (λ w. split_block size i c (opened heap i c n can room) w required padding) whole
                ∙ split,
          )
      | inr e ↦
          let (heap', given, split) =
            split_in_two heap i c n can room size required padding start fitting l u
              (ground (arith, e)) in
          (
            _,
            given,
            refl,
            ap (λ w. split_block size i c (opened heap i c n can room) w required padding) whole
                ∙ split,
          )
    ]
