-- ===== src/Alloc/Malloc/Inside.antt =====
-- Blocks of hw3/src/sfmm.c, and pointers that point elsewhere.
use system_fundamentals_c_pr.Base.{
  ℕ, zero, suc, ◌+◌, ◌*◌, ◌≤◌, ◌<◌, ◌≡◌, ◌≢◌, ◌⊎◌, inl, inr, List, [], ◌∷◌, get_or, set, arith,
}
use system_fundamentals_c_pr.Alloc.Memory.{next_of, prev_of}

-- A pointer that is NULL, or one to a header and two links outside of the n * 16 bytes from `c` on.
abbrev pub IsApart : ℕ → ℕ → ℕ → Type 0
IsApart c n p = (p ≡ 0) ⊎ ((p + 24 ≤ c) ⊎ (c + n * 16 ≤ p))

module _ (c n : ℕ) where
  pub IsApart-next : (p a : ℕ) → IsApart c n p → p ≢ 0 → c ≤ a → a < c + n * 16 → a ≢ next_of p
  IsApart-next p a (inl z) some_p l u e = some_p z
  IsApart-next p a (inr (inl h)) some_p l u e = omega (arith, h, l, u, e)
  IsApart-next p a (inr (inr h)) some_p l u e = omega (arith, h, l, u, e)

  pub IsApart-prev : (p a : ℕ) → IsApart c n p → p ≢ 0 → c ≤ a → a < c + n * 16 → a ≢ prev_of p
  IsApart-prev p a (inl z) some_p l u e = some_p z
  IsApart-prev p a (inr (inl h)) some_p l u e = omega (arith, h, l, u, e)
  IsApart-prev p a (inr (inr h)) some_p l u e = omega (arith, h, l, u, e)

  -- No list begins in the block.
  abbrev pub NoHead : List ℕ → Type 0
  NoHead heads = (j : ℕ) → IsApart c n (get_or heads j 0)

  pub NoHead-set :
      (heads : List ℕ) (i p : ℕ) → NoHead heads → IsApart c n p → NoHead (set heads i p)
  NoHead-set [] i p h q j = h j
  NoHead-set (x ∷ heads) zero p h q zero = q
  NoHead-set (x ∷ heads) zero p h q (suc j) = h (suc j)
  NoHead-set (x ∷ heads) (suc i) p h q zero = h 0
  NoHead-set (x ∷ heads) (suc i) p h q (suc j) = NoHead-set heads i p (λ k. h (suc k)) q j
