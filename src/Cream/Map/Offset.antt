-- ===== src/Cream/Map/Offset.antt =====
-- The indices that the probing of hw5/src/hashmap.c visits, `(start + d) % capacity`.
use native.Mathlib.Decide.{dec_lt}
use native.Mathlib.Nat.{mod-eq_of_lt, mod-eq-sub-mod, mod-add-mod}
use system_fundamentals_c_pr.Base.{
  ℕ, ◌+◌, ◌-◌, ◌%◌, ◌≤◌, ◌<◌, ◌≡◌, ◌≢◌, ◌⊎◌, inl, inr, ap, ◌∙◌, arith,
}

-- The index at an offset from the start of the probe.
abbrev pub slot : ℕ → ℕ → ℕ → ℕ
slot capacity start d = (start + d) % capacity

pub slot_low : (capacity start d : ℕ) → start + d < capacity → slot capacity start d ≡ start + d
slot_low capacity start d h = mod-eq_of_lt h

pub slot_high :
    (capacity start d : ℕ)
    → start < capacity
    → d ≤ capacity
    → capacity ≤ start + d
    → slot capacity start d ≡ start + d - capacity
slot_high capacity start d s l h = mod-eq-sub-mod h ∙ mod-eq_of_lt (omega arith)

-- An offset up to the capacity, in numbers.
pub slot_value :
    (capacity start d : ℕ)
    → start < capacity
    → d ≤ capacity
    → ((start + d < capacity) × (slot capacity start d ≡ start + d))
      ⊎ ((capacity ≤ start + d) × (slot capacity start d ≡ start + d - capacity))
slot_value capacity start d s l = elim (dec_lt (start + d) capacity) [
  | yes h ↦ inl (h, slot_low capacity start d h)
  | no h ↦ inr (omega arith, slot_high capacity start d s l (omega arith))
]

module _ (capacity start : ℕ) (s : start < capacity) where
  pub slot-lt : (d : ℕ) → d ≤ capacity → slot capacity start d < capacity
  slot-lt d l = omega (arith, slot_value capacity start d s l)

  pub slot_ne_start : (d : ℕ) → 0 < d → d < capacity → slot capacity start d ≢ start
  slot_ne_start d p l = omega (arith, slot_value capacity start d s (omega arith))

  pub slot_round : slot capacity start capacity ≡ start
  slot_round = omega (arith, slot_value capacity start capacity s (omega arith))

  pub slot_zero : slot capacity start 0 ≡ start
  slot_zero = omega (arith, slot_value capacity start 0 s (omega arith))

  pub slot_step :
      (d : ℕ) → d < capacity → (slot capacity start d + 1) % capacity ≡ slot capacity start (d + 1)
  slot_step d l = mod-add-mod (start + d) capacity 1 ∙ ap (λ (n : ℕ). n % capacity) (omega arith)

  pub slot_injective :
      (d e : ℕ)
      → d < capacity
      → e < capacity
      → slot capacity start d ≡ slot capacity start e
      → d ≡ e
  slot_injective d e hd he h = omega (
    arith,
    slot_value capacity start d s (omega arith),
    slot_value capacity start e s (omega arith),
  )

  -- Every index is some offset.
  pub offset_of : (i : ℕ) → i < capacity → (d : ℕ) × (d < capacity) × (slot capacity start d ≡ i)
  offset_of i h = elim (dec_lt i start) [
    | yes l ↦ (
      i + capacity - start,
      omega arith,
      omega (arith, slot_value capacity start (i + capacity - start) s (omega arith)),
    )
    | no l ↦ (
      i - start,
      omega arith,
      omega (arith, slot_value capacity start (i - start) s (omega arith)),
    )
  ]
