-- ===== src/Cream/Map/Congruence.antt =====
-- Keys that are equal though they stand at different addresses (hw5/src/hashmap.c).
use system_fundamentals_c_pr.Base.{
  ℕ, zero, suc, ◌+◌, ◌%◌, ◌≡◌, inl, inr, refl, ap, ◌∙◌, sym, Bool, true, not, ◌&&◌, ◌||◌, List,
  arith, Bool-cases,
}
use system_fundamentals_c_pr.Cream.Map.{
  Key, Node, HashMap, node_at, get_keys_equal, node_is_empty, node_has_key, can_put_key, probe,
  probe_index, get_value,
}
use system_fundamentals_c_pr.Cream.Map.Placed.{IsEquivalence, equal_sym, equal_trans}

module _ (same : ℕ → ℕ → Bool) (law : IsEquivalence same) (k k' : Key)
    (equal : get_keys_equal same k k' ≡ true) where
  pub equal_congr : (x : Key) → get_keys_equal same x k ≡ get_keys_equal same x k'
  equal_congr x = elim (Bool-cases (get_keys_equal same x k)) [
    | inl e ↦ e ∙ sym (equal_trans same law x k k' e equal)
    | inr e ↦ elim (Bool-cases (get_keys_equal same x k')) [
      | inl f ↦ absurd (cc (e, equal_trans same law x k' k f (equal_sym same law k k' equal)))
      | inr f ↦ e ∙ sym f
    ]
  ]

  has_congr : (n : Node) → node_has_key same n k ≡ node_has_key same n k'
  unfolding node_has_key
  has_congr n = ap (λ b. not n.tombstone && b) (equal_congr n.key)

  can_put_congr : (n : Node) → can_put_key same n k ≡ can_put_key same n k'
  unfolding can_put_key
  can_put_congr n = ap (λ b. node_is_empty same n || b) (has_congr n)

  probe_congr :
      (fuel : ℕ) (nodes : List Node) (capacity start index : ℕ)
      → probe same fuel nodes capacity k start index ≡ probe same fuel nodes capacity k' start index
  unfolding probe
  probe_congr zero nodes capacity start index = refl
  probe_congr (suc fuel) nodes capacity start index =
      rw
        (
          can_put_congr (node_at nodes index),
          probe_congr fuel nodes capacity start ((index + 1) % capacity),
        )
        refl

  module _ (hash : Key → ℕ) (hashed : hash k ≡ hash k') (m : HashMap) where
    probe_index_congr : probe_index same hash m k ≡ probe_index same hash m k'
    probe_index_congr =
        probe_congr m.capacity m.nodes m.capacity (hash k % m.capacity)
          ((hash k % m.capacity + 1) % m.capacity)
        ∙ ap
            (λ h.
              probe same m.capacity m.nodes m.capacity k' (h % m.capacity)
                ((h % m.capacity + 1) % m.capacity))
            hashed

    -- `get` finds the same for both keys.
    pub get_value_congr : get_value same hash m k ≡ get_value same hash m k'
    unfolding get_value
    get_value_congr = ground (
      arith,
      hashed,
      probe_index_congr,
      has_congr (node_at m.nodes (hash k % m.capacity)),
      has_congr (node_at m.nodes (probe_index same hash m k)),
    )
