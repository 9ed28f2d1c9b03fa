-- ===== src/Cream/Map/Delete.antt =====
-- `delete` of hw5/src/hashmap.c: a key in its own node, and a key that probing had put elsewhere.
use system_fundamentals_c_pr.Base.{
  ℕ, zero, suc, ◌+◌, ◌-◌, ◌%◌, ◌^◌, ◌≤◌, ◌<◌, ◌≡◌, inr, ap, ◌∙◌, sym, Bool, true, false,
  get_or-set_self, get_or-set_ne, arith, none, some, pos,
}
use system_fundamentals_c_pr.Cream.Map.{
  Key, map_key, Node, null_node, HashMap, returns, node_at, get_keys_equal, node_is_empty,
  node_has_key, can_put_key, get_value, set_tombstone, delete_nodes, delete, get,
}
use system_fundamentals_c_pr.Cream.Map.Offset.{slot_ne_start}
use system_fundamentals_c_pr.Cream.Map.Probe.{Missed, Ends}
use system_fundamentals_c_pr.Cream.Map.Lookup.{
  IsReady, cannot_put, can_put_of_key, start, node, start-lt, node_zero, probed, get_value_found,
}

-- The map that `delete` leaves, where it marks the node at the key's own index.
abbrev pub marked : (ℕ → ℕ → Bool) → (Key → ℕ) → HashMap → Key → HashMap
marked same hash m key = record m {
  nodes = set_tombstone m.nodes (start same hash m key);
  size = (m.size + 2 ^ 32 - 1) % 2 ^ 32;
  num_readers = pos 0;
}

module _ (same : ℕ → ℕ → Bool) (hash : Key → ℕ) (m : HashMap) (key : Key) (ready : IsReady m) where
  dead : (n : Node) → can_put_key same (record n { tombstone = true }) key ≡ false
  unfolding can_put_key node_is_empty node_has_key
  dead n = ground arith

  marked-start :
      node same hash (marked same hash m key) key 0
      ≡ record (node_at m.nodes (start same hash m key)) { tombstone = true }
  marked-start =
      node_zero same hash (marked same hash m key) key ready.positive
      ∙ get_or-set_self m.nodes (start same hash m key) _ null_node
          (omega (arith, ready.allocated, start-lt same hash m key ready.positive))

  marked_other :
      (d : ℕ)
      → 0 < d
      → d < m.capacity
      → node same hash (marked same hash m key) key d ≡ node same hash m key d
  marked_other d p l = get_or-set_ne m.nodes (start same hash m key) _ _ null_node λ e.
      slot_ne_start m.capacity (start same hash m key) (start-lt same hash m key ready.positive) d p
        l (sym e)

  marked-Missed :
      (w : ℕ)
      → w ≤ m.capacity
      → ((d : ℕ) → 0 < d → d < w → can_put_key same (node same hash m key d) key ≡ false)
      → Missed same (marked same hash m key).nodes m.capacity key (start same hash m key) w
  marked-Missed w l h zero p = rw marked-start (dead (node_at m.nodes (start same hash m key)))
  marked-Missed w l h (suc d) p =
      rw (marked_other (suc d) (omega arith) (omega arith)) (h (suc d) (omega arith) p)

  -- A key that stands elsewhere than in its own node is returned by `delete`, and is still found by
  -- `get` afterwards with the same value: the tombstone is set in the node of another key.
  pub get-delete_displaced :
      get_keys_equal same key (map_key 0 0) ≡ false
      → (w : ℕ) → 0 < w
      → w < m.capacity
      → Missed same m.nodes m.capacity key (start same hash m key) w
      → node_has_key same (node same hash m key w) key ≡ true
      → node_is_empty same (node same hash m key w) ≡ false
      → (delete same hash (some m) key
          ≡ returns (node same hash m key w) none (some (marked same hash m key)))
        × (get same hash (some (marked same hash m key)) key
            ≡ returns (node same hash m key w).val none (some (marked same hash m key)))
  unfolding get delete delete_nodes
  get-delete_displaced valid zero p l miss has full = absurd (omega arith)
  get-delete_displaced valid (suc w) p l miss has full =
      let ends : Ends same m.nodes m.capacity key (start same hash m key) (suc w) = record {
        within = omega arith;
        missed = miss;
        found = inr (l, can_put_of_key same _ _ has);
      } in
      let home = cannot_put same (node same hash m key 0) key (miss 0 (omega arith)) in
      let after : get_value same hash (marked same hash m key) key
          ≡ (node same hash m key (suc w)).val =
        get_value_found same hash (marked same hash m key) key ready.positive (suc w) l
          (marked-Missed (suc w) (omega arith) λ d q r. miss d r)
          (rw (marked_other (suc w) p l) has) (rw (marked_other (suc w) p l) full)
        ∙ ap (λ (n : Node). n.val) (marked_other (suc w) p l) in
      (
        ground (
          arith,
          valid,
          ready.valid,
          ready.idle,
          node_zero same hash m key ready.positive,
          home,
          probed same hash m key ready.positive w ends,
        ),
        ground (arith, valid, ready.valid, after),
      )
