-- ===== src/Cream/Map/Marked.antt =====
-- What `delete` of hw5/src/hashmap.c keeps of the other keys' places.
use native.Mathlib.Decide.{ℕ_discrete}
use system_fundamentals_c_pr.Base.{
  ℕ, ◌+◌, ◌-◌, ◌%◌, ◌^◌, ◌≡◌, ◌⊎◌, inl, inr, refl, ap, ◌∙◌, sym, Bool, true, false, List, length,
  length-set, get_or-set_self, get_or-set_ne, arith, Bool-cases, none, some, pos,
}
use system_fundamentals_c_pr.Cream.Map.{
  Key, map_key, Node, null_node, HashMap, returns, node_at, get_keys_equal, node_is_empty,
  node_has_key, probe_index, set_tombstone, delete_nodes, delete,
}
use system_fundamentals_c_pr.Cream.Map.Offset.{slot}
use system_fundamentals_c_pr.Cream.Map.Lookup.{IsReady, start, start-lt}
use system_fundamentals_c_pr.Cream.Map.Placed.{IsPlaced}

module _ (same : ℕ → ℕ → Bool) where
  tombstone_has :
      (n : Node) (k : Key)
      → (node_is_empty same (record n { tombstone = true }) ≡ false)
        × (node_has_key same (record n { tombstone = true }) k ≡ false)
  unfolding node_is_empty node_has_key
  tombstone_has n k = (ground arith, ground arith)

module _ (same : ℕ → ℕ → Bool) (hash : Key → ℕ) (m : HashMap) (key : Key) where
  delete_nodes-cases :
      ((delete_nodes same hash m key).1 ≡ m.nodes)
      ⊎ ((delete_nodes same hash m key).1 ≡ set_tombstone m.nodes (start same hash m key))
  unfolding delete_nodes
  delete_nodes-cases =
      elim (Bool-cases (node_is_empty same (node_at m.nodes (start same hash m key)))) [
        | inl e ↦ inl (rw e refl)
        | inr f ↦
            elim (Bool-cases (node_has_key same (node_at m.nodes (start same hash m key)) key)) [
              | inl h ↦ inr (rw (f, h) refl)
              | inr h ↦
                  elim (Bool-cases
                    (node_has_key same (node_at m.nodes (probe_index same hash m key)) key)) [
                      | inl g ↦ inr (rw (f, h, g) refl)
                      | inr g ↦ inl (rw (f, h, g) refl)
                    ]
            ]
      ]

  -- The map that `delete` leaves, whatever it found.
  abbrev pub deleted : HashMap
  deleted = record m {
    nodes = (delete_nodes same hash m key).1;
    size = (m.size + 2 ^ 32 - 1) % 2 ^ 32;
    num_readers = pos 0;
  }

  module _ (ready : IsReady m) where
    pub deleted-IsReady : IsReady deleted
    deleted-IsReady = record {
      valid = ready.valid;
      idle = refl;
      allocated = elim delete_nodes-cases [
        | inl e ↦ ap length e ∙ ready.allocated
        | inr e ↦ ap length e ∙ length-set m.nodes _ _ ∙ ready.allocated
      ];
      positive = ready.positive;
      bounded = ready.bounded;
    }

    -- A node is as it was, or it is marked.
    kept_or_marked :
        (i : ℕ)
        → (node_at deleted.nodes i ≡ node_at m.nodes i)
          ⊎ (node_at deleted.nodes i ≡ record (node_at m.nodes i) { tombstone = true })
    kept_or_marked i = elim delete_nodes-cases [
      | inl e ↦ inl (ap (λ (ns : List Node). node_at ns i) e)
      | inr e ↦ elim (ℕ_discrete i (start same hash m key)) [
        | no ne ↦ inl (
            ap (λ (ns : List Node). node_at ns i) e
            ∙ get_or-set_ne m.nodes _ i _ null_node (λ h. ne (sym h)))
        | yes h ↦ inr (
            ap (λ (ns : List Node). node_at ns i) e
            ∙ rw h (
                get_or-set_self m.nodes (start same hash m key) _ null_node
                  (omega (arith, ready.allocated, start-lt same hash m key ready.positive))))
      ]
    ]

    kept_key :
        (i : ℕ) (k : Key)
        → node_has_key same (node_at deleted.nodes i) k ≡ true
        → node_has_key same (node_at m.nodes i) k ≡ true
    kept_key i k h = elim (kept_or_marked i) [
      | inl e ↦ rw e at h
      | inr e ↦ absurd (cc (rw e at h, (tombstone_has same (node_at m.nodes i) k).1))
    ]

    kept_full :
        (i : ℕ)
        → node_is_empty same (node_at m.nodes i) ≡ false
        → node_is_empty same (node_at deleted.nodes i) ≡ false
    kept_full i h = elim (kept_or_marked i) [
      | inl e ↦ rw e h
      | inr e ↦ rw e (tombstone_has same (node_at m.nodes i) (map_key 0 0)).0
    ]

  -- `delete` of a key that is not NULL returns, and keeps the map one that can be used; it keeps also that
  -- no node of a key, of any key, stands behind an empty node of its probe.
  pub delete-IsPlaced :
      (k : Key)
      → IsReady m
      → get_keys_equal same key (map_key 0 0) ≡ false
      → IsPlaced same hash m k
      → (delete same hash (some m) key
          ≡ returns (delete_nodes same hash m key).0 none (some deleted))
        × IsReady deleted
        × IsPlaced same hash deleted k
  unfolding delete IsPlaced
  delete-IsPlaced k ready valid placed = (
    ground (arith, valid, ready.valid, ready.idle),
    deleted-IsReady ready,
    λ d w l r h.
        kept_full ready (slot m.capacity (start same hash m k) d)
          (placed d w l r (kept_key ready (slot m.capacity (start same hash m k) w) k h)),
  )
