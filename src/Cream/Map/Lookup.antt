-- ===== src/Cream/Map/Lookup.antt =====
-- What `get` of hw5/src/hashmap.c finds, by the offsets of its probe.
use system_fundamentals_c_pr.Base.{
  ℕ, zero, suc, ◌^◌, ◌≤◌, ◌<◌, ◌≡◌, inr, ap, Bool, true, false, length, arith, pos,
}
use system_fundamentals_c_pr.Cream.Map.{
  Key, map_val, Node, HashMap, node_at, node_is_empty, node_has_key, can_put_key, get_index,
  get_value, probe_index,
}
use system_fundamentals_c_pr.Cream.Map.Offset.{slot, slot_zero}
use system_fundamentals_c_pr.Cream.Map.Probe.{along, Missed, Ends, Ends-unique, probe_lem}

-- A map that can be used: it is not invalid, no call is under way, and the array of nodes has the
-- capacity, which is not 0 and whose indices fit an `int`.
pub record IsReady (m : HashMap) : Type 0 where
  pub valid : m.invalid ≡ false
  pub idle : m.num_readers ≡ pos 0
  pub allocated : length m.nodes ≡ m.capacity
  pub positive : 0 < m.capacity
  pub bounded : m.capacity ≤ 2 ^ 31

module _ (same : ℕ → ℕ → Bool) where
  pub cannot_put :
      (n : Node) (k : Key)
      → can_put_key same n k ≡ false
      → (node_is_empty same n ≡ false) × (node_has_key same n k ≡ false)
  unfolding can_put_key
  cannot_put n k h = ground arith

  pub empty_of_put :
      (n : Node) (k : Key)
      → can_put_key same n k ≡ true
      → node_has_key same n k ≡ false
      → node_is_empty same n ≡ true
  unfolding can_put_key
  empty_of_put n k h g = ground arith

  pub can_put_of_key :
      (n : Node) (k : Key) → node_has_key same n k ≡ true → can_put_key same n k ≡ true
  unfolding can_put_key
  can_put_of_key n k h = ground arith

module _ (same : ℕ → ℕ → Bool) (hash : Key → ℕ) (m : HashMap) (key : Key) where
  abbrev pub start : ℕ
  start = get_index same hash m key

  abbrev pub node : ℕ → Node
  node = along same m.nodes m.capacity key start

module _ (same : ℕ → ℕ → Bool) (hash : Key → ℕ) (m : HashMap) (key : Key)
    (positive : 0 < m.capacity) where
  pub start-lt : (start same hash m key) < m.capacity
  start-lt = omega arith

  pub node_zero : node same hash m key 0 ≡ node_at m.nodes (start same hash m key)
  node_zero = ap (node_at m.nodes) (slot_zero m.capacity (start same hash m key) start-lt)

  -- Behind the first node the loops stop at the end of the probe.
  pub probe_end :
      can_put_key same (node_at m.nodes (start same hash m key)) key ≡ false
      → (e : ℕ) × (0 < e)
        × Ends same m.nodes m.capacity key (start same hash m key) e
        × (probe_index same hash m key ≡ slot m.capacity (start same hash m key) e)
  probe_end = probe_lem same m.nodes m.capacity key (start same hash m key) start-lt positive

  pub first_missed :
      can_put_key same (node same hash m key 0) key ≡ false
      → can_put_key same (node_at m.nodes (start same hash m key)) key ≡ false
  first_missed h = rw node_zero at h

  pub probed :
      (e : ℕ)
      → Ends same m.nodes m.capacity key (start same hash m key) (suc e)
      → node_at m.nodes (probe_index same hash m key) ≡ node same hash m key (suc e)
  probed e ends =
      let (e', p, ends', h) = probe_end (first_missed (ends.missed 0 (omega arith))) in
      rw h (
        ap (node same hash m key)
          (Ends-unique same m.nodes m.capacity key (start same hash m key) e' (suc e) ends' ends))

  pub get_value_found :
      (w : ℕ)
      → w < m.capacity
      → Missed same m.nodes m.capacity key (start same hash m key) w
      → node_has_key same (node same hash m key w) key ≡ true
      → node_is_empty same (node same hash m key w) ≡ false
      → get_value same hash m key ≡ (node same hash m key w).val
  unfolding get_value
  get_value_found zero l miss has full = let e = node_zero in ground (arith, e)
  get_value_found (suc w) l miss has full =
      let ends : Ends same m.nodes m.capacity key (start same hash m key) (suc w) = record {
        within = omega arith;
        missed = miss;
        found = inr (l, can_put_of_key same _ _ has);
      } in
      ground (
        arith,
        node_zero,
        probed w ends,
        cannot_put same (node same hash m key 0) key (miss 0 (omega arith)),
      )

  -- The probe ends at an empty node, or goes all the way round.
  pub get_value_missing :
      (e : ℕ)
      → Ends same m.nodes m.capacity key (start same hash m key) e
      → node_has_key same (node same hash m key e) key ≡ false
      → get_value same hash m key ≡ map_val 0 0
  unfolding get_value
  get_value_missing zero ends none_here =
      ground (arith, node_zero, ends.found, empty_of_put same (node same hash m key 0) key)
  get_value_missing (suc e) ends none_here = ground (
    arith,
    node_zero,
    probed e ends,
    cannot_put same (node same hash m key 0) key (ends.missed 0 (omega arith)),
  )
