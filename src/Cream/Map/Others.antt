-- ===== src/Cream/Map/Others.antt =====
-- What `put` of hw5/src/hashmap.c does to the other keys of the map.
use native.Mathlib.Decide.{ℕ_discrete}
use system_fundamentals_c_pr.Base.{
  ℕ, ◌+◌, ◌%◌, ◌<◌, ◌≡◌, ◌⊎◌, inl, inr, ap, ◌∙◌, sym, Bool, true, false, arith, Bool-cases, Option,
  none, some, ◌==◌,
}
use system_fundamentals_c_pr.Cream.Map.{
  Errno, Key, Val, map_key, Node, HashMap, returns, node_at, get_keys_equal, node_is_empty,
  node_has_key, can_put_key, get_value, put, get,
}
use system_fundamentals_c_pr.Cream.Map.Offset.{slot}
use system_fundamentals_c_pr.Cream.Map.Probe.{Ends}
use system_fundamentals_c_pr.Cream.Map.Lookup.{
  IsReady, start, node, get_value_found, get_value_missing,
}
use system_fundamentals_c_pr.Cream.Map.Put.{
  Succeeds, put-Succeeds, put-IsReady, new_node, other_node, Written-ok,
}
use system_fundamentals_c_pr.Cream.Map.Placed.{
  IsEquivalence, IsPlaced, other_key, chosen_has, cannot_of, find_end, full_of_key, round_has,
  nowhere_else,
}

-- The map in which `put` changed the nodes.
module _ (same : ℕ → ℕ → Bool) (law : IsEquivalence same) (hash : Key → ℕ) (m m' : HashMap)
    (k : Key) (valid : get_keys_equal same k (map_key 0 0) ≡ false) (positive : 0 < m.capacity)
    (cap : m'.capacity ≡ m.capacity)
    (kept : (d : ℕ)
      → (node same hash m' k d ≡ node same hash m k d)
        ⊎ ((node_is_empty same (node same hash m' k d) ≡ false)
            × (node_has_key same (node same hash m' k d) k ≡ false)
            × (node_has_key same (node same hash m k d) k ≡ false))) where
  has_kept :
      (d : ℕ)
      → node_has_key same (node same hash m' k d) k ≡ true
      → node same hash m' k d ≡ node same hash m k d
  has_kept d h = elim (kept d) [ inl e ↦ e | inr (f, g, o) ↦ absurd (cc (h, g)) ]

  had_kept :
      (d : ℕ)
      → node_has_key same (node same hash m k d) k ≡ true
      → node same hash m' k d ≡ node same hash m k d
  had_kept d h = elim (kept d) [ inl e ↦ e | inr (f, g, o) ↦ absurd (cc (h, o)) ]

  full_kept :
      (d : ℕ)
      → node_is_empty same (node same hash m k d) ≡ false
      → node_is_empty same (node same hash m' k d) ≡ false
  full_kept d h = elim (kept d) [ inl e ↦ rw e h | inr (f, g, o) ↦ f ]

  missed_kept :
      (d : ℕ)
      → can_put_key same (node same hash m k d) k ≡ false
      → can_put_key same (node same hash m' k d) k ≡ false
  missed_kept d h = elim (kept d) [
    | inl e ↦ rw e h
    | inr (f, g, o) ↦ cannot_of same (node same hash m' k d) k f g
  ]

  IsPlaced-kept : IsPlaced same hash m k → IsPlaced same hash m' k
  unfolding IsPlaced
  IsPlaced-kept placed d w l r h = full_kept d (placed d w l (rw cap at r) (rw (has_kept w h) at h))

  get_value_kept : IsPlaced same hash m k → get_value same hash m' k ≡ get_value same hash m k
  unfolding IsPlaced
  get_value_kept placed =
      let (e, ends) = find_end same law hash m k valid positive in
      elim (Bool-cases (node_has_key same (node same hash m k e) k)) [
        | inl h ↦
            let l = round_has same law hash m k valid positive e ends h in
            let same_node = had_kept e h in
            get_value_found same hash m' k (rw cap positive) e (rw cap l)
              (λ d r. missed_kept d (ends.missed d r)) (rw same_node h)
              (rw same_node (full_of_key same law hash m k valid positive _ h))
            ∙ ap (λ (n : Node). n.val) same_node
            ∙ sym (
                get_value_found same hash m k positive e l ends.missed h
                  (full_of_key same law hash m k valid positive _ h))
        | inr h ↦
            let (e', ends') = find_end same law hash m' k valid (rw cap positive) in
            get_value_missing same hash m' k (rw cap positive) e' ends'
              (still_missing e e' ends ends' h)
            ∙ sym (get_value_missing same hash m k positive e ends h)
      ]
    where
      still_missing :
          (e e' : ℕ)
          → Ends same m.nodes m.capacity k (start same hash m k) e
          → Ends same m'.nodes m'.capacity k (start same hash m' k) e'
          → node_has_key same (node same hash m k e) k ≡ false
          → node_has_key same (node same hash m' k e') k ≡ false
      still_missing e e' ends ends' h =
          elim (Bool-cases (node_has_key same (node same hash m' k e') k)) [
            | inr g ↦ g
            | inl g ↦
                let l = round_has same law hash m' k valid (rw cap positive) e' ends' g in
                absurd (
                  nowhere_else same law hash m k valid positive placed e e' ends h (rw cap at l)
                    (rw (has_kept e' g) at g))
          ]

module _ (same : ℕ → ℕ → Bool) (law : IsEquivalence same) (hash : Key → ℕ) (m : HashMap) (key : Key)
    (val : Val) (k : Key) (ready : IsReady m) (room : (m.capacity == m.size) ≡ false)
    (valid : get_keys_equal same k (map_key 0 0) ≡ false)
    (other : get_keys_equal same key k ≡ false) (force : Bool) (m' : HashMap)
    (ok : Succeeds same hash m key val force m') where
  open Written-ok same hash m key val ready force m' ok use {offset as w, chosen, has_key, full}

  capacity_put : m'.capacity ≡ m.capacity
  capacity_put = ap (λ (h : HashMap). h.capacity) ok.result

  chosen_put : node_has_key same (node same hash m key w) k ≡ false
  chosen_put = elim chosen [
    | inl p ↦ chosen_has same law _ key k (inl p) other valid
    | inr (inl t) ↦ chosen_has same law _ key k (inr t) other valid
    | inr (inr c) ↦ absurd (cc (c, room))
  ]

  index_put :
      (a : Key) (d : ℕ)
      → slot m'.capacity (start same hash m' a) d ≡ slot m.capacity (start same hash m a) d
  index_put a d = ap (λ (c : ℕ). (hash a % c + d) % c) capacity_put

  kept_put :
      (d : ℕ)
      → (node same hash m' k d ≡ node same hash m k d)
        ⊎ ((node_is_empty same (node same hash m' k d) ≡ false)
            × (node_has_key same (node same hash m' k d) k ≡ false)
            × (node_has_key same (node same hash m k d) k ≡ false))
  kept_put d =
      elim (ℕ_discrete (slot m.capacity (start same hash m k) d)
        (slot m.capacity (start same hash m key) w)) [
          | no ne ↦ inl (
              ap (node_at m'.nodes) (index_put k d)
              ∙ other_node same hash m key val ready force m' ok _ ne)
          | yes e ↦
              let now =
                ap (node_at m'.nodes) (index_put k d ∙ e ∙ sym (index_put key w))
                ∙ new_node same hash m key val ready force m' ok in
              let before = ap (node_at m.nodes) e in
              inr (
                rw now full,
                rw now (other_key same law _ key k has_key other),
                rw before chosen_put,
              )
        ]

module _ (same : ℕ → ℕ → Bool) (law : IsEquivalence same) (hash : Key → ℕ) (m : HashMap) (key : Key)
    (val : Val) where
  -- A `put` that returns true in a map that is not full leaves every other key as it was: where no node of
  -- that key stands behind an empty node of its probe, this stays so, and `get` finds the same value as
  -- before, or none as before. `strcmp` is taken to tell strings apart by an equivalence relation.
  pub get-put_other :
      (k : Key)
      → IsReady m
      → (m.capacity == m.size) ≡ false
      → get_keys_equal same k (map_key 0 0) ≡ false
      → get_keys_equal same key k ≡ false
      → IsPlaced same hash m k
      → (force : Bool) (err : Option Errno) (m' : HashMap)
      → put same hash (some m) key val force ≡ returns true err (some m')
      → IsPlaced same hash m' k
        × (get same hash (some m) k ≡ returns (get_value same hash m k) none (some m))
        × (get same hash (some m') k ≡ returns (get_value same hash m k) none (some m'))
  unfolding get
  get-put_other k ready room valid other placed force err m' e =
      let ok = put-Succeeds same hash m key val force err m' e in
      let r = put-IsReady same hash m key val ready force m' ok in
      let cap = capacity_put same law hash m key val k ready room valid other force m' ok in
      let kept = kept_put same law hash m key val k ready room valid other force m' ok in
      let v = get_value_kept same law hash m m' k valid ready.positive cap kept placed in
      (
        IsPlaced-kept same law hash m m' k valid ready.positive cap kept placed,
        ground (arith, valid, ready.valid, ready.idle),
        ground (arith, valid, r.valid, r.idle, v),
      )
