-- ===== src/Cream/Map/Written.antt =====
-- Where `put` of hw5/src/hashmap.c writes.
use native.Mathlib.Decide.{ℕ_discrete}
use mathlib.Core.Path.{subst}
use system_fundamentals_c_pr.Base.{
  ℕ, ◌<◌, ◌≡◌, ◌⊎◌, inl, inr, refl, ap, ◌∙◌, sym, Bool, true, false, ◌&&◌, List, set, arith,
  Bool-cases, Option-cases, eq_of_some, ◌==◌, ==_refl, ==_of_ne, if◌then◌else◌, some,
}
use system_fundamentals_c_pr.Cream.Map.{
  Key, Val, map_key, map_node, Node, HashMap, node_at, get_keys_equal, node_is_empty, node_has_key,
  can_put_key, tombstone_index, put_nodes, put,
}
use system_fundamentals_c_pr.Cream.Map.Offset.{slot, slot_zero, slot_round, slot_ne_start}
use system_fundamentals_c_pr.Cream.Map.Probe.{Missed, Ends, tombstone_lem, Tombstone, hit, miss}
use system_fundamentals_c_pr.Cream.Map.Lookup.{
  IsReady, node_zero, empty_of_put, start, node, start-lt, probe_end,
}

module _ (same : ℕ → ℕ → Bool) where
  get_keys_equal_refl : (k : Key) → get_keys_equal same k k ≡ true
  unfolding get_keys_equal
  get_keys_equal_refl k = ground arith

  -- A node with this key that is not NULL is live.
  stored :
      (k : Key) (v : Val)
      → get_keys_equal same k (map_key 0 0) ≡ false
      → (node_has_key same (map_node k v false) k ≡ true)
        × (node_is_empty same (map_node k v false) ≡ false)
  unfolding node_has_key node_is_empty
  stored k v h = ground (arith, get_keys_equal_refl k)

  -- Only the value changed.
  revalued :
      (n : Node) (v : Val) (k : Key)
      → (node_has_key same (record n { val = v }) k ≡ node_has_key same n k)
        × (node_is_empty same (record n { val = v }) ≡ node_is_empty same n)
  unfolding node_has_key node_is_empty
  revalued n v k = (refl, refl)

  rekeyed :
      (n : Node) (k : Key) (v : Val)
      → can_put_key same n k ≡ true
      → get_keys_equal same k (map_key 0 0) ≡ false
      → (node_has_key same (record n { key = k; val = v }) k ≡ true)
        × (node_is_empty same (record n { key = k; val = v }) ≡ false)
  unfolding can_put_key node_has_key node_is_empty
  rekeyed n k v h valid = ground (arith, get_keys_equal_refl k)

module _ (same : ℕ → ℕ → Bool) (hash : Key → ℕ) (m : HashMap) (key : Key) (val : Val) where
  -- Why the node at an offset was written: it takes the key, or it is a tombstone, or the map is full.
  abbrev pub Chosen : ℕ → Type 0
  Chosen d =
      (can_put_key same (node same hash m key d) key ≡ true)
      ⊎ (((node same hash m key d).tombstone ≡ true) ⊎ ((m.capacity == m.size) ≡ true))

  -- `put` wrote one node: at an offset of the probe before which no node takes the key, and the node
  -- now holds the key and the value.
  pub record Written (nodes : List Node) : Type 0 where
    pub offset : ℕ
    pub chosen : Chosen offset
    pub node : Node
    pub within : offset < m.capacity
    pub missed : Missed same m.nodes m.capacity key (start same hash m key) offset
    pub wrote : nodes ≡ set m.nodes (slot m.capacity (start same hash m key) offset) node
    pub has_key : node_has_key same node key ≡ true
    pub full : node_is_empty same node ≡ false
    pub holds : node.val ≡ val

  module _ (ready : IsReady m) (valid : get_keys_equal same key (map_key 0 0) ≡ false) where
    zero-Missed : Missed same m.nodes m.capacity key (start same hash m key) 0
    zero-Missed d l = absurd (omega arith)

    at_start :
        (n : Node)
        → node_has_key same n key ≡ true
        → node_is_empty same n ≡ false
        → n.val ≡ val
        → Chosen 0
        → Written (set m.nodes (start same hash m key) n)
    at_start n h f v c = record {
      offset = 0;
      chosen = c;
      node = n;
      within = ready.positive;
      missed = zero-Missed;
      wrote =
          ap (λ i. set m.nodes i n)
            (sym (
              slot_zero m.capacity (start same hash m key)
                (start-lt same hash m key ready.positive)));
      has_key = h;
      full = f;
      holds = v;
    }

    -- The node at the end of the probe, emptied or of this key.
    by_probe :
        (e : ℕ)
        → 0 < e
        → Ends same m.nodes m.capacity key (start same hash m key) e
        → e < m.capacity
        → Written (
            set m.nodes (slot m.capacity (start same hash m key) e) (
              if node_is_empty same (node same hash m key e)
              then map_node key val false
              else record (node same hash m key e) { val = val }))
    by_probe e p ends l = elim (Bool-cases (node_is_empty same (node same hash m key e))) [
      | inl empty ↦ rw empty (record {
        offset = e;
        chosen = chosen_of_put e ends l;
        node = map_node key val false;
        within = l;
        missed = ends.missed;
        wrote = refl;
        has_key = (stored same key val valid).0;
        full = (stored same key val valid).1;
        holds = refl;
      })
      | inr full ↦ rw full (record {
        offset = e;
        chosen = chosen_of_put e ends l;
        node = record (node same hash m key e) { val = val };
        within = l;
        missed = ends.missed;
        wrote = refl;
        has_key = (revalued same (node same hash m key e) val key).0 ∙ key_of_put e ends l full;
        full = (revalued same (node same hash m key e) val key).1 ∙ full;
        holds = refl;
      })
    ]
      where
        chosen_of_put :
            (e : ℕ)
            → Ends same m.nodes m.capacity key (start same hash m key) e
            → e < m.capacity
            → Chosen e
        chosen_of_put e ends l = elim ends.found [
          | inl eq ↦ absurd (omega arith)
          | inr (lt, put) ↦ inl put
        ]

        key_of_put :
            (e : ℕ)
            → Ends same m.nodes m.capacity key (start same hash m key) e
            → e < m.capacity
            → node_is_empty same (node same hash m key e) ≡ false
            → node_has_key same (node same hash m key e) key ≡ true
        key_of_put e ends l full =
            elim (Bool-cases (node_has_key same (node same hash m key e) key)) [
              | inl h ↦ h
              | inr h ↦ elim ends.found [
                | inl eq ↦ absurd (omega arith)
                | inr (lt, put) ↦ cc (empty_of_put same (node same hash m key e) key put h)
              ]
            ]

    -- All the way round: the first tombstone.
    by_tombstone :
        (i : ℕ)
        → Missed same m.nodes m.capacity key (start same hash m key) m.capacity
        → tombstone_index same hash m key ≡ some i
        → Written (set m.nodes i (map_node key val false))
    by_tombstone i missed e = go (
        tombstone_lem same m.nodes m.capacity key (start same hash m key)
          (start-lt same hash m key ready.positive) ready.positive missed)
      where
        go :
            Tombstone same m.nodes m.capacity key
              (start same hash m key)
              (start-lt same hash m key ready.positive)
              (tombstone_index same hash m key)
              m.capacity
            → Written (set m.nodes i (map_node key val false))
        go (hit w l found t) = record {
          offset = w;
          chosen = inr (inl t);
          node = map_node key val false;
          within = l;
          missed = λ d h. missed d (omega arith);
          wrote = ap (λ j. set m.nodes j (map_node key val false)) (eq_of_some (sym e ∙ found));
          has_key = (stored same key val valid).0;
          full = (stored same key val valid).1;
          holds = refl;
        }
        go (miss none_left t) = absurd (cc (e, none_left))

    behind :
        (force : Bool) (nodes : List Node)
        → put_nodes same hash m key val force ≡ some nodes
        → (m.capacity == m.size && force) ≡ false
        → can_put_key same (node_at m.nodes (start same hash m key)) key ≡ false
        → Written nodes
    unfolding put_nodes
    behind force nodes e c other =
        let (d, p, ends, h) = probe_end same hash m key ready.positive other in
        let s = start-lt same hash m key ready.positive in
        elim (ℕ_discrete d m.capacity) [
          | yes round ↦ elim (Option-cases (tombstone_index same hash m key)) [
            | inl t ↦ absurd (
                cc (
                  rw
                    (
                      c,
                      other,
                      h,
                      round,
                      slot_round m.capacity (start same hash m key) s,
                      ==_refl (start same hash m key),
                      t,
                    )
                    at e))
            | inr (i, t) ↦
                subst Written
                  (eq_of_some (
                    rw
                      (
                        c,
                        other,
                        h,
                        round,
                        slot_round m.capacity (start same hash m key) s,
                        ==_refl (start same hash m key),
                        t,
                      )
                      at e))
                  (by_tombstone i (rw round at ends.missed) t)
          ]
          | no ne ↦
              let l : d < m.capacity = omega (arith, ends.within) in
              subst Written
                (eq_of_some (
                  rw
                    (
                      c,
                      other,
                      h,
                      ==_of_ne _ _ (slot_ne_start m.capacity (start same hash m key) s d p l),
                    )
                    at e))
                (by_probe d p ends l)
        ]

    whole : (force : Bool) → (m.capacity == m.size && force) ≡ true → (m.capacity == m.size) ≡ true
    whole force h = ground arith

    pub put_nodes-Written :
        (force : Bool) (nodes : List Node)
        → put_nodes same hash m key val force ≡ some nodes
        → Written nodes
    unfolding put_nodes
    put_nodes-Written force nodes e = elim (Bool-cases (m.capacity == m.size && force)) [
      | inl c ↦ subst Written (eq_of_some (rw c at e)) (
          at_start _ (stored same key val valid).0 (stored same key val valid).1 refl
            (inr (inr (whole force c))))
      | inr c ↦ elim (Bool-cases (can_put_key same (node_at m.nodes (start same hash m key)) key)) [
        | inl takes ↦
            let (h, f) =
              rekeyed same (node_at m.nodes (start same hash m key)) key val takes valid in
            subst Written (eq_of_some (rw (c, takes) at e))
              (at_start _ h f refl (inl (rw (node_zero same hash m key ready.positive) takes)))
        | inr other ↦ behind force nodes e c other
      ]
    ]
