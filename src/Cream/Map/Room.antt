-- ===== src/Cream/Map/Room.antt =====
-- When `put` of hw5/src/hashmap.c has room for a key, and what it does where there is none.
use native.Mathlib.Decide.{ℕ_discrete}
use system_fundamentals_c_pr.Base.{
  ℕ, ◌+◌, ◌-◌, ◌%◌, ◌^◌, ◌<◌, ◌≡◌, ◌⊎◌, inl, inr, refl, Bool, true, false, not, ◌&&◌, List, arith,
  Bool-cases, Option-cases, ◌==◌, ==_refl, ==_of_ne, none, some, pos,
}
use system_fundamentals_c_pr.Cream.Map.{
  Key, Val, map_key, map_val, Node, null_node, HashMap, returns, faults, node_at, get_keys_equal,
  get_vals_equal, can_put_key, probe_index, tombstone_index, put_nodes, put, put_size, delete,
  delete_nodes,
}
use system_fundamentals_c_pr.Cream.Map.Offset.{slot_round, slot_ne_start}
use system_fundamentals_c_pr.Cream.Map.Probe.{
  Missed, Ends, Ends-unique, tombstone_lem, Tombstone, hit, miss,
}
use system_fundamentals_c_pr.Cream.Map.Lookup.{
  IsReady, cannot_put, start, node, start-lt, probe_end, first_missed,
}

-- The map that `delete` leaves where it finds no node of the key.
abbrev pub miscounted : HashMap → HashMap
miscounted m = record m { size = (m.size + 2 ^ 32 - 1) % 2 ^ 32; num_readers = pos 0 }

module _ (same : ℕ → ℕ → Bool) (hash : Key → ℕ) (m : HashMap) (key : Key) where
  -- No node of the probe takes the key, and none is a tombstone.
  pub record IsRefused : Type 0 where
    pub missed : Missed same m.nodes m.capacity key (start same hash m key) m.capacity
    pub no_tombstone : (d : ℕ) → d < m.capacity → (node same hash m key d).tombstone ≡ false

  module _ (positive : 0 < m.capacity) where
    missed_of_round :
        Ends same m.nodes m.capacity key (start same hash m key) m.capacity
        → tombstone_index same hash m key ≡ none
        → IsRefused
    missed_of_round ends t = go (
        tombstone_lem same m.nodes m.capacity key (start same hash m key)
          (start-lt same hash m key positive) positive ends.missed)
      where
        go :
            Tombstone same m.nodes m.capacity key
              (start same hash m key)
              (start-lt same hash m key positive)
              (tombstone_index same hash m key)
              m.capacity
            → IsRefused
        go (hit w l found d) = absurd (cc (found, t))
        go (miss none_left unmarked) = record { missed = ends.missed; no_tombstone = unmarked }

    put_nodes-none :
        (val : Val) (force : Bool) → put_nodes same hash m key val force ≡ none → IsRefused
    unfolding put_nodes
    put_nodes-none val force e = elim (Bool-cases (m.capacity == m.size && force)) [
      | inl c ↦ absurd (cc (rw c at e))
      | inr c ↦ elim (Bool-cases (can_put_key same (node_at m.nodes (start same hash m key)) key)) [
        | inl takes ↦ absurd (cc (rw (c, takes) at e))
        | inr other ↦
            let (d, p, ends, h) = probe_end same hash m key positive other in
            let s = start-lt same hash m key positive in
            elim (ℕ_discrete d m.capacity) [
              | yes round ↦ elim (Option-cases (tombstone_index same hash m key)) [
                | inl t ↦ missed_of_round (rw round at ends) t
                | inr (i, t) ↦ absurd (
                    cc (
                      rw
                        (
                          c,
                          other,
                          h,
                          round,
                          slot_round m.capacity (start same hash m key) s,
                          ==_refl (start same hash m key),
                          t,
                        )
                        at e))
              ]
              | no ne ↦
                  let l : d < m.capacity = omega (arith, ends.within) in
                  absurd (
                    cc (
                      rw
                        (
                          c,
                          other,
                          h,
                          ==_of_ne _ _ (slot_ne_start m.capacity (start same hash m key) s d p l),
                        )
                        at e))
            ]
      ]
    ]

    no_tombstone_of_refused : IsRefused → tombstone_index same hash m key ≡ none
    no_tombstone_of_refused r = go (
        tombstone_lem same m.nodes m.capacity key (start same hash m key)
          (start-lt same hash m key positive) positive r.missed)
      where
        go :
            Tombstone same m.nodes m.capacity key
              (start same hash m key)
              (start-lt same hash m key positive)
              (tombstone_index same hash m key)
              m.capacity
            → tombstone_index same hash m key ≡ none
        go (hit w l found d) = absurd (cc (r.no_tombstone w l, d))
        go (miss none_left unmarked) = none_left

    start_refused :
        IsRefused → can_put_key same (node_at m.nodes (start same hash m key)) key ≡ false
    start_refused r = first_missed same hash m key positive (r.missed 0 positive)

    round_of_refused : IsRefused → probe_index same hash m key ≡ start same hash m key
    round_of_refused r =
        let (d, p, ends, h) = probe_end same hash m key positive (start_refused r) in
        let all : Ends same m.nodes m.capacity key (start same hash m key) m.capacity = record {
          within = omega arith;
          missed = r.missed;
          found = inl refl;
        } in
        let e =
          Ends-unique same m.nodes m.capacity key (start same hash m key) d m.capacity ends all in
        rw (h, e)
          (slot_round m.capacity (start same hash m key) (start-lt same hash m key positive))

    put_nodes-refused :
        (val : Val) (force : Bool)
        → (m.capacity == m.size) ≡ false
        → IsRefused
        → put_nodes same hash m key val force ≡ none
    unfolding put_nodes
    put_nodes-refused val force c r =
        rw
          (
            c,
            start_refused r,
            round_of_refused r,
            ==_refl (start same hash m key),
            no_tombstone_of_refused r,
          )
          refl

  -- `put` returns true in a map that can be used, with a key and a value that are not NULL, unless the
  -- map is full and `force` is not set, as soon as one node of the probe takes the key or is a tombstone.
  pub put-room :
      IsReady m
      → get_keys_equal same key (map_key 0 0) ≡ false
      → (val : Val) → get_vals_equal same val (map_val 0 0) ≡ false
      → (force : Bool) → (m.capacity == m.size && not force) ≡ false
      → (w : ℕ) → w < m.capacity
      → (can_put_key same (node same hash m key w) key ≡ true)
        ⊎ ((node same hash m key w).tombstone ≡ true)
      → (nodes : List Node) × (put_nodes same hash m key val force ≡ some nodes)
        × (put same hash (some m) key val force
            ≡ returns true none (
                some (record m {
                  nodes = nodes;
                  size = put_size same hash m force;
                  num_readers = pos 0;
                })))
  unfolding put
  put-room ready valid val valid_val force room w l takes =
      elim (Option-cases (put_nodes same hash m key val force)) [
        | inl e ↦
            let r = put_nodes-none ready.positive val force e in
            elim takes [
              | inl put ↦ absurd (cc (put, r.missed w l))
              | inr t ↦ absurd (cc (t, r.no_tombstone w l))
            ]
        | inr (nodes, e) ↦
            (nodes, e, ground (arith, ready.valid, ready.idle, valid, valid_val, room, e))
      ]

  module _ (ready : IsReady m) (r : IsRefused) where
    delete_nodes-refused : delete_nodes same hash m key ≡ (null_node, m.nodes)
    unfolding delete_nodes
    delete_nodes-refused =
        let (f, h) =
          cannot_put same (node_at m.nodes (start same hash m key)) key
            (start_refused ready.positive r) in
        rw (f, h, round_of_refused ready.positive r, h) refl

    not_whole : m.size ≡ m.capacity → (m.capacity == (miscounted m).size) ≡ false
    not_whole e = ==_of_ne _ _ (omega (arith, e, ready.positive, ready.bounded))

    delete-refused :
        get_keys_equal same key (map_key 0 0) ≡ false
        → delete same hash (some m) key ≡ returns null_node none (some (miscounted m))
    unfolding delete
    delete-refused valid = ground (arith, valid, ready.valid, ready.idle, delete_nodes-refused)

module _ (same : ℕ → ℕ → Bool) (hash : Key → ℕ) (m : HashMap) (key : Key) where
  -- In a full map whose nodes are all live with other keys, `delete` of the key returns the NULL node and
  -- still counts the size down, and a `put` of the key after it writes through NULL.
  pub put-delete_full :
      IsReady m
      → get_keys_equal same key (map_key 0 0) ≡ false
      → (val : Val) → get_vals_equal same val (map_val 0 0) ≡ false
      → (force : Bool) → m.size ≡ m.capacity
      → IsRefused same hash m key
      → (delete same hash (some m) key ≡ returns null_node none (some (miscounted m)))
        × (put same hash (some (miscounted m)) key val force ≡ faults)
  unfolding put
  put-delete_full ready valid val valid_val force whole r =
      let after : put_nodes same hash (miscounted m) key val force ≡ none =
        put_nodes-refused same hash (miscounted m) key ready.positive val force
          (not_whole same hash m key ready r whole)
          (record { missed = r.missed; no_tombstone = r.no_tombstone }) in
      (
        delete-refused same hash m key ready r valid,
        ground
            (arith, valid, valid_val, ready.valid, not_whole same hash m key ready r whole, after),
      )
