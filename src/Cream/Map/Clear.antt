-- ===== src/Cream/Map/Clear.antt =====
-- `clear_map` and `invalidate_map` of hw5/src/hashmap.c, and the calls that follow them.
use system_fundamentals_c_pr.Base.{
  ℕ, ◌%◌, ◌^◌, ◌≤◌, ◌<◌, ◌≡◌, zero, ==_of_ne, suc, eq_of_some, refl, sym, Bool, true, false, [],
  length-replicate, replicate, get_or-replicate, arith, none, some, pos,
}
use system_fundamentals_c_pr.Cream.Map.{
  einval, Key, Val, map_key, map_val, null_node, HashMap, returns, get_keys_equal, node_is_empty,
  create_map, get_value, put, get, delete, destroyed, clear_map, invalidate_map,
}
use system_fundamentals_c_pr.Cream.Map.Lookup.{IsReady}

abbrev pub cleared : HashMap → HashMap
cleared m = record m { nodes = replicate m.capacity null_node; size = 0; num_readers = pos 0 }

abbrev pub invalidated : HashMap
invalidated = record { capacity = 0; size = 0; nodes = []; num_readers = pos 0; invalid = true }

pub cleared-IsReady : (m : HashMap) → IsReady m → IsReady (cleared m)
cleared-IsReady m ready = record {
  valid = ready.valid;
  idle = refl;
  allocated = length-replicate m.capacity null_node;
  positive = ready.positive;
  bounded = ready.bounded;
}

module _ (same : ℕ → ℕ → Bool) (hash : Key → ℕ) where
  null_node-empty : node_is_empty same null_node ≡ true
  unfolding node_is_empty get_keys_equal
  null_node-empty = refl

  get_value-cleared : (m : HashMap) (key : Key) → get_value same hash (cleared m) key ≡ map_val 0 0
  unfolding get_value
  get_value-cleared m key =
      rw (get_or-replicate m.capacity (hash key % m.capacity) null_node, null_node-empty) refl

  get-cleared :
      (m : HashMap) (key : Key)
      → IsReady m
      → get_keys_equal same key (map_key 0 0) ≡ false
      → get same hash (some (cleared m)) key ≡ returns (map_val 0 0) none (some (cleared m))
  unfolding get
  get-cleared m key ready valid = ground (arith, valid, ready.valid, get_value-cleared m key)

  -- `clear_map` on a map that can be used returns true, calls the destructor on every node in order, and
  -- leaves a map that can be used, of size 0 and the old capacity, in which `get` finds no key.
  pub get-clear_map :
      (m : HashMap) (key : Key)
      → IsReady m
      → get_keys_equal same key (map_key 0 0) ≡ false
      → (clear_map (some m) ≡ returns (true, destroyed m.nodes) none (some (cleared m)))
        × IsReady (cleared m)
        × (get same hash (some (cleared m)) key ≡ returns (map_val 0 0) none (some (cleared m)))
  unfolding clear_map
  get-clear_map m key ready valid = (
    ground (arith, ready.valid, ready.idle),
    cleared-IsReady m ready,
    get-cleared m key ready valid,
  )

  -- `invalidate_map` on a map that can be used returns true and calls the destructor on every node in
  -- order; each of `put`, `get`, `delete`, `clear_map` and `invalidate_map` then fails with EINVAL and
  -- leaves the map.
  pub invalidate_map-einval :
      (m : HashMap) (key : Key) (val : Val) (force : Bool)
      → IsReady m
      → (invalidate_map (some m) ≡ returns (true, destroyed m.nodes) none (some invalidated))
        × (put same hash (some invalidated) key val force
            ≡ returns false (some einval) (some invalidated))
        × (get same hash (some invalidated) key
            ≡ returns (map_val 0 0) (some einval) (some invalidated))
        × (delete same hash (some invalidated) key
            ≡ returns null_node (some einval) (some invalidated))
        × (clear_map (some invalidated) ≡ returns (false, []) (some einval) (some invalidated))
        × (invalidate_map (some invalidated) ≡ returns (false, []) (some einval) (some invalidated))
  unfolding invalidate_map put get delete clear_map
  invalidate_map-einval m key val force ready = (
    ground (arith, ready.valid, ready.idle),
    ground arith,
    ground arith,
    ground arith,
    refl,
    refl,
  )

  empty_map : (capacity : ℕ) → HashMap
  empty_map capacity = record {
    capacity = capacity;
    size = 0;
    nodes = [];
    num_readers = pos 0;
    invalid = false;
  }

  create_map-some :
      (capacity : ℕ) (m : HashMap)
      → create_map capacity true true ≡ some m
      → (0 < capacity) × (m ≡ cleared (empty_map capacity))
  unfolding create_map empty_map
  create_map-some zero m e = absurd (cc e)
  create_map-some (suc n) m e =
      (omega arith, sym (eq_of_some (rw (==_of_ne (suc n) 0 (omega arith)) at e)))

  -- A map that `create_map` returns can be used, is empty, and `get` finds no key in it.
  pub get-create_map :
      (capacity : ℕ) (m : HashMap) (key : Key)
      → capacity ≤ 2 ^ 31
      → create_map capacity true true ≡ some m
      → get_keys_equal same key (map_key 0 0) ≡ false
      → IsReady m
        × (m.size ≡ 0)
        × (get same hash (some m) key ≡ returns (map_val 0 0) none (some m))
  unfolding create_map empty_map get
  get-create_map capacity m key l e valid =
      let (p, h) = create_map-some capacity m e in
      rw h (
        record {
          valid = refl;
          idle = refl;
          allocated = length-replicate capacity null_node;
          positive = p;
          bounded = l;
        },
        refl,
        ground (arith, valid, get_value-cleared (empty_map capacity) key),
      )
