-- ===== src/Cream/Tests.antt =====
-- hw5: the theorems at concrete maps, and runs of the operations.
use system_fundamentals_c_pr.Base.{
  ℕ, zero, suc, ◌+◌, ◌<◌, ◌≡◌, inl, refl, Bool, true, false, ◌==◌, none, some, List, [], ◌∷◌, pos,
  arith,
}
use system_fundamentals_c_pr.Cream.Map.{
  get_value, Key, Node, HashMap, map_key, map_val, map_node, null_node, einval, enomem, returns,
  faults, create_map, put, get, delete, delete_nodes, clear_map, invalidate_map, destroyed,
  can_put_key, get_keys_equal, node_is_empty, node_has_key, probe, put_nodes, get_vals_equal,
}
use system_fundamentals_c_pr.Cream.Map.Lookup.{IsReady, node}
use system_fundamentals_c_pr.Cream.Map.Put.{get-put}
use system_fundamentals_c_pr.Cream.Map.Placed.{IsEquivalence, IsPlaced}
use system_fundamentals_c_pr.Cream.Map.Others.{get-put_other}
use system_fundamentals_c_pr.Cream.Map.Marked.{deleted, delete-IsPlaced}
use system_fundamentals_c_pr.Cream.Map.Delete.{marked, get-delete_displaced}
use system_fundamentals_c_pr.Cream.Map.Room.{IsRefused, miscounted, put-room, put-delete_full}
use system_fundamentals_c_pr.Cream.Map.Clear.{
  cleared, invalidated, get-clear_map, invalidate_map-einval, get-create_map,
}

-- Strings are told apart by their address, and the hash of a key is its address.
abbrev same : ℕ → ℕ → Bool
same p q = p == q

abbrev hash : Key → ℕ
hash k = k.key_base

abbrev live : ℕ → Node
live k = map_node (map_key k 1) (map_val (k + 100) 1) false

abbrev map_of : ℕ → ℕ → List Node → HashMap
map_of capacity size nodes = record {
  capacity = capacity;
  size = size;
  nodes = nodes;
  num_readers = pos 0;
  invalid = false;
}

-- The keys 1 and 4 share an index, so the key 4 stands in the node behind its own.
abbrev pair : HashMap
pair = map_of 3 2 (null_node ∷ live 1 ∷ live 4 ∷ [])

pair-IsReady : IsReady pair
pair-IsReady = record {
  valid = refl;
  idle = refl;
  allocated = refl;
  positive = omega arith;
  bounded = omega arith;
}

abbrev single : HashMap
single = map_of 3 1 (null_node ∷ live 1 ∷ null_node ∷ [])

single-IsReady : IsReady single
single-IsReady = record {
  valid = refl;
  idle = refl;
  allocated = refl;
  positive = omega arith;
  bounded = omega arith;
}

single-put :
    put same hash (some single) (map_key 4 1) (map_val 104 1) false ≡ returns true none (some pair)
unfolding put put_nodes can_put_key node_is_empty node_has_key get_keys_equal get_vals_equal probe
single-put = refl

get-put_example :
    IsReady pair
    × (get same hash (some pair) (map_key 4 1) ≡ returns (map_val 104 1) none (some pair))
get-put_example =
    get-put same hash single (map_key 4 1) (map_val 104 1) single-IsReady false none pair single-put

displaced_example :
    (delete same hash (some pair) (map_key 4 1)
      ≡ returns (live 4) none (some (marked same hash pair (map_key 4 1))))
    × (get same hash (some (marked same hash pair (map_key 4 1))) (map_key 4 1)
        ≡ returns (map_val 104 1) none (some (marked same hash pair (map_key 4 1))))
unfolding can_put_key node_is_empty node_has_key get_keys_equal
displaced_example =
    get-delete_displaced same hash pair (map_key 4 1) pair-IsReady refl 1 (omega arith)
      (omega arith) (λ d l. let e : d ≡ 0 = omega arith in rw e refl) refl refl

put-room_example :
    (nodes : List Node) × (put_nodes same hash single (map_key 4 1) (map_val 104 1) false
      ≡ some nodes)
    × (put same hash (some single) (map_key 4 1) (map_val 104 1) false
        ≡ returns true none (some (record single { nodes = nodes; size = 2; num_readers = pos 0 })))
unfolding can_put_key node_is_empty node_has_key get_keys_equal get_vals_equal
put-room_example =
    put-room same hash single (map_key 4 1) single-IsReady refl (map_val 104 1) refl false refl 1
      (omega arith) (inl refl)

same-IsEquivalence : IsEquivalence same
same-IsEquivalence = record {
  symmetric = λ p q h. ground arith;
  transitive = λ p q r h g. ground arith;
}

-- The key 1 stands in its own node.
single-IsPlaced : IsPlaced same hash single (map_key 1 1)
unfolding IsPlaced node_has_key node_is_empty get_keys_equal
single-IsPlaced d zero l r h = absurd (omega arith)
single-IsPlaced d (suc zero) l r h = absurd (cc h)
single-IsPlaced d (suc (suc zero)) l r h = absurd (cc h)
single-IsPlaced d (suc (suc (suc w))) l r h = absurd (omega arith)

get-put_other_example :
    IsPlaced same hash pair (map_key 1 1)
    × (get same hash (some single) (map_key 1 1) ≡ returns (map_val 101 1) none (some single))
    × (get same hash (some pair) (map_key 1 1) ≡ returns (map_val 101 1) none (some pair))
unfolding get_value get_keys_equal node_is_empty node_has_key
get-put_other_example =
    get-put_other same same-IsEquivalence hash single (map_key 4 1) (map_val 104 1) (map_key 1 1)
      single-IsReady refl refl refl single-IsPlaced false none pair single-put

pair-IsPlaced : IsPlaced same hash pair (map_key 4 1)
unfolding IsPlaced node_has_key node_is_empty get_keys_equal
pair-IsPlaced d zero l r h = absurd (omega arith)
pair-IsPlaced zero (suc zero) l r h = refl
pair-IsPlaced (suc d) (suc zero) l r h = absurd (omega arith)
pair-IsPlaced d (suc (suc zero)) l r h = absurd (cc h)
pair-IsPlaced d (suc (suc (suc w))) l r h = absurd (omega arith)

delete-IsPlaced_example :
    (delete same hash (some pair) (map_key 1 1)
      ≡ returns (live 1) none (some (deleted same hash pair (map_key 1 1))))
    × IsReady (deleted same hash pair (map_key 1 1))
    × IsPlaced same hash (deleted same hash pair (map_key 1 1)) (map_key 4 1)
unfolding delete_nodes get_keys_equal node_is_empty node_has_key
delete-IsPlaced_example =
    delete-IsPlaced same hash pair (map_key 1 1) (map_key 4 1) pair-IsReady refl pair-IsPlaced

-- Two live nodes.
abbrev full : HashMap
full = map_of 2 2 (live 2 ∷ live 1 ∷ [])

full-IsReady : IsReady full
full-IsReady = record {
  valid = refl;
  idle = refl;
  allocated = refl;
  positive = omega arith;
  bounded = omega arith;
}

refused :
    (d : ℕ)
    → d < 2
    → (can_put_key same (node same hash full (map_key 5 1) d) (map_key 5 1) ≡ false)
      × ((node same hash full (map_key 5 1) d).tombstone ≡ false)
unfolding can_put_key node_is_empty node_has_key get_keys_equal
refused zero l = (refl, refl)
refused (suc zero) l = (refl, refl)
refused (suc (suc d)) l = absurd (omega arith)

full-IsRefused : IsRefused same hash full (map_key 5 1)
full-IsRefused = record { missed = λ d l. (refused d l).0; no_tombstone = λ d l. (refused d l).1 }

put-delete_full_test :
    (delete same hash (some full) (map_key 5 1) ≡ returns null_node none (some (miscounted full)))
    × (put same hash (some (miscounted full)) (map_key 5 1) (map_val 7 1) true ≡ faults)
unfolding get_keys_equal get_vals_equal
put-delete_full_test =
    put-delete_full same hash full (map_key 5 1) full-IsReady refl (map_val 7 1) refl true refl
      full-IsRefused

clear_map_test :
    (clear_map (some pair) ≡ returns (true, destroyed pair.nodes) none (some (cleared pair)))
    × IsReady (cleared pair)
    × (get same hash (some (cleared pair)) (map_key 4 1)
        ≡ returns (map_val 0 0) none (some (cleared pair)))
unfolding get_keys_equal
clear_map_test = get-clear_map same hash pair (map_key 4 1) pair-IsReady refl

invalidate_map_test :
    (invalidate_map (some pair) ≡ returns (true, destroyed pair.nodes) none (some invalidated))
    × (put same hash (some invalidated) (map_key 4 1) (map_val 104 1) true
        ≡ returns false (some einval) (some invalidated))
    × (get same hash (some invalidated) (map_key 4 1)
        ≡ returns (map_val 0 0) (some einval) (some invalidated))
    × (delete same hash (some invalidated) (map_key 4 1)
        ≡ returns null_node (some einval) (some invalidated))
    × (clear_map (some invalidated) ≡ returns (false, []) (some einval) (some invalidated))
    × (invalidate_map (some invalidated) ≡ returns (false, []) (some einval) (some invalidated))
invalidate_map_test =
    invalidate_map-einval same hash pair (map_key 4 1) (map_val 104 1) true pair-IsReady

abbrev fresh : HashMap
fresh = map_of 3 0 (null_node ∷ null_node ∷ null_node ∷ [])

create_map_test :
    IsReady fresh
    × (fresh.size ≡ 0)
    × (get same hash (some fresh) (map_key 4 1) ≡ returns (map_val 0 0) none (some fresh))
unfolding create_map get_keys_equal
create_map_test = get-create_map same hash 3 fresh (map_key 4 1) (omega arith) refl refl

-- A full map refuses a key unless it is forced to take it.
full_test :
    put same hash (some full) (map_key 5 1) (map_val 7 1) false
    ≡ returns false (some enomem) (some full)
unfolding put get_keys_equal get_vals_equal
full_test = refl

-- A value that is put again in its own node is counted twice.
recount_test :
    put same hash (some single) (map_key 1 1) (map_val 9 1) false
    ≡ returns true none (
        some (map_of 3 2 (null_node ∷ map_node (map_key 1 1) (map_val 9 1) false ∷ null_node ∷ [])))
unfolding put put_nodes can_put_key node_is_empty node_has_key get_keys_equal get_vals_equal probe
recount_test = refl
