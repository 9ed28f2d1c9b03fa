-- ===== src/Cream/Map.antt =====
-- hw5/src/hashmap.c: the hash map with linear probing, as one thread runs its functions. A lock is
-- then free when it is asked for. A pointer is a number and NULL is 0. `strcmp` and the hash function
-- are parameters of the code: `same p q` is `strcmp(p, q) == 0`, also where p or q is NULL, as it is for an
-- empty key, which C leaves undefined.
pub mod Offset
pub mod Probe
pub mod Lookup
pub mod Congruence
pub mod Written
pub mod Put
pub mod Placed
pub mod Others
pub mod Delete
pub mod Marked
pub mod Room
pub mod Clear
use system_fundamentals_c_pr.Base.{
  ℕ, zero, suc, ◌+◌, ◌-◌, ◌*◌, ◌%◌, ◌^◌, Bool, true, false, not, ◌&&◌, ◌||◌, Option, none, some,
  List, [], ◌∷◌, ◌++◌, replicate, get_or, set, ◌==◌, if◌then◌else◌, ℤ, pos, negsuc,
}

pub record Key : Type 0 where
  pub key_base : ℕ
  pub key_len : ℕ

pub record Val : Type 0 where
  pub val_base : ℕ
  pub val_len : ℕ

pub record Node : Type 0 where
  pub key : Key
  pub val : Val
  pub tombstone : Bool

abbrev pub map_key : ℕ → ℕ → Key
map_key base len = record { key_base = base; key_len = len }

abbrev pub map_val : ℕ → ℕ → Val
map_val base len = record { val_base = base; val_len = len }

abbrev pub map_node : Key → Val → Bool → Node
map_node key val tombstone = record { key = key; val = val; tombstone = tombstone }

-- What `calloc` leaves in a node, and what `delete` returns for a key that is not there.
abbrev pub null_node : Node
null_node = map_node (map_key 0 0) (map_val 0 0) false

-- `hashmap_t`. The hash function is a parameter, and the locks are free between calls.
pub record HashMap : Type 0 where
  pub capacity : ℕ
  pub size : ℕ
  pub nodes : List Node
  pub num_readers : ℤ
  pub invalid : Bool

pub data Errno : Type 0 where
  einval : Errno
  enomem : Errno

-- How a call ends: with a value, the `errno` that it set if any, and the map behind the pointer; in the
-- loop `while (num_readers …);` that nobody else ends; or at a dereference of NULL.
pub data Result (A : Type 0) : Type 0 where
  returns : A → Option Errno → Option HashMap → Result A
  spins : Result A
  faults : Result A

abbrev pub node_at : List Node → ℕ → Node
node_at nodes i = get_or nodes i null_node

abbrev pub set_tombstone : List Node → ℕ → List Node
set_tombstone nodes i = set nodes i (record (node_at nodes i) { tombstone = true })

-- The tests of `while (num_readers > 0);` and `while (num_readers < 0);`.
abbrev pub is_positive : ℤ → Bool
is_positive (pos n) = not (n == 0)
is_positive (negsuc n) = false

abbrev pub is_negative : ℤ → Bool
is_negative (pos n) = false
is_negative (negsuc n) = true

-- `create_map`, where allocation succeeds; `none` is the NULL returned with `EINVAL`.
unfoldable pub create_map : ℕ → Bool → Bool → Option HashMap
create_map capacity has_hash has_destroy =
    if capacity == 0 || not has_hash || not has_destroy
    then none
    else some (record {
      capacity = capacity;
      size = 0;
      nodes = replicate capacity null_node;
      num_readers = pos 0;
      invalid = false;
    })

module _ (same : ℕ → ℕ → Bool) where
  unfoldable pub get_keys_equal : Key → Key → Bool
  get_keys_equal key1 key2 =
      key1.key_len == key2.key_len
      && (key1.key_base == key2.key_base || same key1.key_base key2.key_base)

  unfoldable pub get_vals_equal : Val → Val → Bool
  get_vals_equal val1 val2 =
      val1.val_len == val2.val_len
      && (val1.val_base == val2.val_base || same val1.val_base val2.val_base)

  unfoldable pub node_is_empty : Node → Bool
  node_is_empty node = get_keys_equal node.key (map_key 0 0) && not node.tombstone

  unfoldable pub node_has_key : Node → Key → Bool
  node_has_key node key = not node.tombstone && get_keys_equal node.key key

  unfoldable pub can_put_key : Node → Key → Bool
  can_put_key node key = node_is_empty node || node_has_key node key

  -- `while (index != start_index && !can_put_key(…)) index = (index + 1) % capacity`, the loop of
  -- `get`, `delete` and, with the search for a tombstone beside it, of `put`.
  unfoldable pub probe : ℕ → List Node → ℕ → Key → ℕ → ℕ → ℕ
  probe zero nodes capacity key start_index index = index
  probe (suc fuel) nodes capacity key start_index index =
      let rest = probe fuel nodes capacity key start_index ((index + 1) % capacity) in
      if index == start_index || can_put_key (node_at nodes index) key then index else rest

  -- The value of `first_tombstone` behind that loop, given its value before.
  unfoldable pub find_tombstone : ℕ → List Node → ℕ → Key → ℕ → ℕ → Option ℕ → Option ℕ
  find_tombstone zero nodes capacity key start_index index first_tombstone = first_tombstone
  find_tombstone (suc fuel) nodes capacity key start_index index (some t) = some t
  find_tombstone (suc fuel) nodes capacity key start_index index none =
      let rest =
        find_tombstone fuel nodes capacity key start_index ((index + 1) % capacity)
          (if (node_at nodes index).tombstone then some index else none) in
      if index == start_index || can_put_key (node_at nodes index) key then none else rest

  module _ (hash : Key → ℕ) where
    abbrev pub get_index : HashMap → Key → ℕ
    get_index self key = hash key % self.capacity

    -- The rounds of a probe: one for each node at most.
    abbrev pub probe_index : HashMap → Key → ℕ
    probe_index self key =
        let start_index = get_index self key in
        probe self.capacity self.nodes self.capacity key start_index
          ((start_index + 1) % self.capacity)

    abbrev pub tombstone_index : HashMap → Key → Option ℕ
    tombstone_index self key =
        let start_index = get_index self key in
        find_tombstone self.capacity self.nodes self.capacity key start_index
          ((start_index + 1) % self.capacity)
          (if (node_at self.nodes start_index).tombstone then some start_index else none)

    -- The nodes that `put` leaves; `none` is the write through `first_tombstone == NULL`.
    unfoldable pub put_nodes : HashMap → Key → Val → Bool → Option (List Node)
    put_nodes self key val force =
        let start_index = get_index self key in
        let node = node_at self.nodes start_index in
        let index = probe_index self key in
        if self.capacity == self.size && force
        then some (set self.nodes start_index (map_node key val false))
        else if not (can_put_key node key)
        then (if not (index == start_index)
            then some (
                set self.nodes index (
                  if node_is_empty (node_at self.nodes index)
                  then map_node key val false
                  else record (node_at self.nodes index) { val = val }))
            else elim (tombstone_index self key) [
              | none ↦ none
              | some t ↦ some (set self.nodes t (map_node key val false))
            ])
        else some (set self.nodes start_index (record node { key = key; val = val }))

    -- `size--` where the map is full and `force` is set, then `size++`.
    abbrev pub put_size : HashMap → Bool → ℕ
    put_size self force =
        let size =
          if self.capacity == self.size && force
          then (self.size + 2 ^ 32 - 1) % 2 ^ 32
          else self.size in
        (size + 1) % 2 ^ 32

    unfoldable pub put : Option HashMap → Key → Val → Bool → Result Bool
    put none key val force = returns false (some einval) none
    put (some self) key val force =
        if get_keys_equal key (map_key 0 0) || get_vals_equal val (map_val 0 0) || self.invalid
        then returns false (some einval) (some self)
        else if self.capacity == self.size && not force
        then returns false (some enomem) (some self)
        else if is_positive self.num_readers
        then spins
        else elim (put_nodes self key val force) [
          | none ↦ faults
          | some nodes ↦ returns true none (
              some (record self { nodes = nodes; size = put_size self force; num_readers = pos 0 }))
        ]

    -- The value that `get` finds.
    unfoldable pub get_value : HashMap → Key → Val
    get_value self key =
        let start_index = get_index self key in
        let node = node_at self.nodes start_index in
        let other = node_at self.nodes (probe_index self key) in
        if node_is_empty node
        then map_val 0 0
        else if node_has_key node key
        then node.val
        else if node_has_key other key
        then other.val
        else map_val 0 0

    -- `num_readers` is counted up and down again, which one thread does not see.
    unfoldable pub get : Option HashMap → Key → Result Val
    get none key = returns (map_val 0 0) (some einval) none
    get (some self) key =
        if get_keys_equal key (map_key 0 0) || self.invalid
        then returns (map_val 0 0) (some einval) (some self)
        else if is_negative self.num_readers
        then spins
        else returns (get_value self key) none (some self)

    -- The node returned and the nodes left. A key found by probing leaves its own node as it is.
    unfoldable pub delete_nodes : HashMap → Key → Node × List Node
    delete_nodes self key =
        let start_index = get_index self key in
        let node = node_at self.nodes start_index in
        let other = node_at self.nodes (probe_index self key) in
        if node_is_empty node
        then (null_node, self.nodes)
        else if node_has_key node key
        then (node, set_tombstone self.nodes start_index)
        else if node_has_key other key
        then (other, set_tombstone self.nodes start_index)
        else (null_node, self.nodes)

    unfoldable pub delete : Option HashMap → Key → Result Node
    delete none key = returns null_node (some einval) none
    delete (some self) key =
        if get_keys_equal key (map_key 0 0) || self.invalid
        then returns null_node (some einval) (some self)
        else if is_positive self.num_readers
        then spins
        else (let (node, nodes) = delete_nodes self key in
            returns node none (
              some (record self {
                nodes = nodes;
                size = (self.size + 2 ^ 32 - 1) % 2 ^ 32;
                num_readers = pos 0;
              })))

-- The calls of `destroy_function`, in order; every node is then as `calloc` leaves it.
abbrev pub destroyed : List Node → List (Key × Val)
destroyed [] = []
destroyed (n ∷ ns) = (n.key, n.val) ∷ destroyed ns

-- The value returned with the calls of the destructor.
unfoldable pub clear_map : Option HashMap → Result (Bool × List (Key × Val))
clear_map none = returns (false, []) (some einval) none
clear_map (some self) =
    if self.invalid
    then returns (false, []) (some einval) (some self)
    else if is_positive self.num_readers
    then spins
    else returns (true, destroyed self.nodes) none
        (some (record self {
          nodes = replicate self.capacity null_node;
          size = 0;
          num_readers = pos 0;
        }))

-- The nodes are freed.
unfoldable pub invalidate_map : Option HashMap → Result (Bool × List (Key × Val))
invalidate_map none = returns (false, []) (some einval) none
invalidate_map (some self) =
    if self.invalid
    then returns (false, []) (some einval) (some self)
    else if is_positive self.num_readers
    then spins
    else returns (true, destroyed self.nodes) none
        (some (record { capacity = 0; size = 0; nodes = []; num_readers = pos 0; invalid = true }))
