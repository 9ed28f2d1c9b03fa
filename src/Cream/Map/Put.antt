-- ===== src/Cream/Map/Put.antt =====
-- `put` of hw5/src/hashmap.c, and that `get` finds what it wrote.
use system_fundamentals_c_pr.Base.{
  ℕ, ◌<◌, ◌≡◌, ◌≢◌, inl, inr, refl, ap, ◌∙◌, sym, Bool, true, false, List, length, length-set,
  get_or-set_self, get_or-set_ne, arith, Option-cases, Option, none, some, pos,
}
use system_fundamentals_c_pr.Cream.Map.{
  Errno, Key, Val, map_key, Node, null_node, HashMap, returns, node_at, get_keys_equal, get_value,
  put_nodes, put, put_size, get,
}
use system_fundamentals_c_pr.Cream.Map.Offset.{slot, slot-lt, slot_injective}
use system_fundamentals_c_pr.Cream.Map.Lookup.{IsReady, start, node, start-lt, get_value_found}
use system_fundamentals_c_pr.Cream.Map.Written.{Written, put_nodes-Written}

module _ (same : ℕ → ℕ → Bool) (hash : Key → ℕ) (m : HashMap) (key : Key) (val : Val) where
  -- A call of `put` that returns true took these steps.
  pub record Succeeds (force : Bool) (m' : HashMap) : Type 0 where
    pub valid : get_keys_equal same key (map_key 0 0) ≡ false
    pub nodes : List Node
    pub written : put_nodes same hash m key val force ≡ some nodes
    pub result :
        m' ≡ record m { nodes = nodes; size = put_size same hash m force; num_readers = pos 0 }

  pub put-Succeeds :
      (force : Bool) (err : Option Errno) (m' : HashMap)
      → put same hash (some m) key val force ≡ returns true err (some m')
      → Succeeds force m'
  unfolding put
  put-Succeeds force err m' e = elim (Option-cases (put_nodes same hash m key val force)) [
    | inl w ↦ absurd (ground (arith, w))
    | inr (nodes, w) ↦ record {
      valid = ground arith;
      nodes = nodes;
      written = w;
      result = ground (arith, w);
    }
  ]

  module _ (ready : IsReady m) (force : Bool) (m' : HashMap) (ok : Succeeds force m') where
    pub Written-ok : Written same hash m key val ok.nodes
    Written-ok = put_nodes-Written same hash m key val ready ok.valid force ok.nodes ok.written

    open Written-ok use {offset as w, node as n, within, missed, wrote, has_key, full, holds}

    pub put-IsReady : IsReady m'
    put-IsReady = rw ok.result (record {
      valid = ready.valid;
      idle = refl;
      allocated = ap length wrote ∙ length-set m.nodes _ n ∙ ready.allocated;
      positive = ready.positive;
      bounded = ready.bounded;
    })

    start-lt-capacity : start same hash m key < m.capacity
    start-lt-capacity = start-lt same hash m key ready.positive

    pub new_node : node same hash m' key w ≡ n
    new_node =
        rw (ok.result, wrote)
          (get_or-set_self m.nodes _ n null_node (
            omega (
              arith,
              ready.allocated,
              slot-lt m.capacity (start same hash m key) start-lt-capacity w
                  (omega (arith, within)),
            )))

    pub other_node :
        (i : ℕ)
        → i ≢ slot m.capacity (start same hash m key) w
        → node_at m'.nodes i ≡ node_at m.nodes i
    other_node i ne =
        rw (ok.result, wrote) (get_or-set_ne m.nodes _ i n null_node (λ e. ne (sym e)))

    old_node : (d : ℕ) → d < w → node same hash m' key d ≡ node same hash m key d
    old_node d l = rw (ap (λ (h : HashMap). h.capacity) ok.result) (
        other_node (slot m.capacity (start same hash m key) d) λ e. absurd (
          omega (
            arith,
            slot_injective m.capacity (start same hash m key) start-lt-capacity d w
                (omega (arith, within)) within e,
          )))

    get_value-put : get_value same hash m' key ≡ val
    get_value-put =
        let cap : m'.capacity ≡ m.capacity = ap (λ (h : HashMap). h.capacity) ok.result in
        get_value_found same hash m' key put-IsReady.positive w (rw cap within)
          (λ d l. rw (old_node d l) (missed d l)) (rw new_node has_key) (rw new_node full)
        ∙ ap (λ (x : Node). x.val) new_node
        ∙ holds

  -- A `put` that returns true leaves a map that can be used, and `get` returns the value put, without
  -- changing the map; whatever the map held, full or not, and with or without `force`.
  pub get-put :
      IsReady m
      → (force : Bool) (err : Option Errno) (m' : HashMap)
      → put same hash (some m) key val force ≡ returns true err (some m')
      → IsReady m' × (get same hash (some m') key ≡ returns val none (some m'))
  unfolding get
  get-put ready force err m' e =
      let ok = put-Succeeds force err m' e in
      let r = put-IsReady ready force m' ok in
      (r, ground (arith, ok.valid, r.valid, r.idle, get_value-put ready force m' ok))
