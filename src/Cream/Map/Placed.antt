-- ===== src/Cream/Map/Placed.antt =====
-- Keys of hw5/src/hashmap.c that differ, and probes that find a key wherever it stands.
use native.Mathlib.Decide.{ℕ_discrete, dec_lt}
use system_fundamentals_c_pr.Base.{
  ℕ, ◌<◌, ◌≡◌, ◌⊎◌, inl, inr, ap, ◌∙◌, sym, Bool, true, false, arith, Bool-cases,
}
use system_fundamentals_c_pr.Cream.Map.{
  Key, map_key, Node, HashMap, node_at, get_keys_equal, node_is_empty, node_has_key, can_put_key,
  put,
}
use system_fundamentals_c_pr.Cream.Map.Offset.{slot, slot_round, slot_zero}
use system_fundamentals_c_pr.Cream.Map.Probe.{Ends}
use system_fundamentals_c_pr.Cream.Map.Lookup.{
  cannot_put, empty_of_put, can_put_of_key, start, node, start-lt, probe_end, first_missed,
}

-- `strcmp(p, q) == 0` as a relation: strings that are equal to one string are equal.
pub record IsEquivalence (same : ℕ → ℕ → Bool) : Type 0 where
  pub symmetric : (p q : ℕ) → same p q ≡ true → same q p ≡ true
  pub transitive : (p q r : ℕ) → same p q ≡ true → same q r ≡ true → same p r ≡ true

module _ (same : ℕ → ℕ → Bool) (law : IsEquivalence same) where
  pub equal_sym : (a b : Key) → get_keys_equal same a b ≡ true → get_keys_equal same b a ≡ true
  unfolding get_keys_equal
  equal_sym a b h = ground (arith, law.symmetric a.key_base b.key_base)

  pub equal_trans :
      (a b c : Key)
      → get_keys_equal same a b ≡ true
      → get_keys_equal same b c ≡ true
      → get_keys_equal same a c ≡ true
  unfolding get_keys_equal
  equal_trans a b c h k = ground (arith, law.transitive a.key_base b.key_base c.key_base)

  -- A live node holds one key only.
  pub other_key :
      (n : Node) (a b : Key)
      → node_has_key same n a ≡ true
      → get_keys_equal same a b ≡ false
      → node_has_key same n b ≡ false
  unfolding node_has_key
  other_key n a b h ne = elim (Bool-cases (get_keys_equal same n.key b)) [
    | inr e ↦ ground (arith, e)
    | inl e ↦
        let na : get_keys_equal same n.key a ≡ true = ground arith in
        absurd (cc (ne, equal_trans a n.key b (equal_sym n.key a na) e))
  ]

  empty_has :
      (n : Node) (k : Key)
      → node_is_empty same n ≡ true
      → get_keys_equal same k (map_key 0 0) ≡ false
      → node_has_key same n k ≡ false
  unfolding node_is_empty node_has_key
  empty_has n k h valid = elim (Bool-cases (get_keys_equal same n.key k)) [
    | inr e ↦ ground (arith, e)
    | inl e ↦
        let z : get_keys_equal same n.key (map_key 0 0) ≡ true = ground arith in
        absurd (cc (valid, equal_trans k n.key (map_key 0 0) (equal_sym n.key k e) z))
  ]

  -- The node that `put` chose holds no other key.
  pub chosen_has :
      (n : Node) (a b : Key)
      → (can_put_key same n a ≡ true) ⊎ (n.tombstone ≡ true)
      → get_keys_equal same a b ≡ false
      → get_keys_equal same b (map_key 0 0) ≡ false
      → node_has_key same n b ≡ false
  unfolding node_has_key
  chosen_has n a b (inr t) ne valid = ground (arith, t)
  chosen_has n a b (inl p) ne valid = elim (Bool-cases (node_has_key same n a)) [
    | inl h ↦ other_key n a b h ne
    | inr h ↦ empty_has n b (empty_of_put same n a p h) valid
  ]

module _ (same : ℕ → ℕ → Bool) where
  pub cannot_of :
      (n : Node) (k : Key)
      → node_is_empty same n ≡ false
      → node_has_key same n k ≡ false
      → can_put_key same n k ≡ false
  unfolding can_put_key
  cannot_of n k f g = ground (arith, f, g)

-- No node of the key stands behind an empty node of its probe.
unfoldable pub IsPlaced : (ℕ → ℕ → Bool) → (Key → ℕ) → HashMap → Key → Type 0
IsPlaced same hash m k =
    (d w : ℕ)
    → d < w
    → w < m.capacity
    → node_has_key same (node same hash m k w) k ≡ true
    → node_is_empty same (node same hash m k d) ≡ false

module _ (same : ℕ → ℕ → Bool) (law : IsEquivalence same) (hash : Key → ℕ) (m : HashMap) (k : Key)
    (valid : get_keys_equal same k (map_key 0 0) ≡ false) (positive : 0 < m.capacity) where
  pub find_end : (e : ℕ) × Ends same m.nodes m.capacity k (start same hash m k) e
  find_end = elim (Bool-cases (can_put_key same (node same hash m k 0) k)) [
    | inl put ↦ (
      0,
      record {
        within = omega arith;
        missed = λ d l. absurd (omega arith);
        found = inr (positive, put);
      },
    )
    | inr missed ↦
        let (e, p, ends, h) =
          probe_end same hash m k positive (first_missed same hash m k positive missed) in
        (e, ends)
  ]

  pub full_of_key : (n : Node) → node_has_key same n k ≡ true → node_is_empty same n ≡ false
  full_of_key n h = elim (Bool-cases (node_is_empty same n)) [
    | inl e ↦ absurd (cc (h, empty_has same law n k e valid))
    | inr f ↦ f
  ]

  -- A probe that went all the way round is back at a node that it missed.
  pub round_has :
      (e : ℕ)
      → Ends same m.nodes m.capacity k (start same hash m k) e
      → node_has_key same (node same hash m k e) k ≡ true
      → e < m.capacity
  round_has e ends h = elim ends.found [
    | inr (l, put) ↦ l
    | inl eq ↦
        let s = start-lt same hash m k positive in
        let first =
          (cannot_put same (node same hash m k 0) k
            (ends.missed 0 (omega (arith, eq, positive)))).1 in
        let back : node same hash m k e ≡ node same hash m k 0 = ap (node_at m.nodes) (
          ap (slot m.capacity (start same hash m k)) eq
          ∙ slot_round m.capacity (start same hash m k) s
          ∙ sym (slot_zero m.capacity (start same hash m k) s)) in
        absurd (cc (rw back at h, first))
  ]

  pub nowhere_else :
      IsPlaced same hash m k
      → (e w : ℕ) → Ends same m.nodes m.capacity k (start same hash m k) e
      → node_has_key same (node same hash m k e) k ≡ false
      → w < m.capacity
      → node_has_key same (node same hash m k w) k ≡ true
      → ⊥
  unfolding IsPlaced
  nowhere_else placed e w ends h l has = elim (dec_lt w e) [
    | yes lt ↦ absurd (cc (ends.missed w lt, can_put_of_key same (node same hash m k w) k has))
    | no ge ↦ elim (ℕ_discrete e w) [
      | yes eq ↦ absurd (cc (rw eq at h, has))
      | no ne ↦ elim ends.found [
        | inl all ↦ absurd (omega arith)
        | inr (r, put) ↦
            absurd (
              cc (placed e w (omega arith) l has, empty_of_put same (node same hash m k e) k put h))
      ]
    ]
  ]
