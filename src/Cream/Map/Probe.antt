-- ===== src/Cream/Map/Probe.antt =====
-- Where the probing of hw5/src/hashmap.c ends.
use native.Mathlib.Decide.{ℕ_discrete, dec_lt}
use system_fundamentals_c_pr.Base.{
  ℕ, zero, suc, ◌+◌, ◌%◌, ◌≤◌, ◌<◌, ◌≡◌, ◌⊎◌, inl, inr, refl, ap, sym, Bool, true, false, List,
  arith, Bool-cases, ==_refl, ==_of_ne, if◌then◌else◌, Option, none, some,
}
use system_fundamentals_c_pr.Cream.Map.{Key, Node, node_at, can_put_key, probe, find_tombstone}
use system_fundamentals_c_pr.Cream.Map.Offset.{
  slot, slot_ne_start, slot_round, slot_step, slot_zero,
}

module _ (same : ℕ → ℕ → Bool) (nodes : List Node) (capacity : ℕ) (key : Key) (start : ℕ) where
  -- The node at an offset from the start of the probe.
  abbrev pub along : ℕ → Node
  along d = node_at nodes (slot capacity start d)

  -- No node before the offset takes the key.
  abbrev pub Missed : ℕ → Type 0
  Missed e = (d : ℕ) → d < e → can_put_key same (along d) key ≡ false

  -- The offset at which the probe ends: the first node that takes the key, or all the way round.
  pub record Ends (e : ℕ) : Type 0 where
    pub within : e ≤ capacity
    pub missed : Missed e
    pub found : (e ≡ capacity) ⊎ ((e < capacity) × (can_put_key same (along e) key ≡ true))

  Missed-suc : (d : ℕ) → Missed d → can_put_key same (along d) key ≡ false → Missed (d + 1)
  Missed-suc d m no_put i h = elim (ℕ_discrete i d) [
    | yes e ↦ rw e no_put
    | no ne ↦ m i (omega arith)
  ]

  not_before : (e f : ℕ) → Ends e → Missed f → f ≤ capacity → f ≤ e
  not_before e f a m l = elim a.found [
    | inl h ↦ omega arith
    | inr (h, put) ↦ elim (dec_lt e f) [ yes lt ↦ cc (m e lt) | no ge ↦ omega arith ]
  ]

  pub Ends-unique : (e f : ℕ) → Ends e → Ends f → e ≡ f
  Ends-unique e f a b =
      omega (arith, not_before e f a b.missed b.within, not_before f e b a.missed a.within)

  module _ (s : start < capacity) where
    probe-Ends :
        (fuel d : ℕ)
        → 0 < d
        → d ≤ capacity
        → capacity ≤ fuel + d
        → Missed d
        → (e : ℕ) × (0 < e)
          × Ends e
          × (probe same fuel nodes capacity key start (slot capacity start d)
              ≡ slot capacity start e)
    unfolding probe
    probe-Ends zero d p l f m =
        let e : d ≡ capacity = omega arith in
        (d, p, record { within = l; missed = m; found = inl e }, refl)
    probe-Ends (suc fuel) d p l f m = elim (ℕ_discrete d capacity) [
      | yes e ↦ (
        d,
        p,
        record { within = l; missed = m; found = inl e },
        rw (e, slot_round capacity start s, ==_refl start),
      )
      | no ne ↦ elim (Bool-cases (can_put_key same (along d) key)) [
        | inl put ↦ (
          d,
          p,
          record { within = l; missed = m; found = inr (omega arith, put) },
          rw (==_of_ne _ _ (slot_ne_start capacity start s d p (omega arith)), put),
        )
        | inr not_put ↦
            let (e, p', r, h) =
              probe-Ends fuel (d + 1) (omega arith) (omega arith) (omega arith)
                (Missed-suc d m not_put) in
            (
              e,
              p',
              r,
              rw
                  (
                    ==_of_ne _ _ (slot_ne_start capacity start s d p (omega arith)),
                    not_put,
                    slot_step capacity start s d (omega arith),
                  )
                  h,
            )
      ]
    ]

    pub probe_lem :
        0 < capacity
        → can_put_key same (node_at nodes start) key ≡ false
        → (e : ℕ) × (0 < e)
          × Ends e
          × (probe same capacity nodes capacity key start ((start + 1) % capacity)
              ≡ slot capacity start e)
    probe_lem p h =
        probe-Ends capacity 1 (omega arith) (omega arith) (omega arith)
          (λ d l. let e : d ≡ 0 = omega arith in rw (e, slot_zero capacity start s) h)

    -- A tombstone of the probe, or none before an offset.
    pub data Tombstone (r : Option ℕ) (n : ℕ) : Type 0 where
      hit :
          (w : ℕ)
          → w < capacity
          → r ≡ some (slot capacity start w)
          → (along w).tombstone ≡ true
          → Tombstone r n
      miss : r ≡ none → ((d : ℕ) → d < n → (along d).tombstone ≡ false) → Tombstone r n

    some_stays : (i n k : ℕ) → Tombstone (some i) n → Tombstone (some i) k
    some_stays i n k (hit w l e t) = hit w l e t
    some_stays i n k (miss e t) = absurd (cc e)

    none_next : (d : ℕ) → Tombstone none d → (along d).tombstone ≡ false → Tombstone none (d + 1)
    none_next d (hit w l e t) h = absurd (cc e)
    none_next d (miss e t) h =
        miss refl λ i l. elim (ℕ_discrete i d) [ yes eq ↦ rw eq h | no ne ↦ t i (omega arith) ]

    Tombstone-loop :
        Missed capacity
        → (fuel d : ℕ) (r : Option ℕ) → 0 < d
        → d ≤ capacity
        → capacity ≤ fuel + d
        → Tombstone r d
        → Tombstone
            (find_tombstone same fuel nodes capacity key start (slot capacity start d) r)
            capacity
    unfolding find_tombstone
    Tombstone-loop m zero d r p l f t = let e : capacity ≡ d = omega arith in rw e t
    Tombstone-loop m (suc fuel) d (some i) p l f t = some_stays i d capacity t
    Tombstone-loop m (suc fuel) d none p l f t = elim (ℕ_discrete d capacity) [
      | yes e ↦ rw (e, slot_round capacity start s, ==_refl start) (rw (← e) t)
      | no ne ↦
          rw
            (
              ==_of_ne _ _ (slot_ne_start capacity start s d p (omega arith)),
              m d (omega arith),
              slot_step capacity start s d (omega arith),
            )
            (elim (Bool-cases (along d).tombstone) [
              | inl yes_t ↦ rw yes_t (
                  Tombstone-loop m fuel (d + 1) _ (omega arith) (omega arith) (omega arith)
                    (hit d (omega arith) refl yes_t))
              | inr no_t ↦ rw no_t (
                  Tombstone-loop m fuel (d + 1) _ (omega arith) (omega arith) (omega arith)
                    (none_next d t no_t))
            ])
    ]

    pub tombstone_lem :
        0 < capacity
        → Missed capacity
        → Tombstone
            (find_tombstone same capacity nodes capacity key start
              ((start + 1) % capacity)
              (if (node_at nodes start).tombstone then some start else none))
            capacity
    tombstone_lem p m =
        Tombstone-loop m capacity 1 _ (omega arith) (omega arith) (omega arith)
          (elim (Bool-cases (node_at nodes start).tombstone) [
            | inl t ↦ rw t (
                hit 0 p (ap some (sym (slot_zero capacity start s)))
                  (rw (slot_zero capacity start s) t))
            | inr t ↦ rw t (
                miss refl
                  λ d l. let e : d ≡ 0 = omega arith in rw (e, slot_zero capacity start s) t)
          ])
