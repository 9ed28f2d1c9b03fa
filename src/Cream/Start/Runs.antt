-- ===== src/Cream/Start/Runs.antt =====
-- The server of hw5/src/cream.c from its arguments to its connections.
use system_fundamentals_c_pr.Base.{
  ℕ, zero, suc, ◌≢◌, eq_of_some, ==_of_ne, ◌^◌, ◌<◌, ◌≡◌, ◌⊎◌, inl, inr, refl, ap, ◌∙◌, Bool, true,
  false, Option, none, some, List, [], ◌∷◌, ltb, arith, Bool-cases, Option-cases, ℤ, pos, negsuc,
}
use system_fundamentals_c_pr.Cream.Map.{Key, map_key, Val, HashMap, create_map, get_keys_equal}
use system_fundamentals_c_pr.Cream.Map.Lookup.{IsReady}
use system_fundamentals_c_pr.Cream.Map.Clear.{get-create_map}
use system_fundamentals_c_pr.Cream.Server.{Connection, worker_thread}
use system_fundamentals_c_pr.Cream.Server.Ready.{AllServed, worker_thread-KeepsReady}
use system_fundamentals_c_pr.Cream.Start.{
  starts, all_digits, asks_help, read_count, start_with, check_arguments, main,
}

ℤ-cases : (z : ℤ) → ((n : ℕ) × (z ≡ pos n)) ⊎ ((n : ℕ) × (z ≡ negsuc n))
ℤ-cases (pos n) = inl (n, refl)
ℤ-cases (negsuc n) = inr (n, refl)

read_count-positive :
    (atoi : List ℕ → ℤ) (s : List ℕ) (n : ℕ)
    → read_count atoi s ≡ some n
    → (all_digits s ≡ true) × (atoi s ≡ pos n) × (0 < n)
unfolding read_count
read_count-positive atoi s n h = elim (Bool-cases (all_digits s)) [
  | inr e ↦ absurd (ground (arith, h, e))
  | inl e ↦ elim (ℤ-cases (atoi s)) [
    | inr (k, f) ↦ absurd (ground (arith, h, e, f))
    | inl (k, f) ↦ elim (Bool-cases (ltb k 1)) [
      | inl g ↦ absurd (ground (arith, h, e, f, g))
      | inr g ↦ (e, ground (arith, h, e, f, g), ground (arith, h, e, f, g))
    ]
  ]
]

-- What `starts` says of the three arguments.
record Accepts (atoi : List ℕ → ℤ) (a b c : List ℕ) (workers : ℕ) (port : List ℕ)
    (cache : Option HashMap) : Type 0 where
  worker_digits : all_digits a ≡ true
  worker_count : atoi a ≡ pos workers
  some_worker : 0 < workers
  same_port : port ≡ b
  port_digits : all_digits b ≡ true
  max_entries : ℕ
  entry_digits : all_digits c ≡ true
  entry_count : atoi c ≡ pos max_entries
  some_entry : 0 < max_entries
  created : create_map max_entries true true ≡ cache

start_with-Accepts :
    (atoi : List ℕ → ℤ) (a b c : List ℕ) (workers : ℕ) (port : List ℕ) (cache : Option HashMap)
    → start_with atoi a b c ≡ starts workers port cache
    → Accepts atoi a b c workers port cache
unfolding start_with
start_with-Accepts atoi a b c workers port cache h = elim (Option-cases (read_count atoi a)) [
  | inl e ↦ absurd (ground (arith, h, e))
  | inr (n, e) ↦ elim (Bool-cases (all_digits b)) [
    | inr f ↦ absurd (ground (arith, h, e, f))
    | inl f ↦ elim (Option-cases (read_count atoi c)) [
      | inl g ↦ absurd (ground (arith, h, e, f, g))
      | inr (k, g) ↦
          let r : starts n b (create_map k true true) ≡ starts workers port cache =
            ground (arith, h, e, f, g) in
          let (ad, ac, ap') = read_count-positive atoi a n e in
          let (cd, cc', cp) = read_count-positive atoi c k g in
          let en : n ≡ workers = cc r in
          record {
            worker_digits = ad;
            worker_count = ac ∙ ap pos en;
            some_worker = rw en at ap';
            same_port = cc r;
            port_digits = f;
            max_entries = k;
            entry_digits = cd;
            entry_count = cc';
            some_entry = cp;
            created = cc r;
          }
    ]
  ]
]

check_arguments-Accepts :
    (atoi : List ℕ → ℤ) (args : List (List ℕ)) (workers : ℕ) (port : List ℕ)
    (cache : Option HashMap)
    → check_arguments atoi args ≡ starts workers port cache
    → (a b c : List ℕ) × (rest : List (List ℕ)) × (args ≡ a ∷ b ∷ c ∷ rest)
      × Accepts atoi a b c workers port cache
unfolding check_arguments
check_arguments-Accepts atoi [] workers port cache h = absurd (cc h)
check_arguments-Accepts atoi (a ∷ []) workers port cache h = absurd (cc h)
check_arguments-Accepts atoi (a ∷ b ∷ []) workers port cache h = absurd (cc h)
check_arguments-Accepts atoi (a ∷ b ∷ c ∷ rest) workers port cache h =
    (a, b, c, rest, refl, start_with-Accepts atoi a b c workers port cache h)

created-some :
    (n : ℕ) (cache : Option HashMap) → 0 < n → create_map n true true ≡ cache → cache ≢ none
unfolding create_map
created-some zero cache l h e = absurd (omega arith)
created-some (suc n) cache l h e = absurd (ground (arith, h, e))

capacity-create_map : (n : ℕ) (m : HashMap) → create_map n true true ≡ some m → n ≡ m.capacity
unfolding create_map
capacity-create_map zero m h = absurd (cc h)
capacity-create_map (suc n) m h =
    ap (λ (x : HashMap). x.capacity) (eq_of_some (rw (==_of_ne (suc n) 0 (omega arith)) at h))

one_byte : (same : ℕ → ℕ → Bool) → get_keys_equal same (map_key 0 1) (map_key 0 0) ≡ false
unfolding get_keys_equal
one_byte same = refl

-- What the server is started with, and does: at least three arguments, none of them `-h`; as many workers
-- as `atoi` reads in the first, the second as the port, and a map of as many entries as it reads in the
-- third, each of them at least one and written in digits; and that map is ready for the connections `cs`.
pub record Serves (same : ℕ → ℕ → Bool) (hash : Key → ℕ) (atoi : List ℕ → ℤ) (args : List (List ℕ))
    (workers : ℕ) (port : List ℕ) (cache : Option HashMap) (cs : List (Connection × Val))
    : Type 0 where
  no_help : asks_help args ≡ false
  first : List ℕ
  third : List ℕ
  others : List (List ℕ)
  arguments : args ≡ first ∷ port ∷ third ∷ others
  digits : (all_digits first ≡ true) × (all_digits port ≡ true) × (all_digits third ≡ true)
  counted : atoi first ≡ pos workers
  some_worker : 0 < workers
  map : HashMap
  created : cache ≡ some map
  sized : atoi third ≡ pos map.capacity
  ready : IsReady map
  served : AllServed cs (worker_thread same hash cs cache)

-- When the checks of `main` let it start, with an `atoi` whose results are below 2 ^ 31, the arguments are
-- what the checks ask for, `create_map` succeeds with a map of the size asked for, and whatever requests
-- come to a worker on that map, each round leaves it ready, and only a PUT can end at a write through NULL.
pub main-Serves :
    (same : ℕ → ℕ → Bool) (hash : Key → ℕ) (atoi : List ℕ → ℤ)
    → ((s : List ℕ) (n : ℕ) → atoi s ≡ pos n → n < 2 ^ 31)
    → (args : List (List ℕ)) (workers : ℕ) (port : List ℕ) (cache : Option HashMap)
      (cs : List (Connection × Val))
    → main atoi args ≡ starts workers port cache
    → Serves same hash atoi args workers port cache cs
unfolding main
main-Serves same hash atoi int args workers port cache cs h = elim (Bool-cases (asks_help args)) [
  | inl e ↦ absurd (ground (arith, h, e))
  | inr e ↦
      let (a, b, c, rest, shape, ok) =
        check_arguments-Accepts atoi args workers port cache (ground (arith, h, e)) in
      elim (Option-cases cache) [
        | inl f ↦ absurd (created-some ok.max_entries cache ok.some_entry ok.created f)
        | inr (m, f) ↦
            let made : create_map ok.max_entries true true ≡ some m = ok.created ∙ f in
            let (r, size, g) =
              get-create_map same hash ok.max_entries m (map_key 0 1)
                (omega (arith, int c ok.max_entries ok.entry_count)) made (one_byte same) in
            record {
              no_help = e;
              first = a;
              third = c;
              others = rest;
              arguments = rw ok.same_port shape;
              digits = (ok.worker_digits, rw ok.same_port ok.port_digits, ok.entry_digits);
              counted = ok.worker_count;
              some_worker = ok.some_worker;
              map = m;
              created = f;
              sized = ok.entry_count ∙ ap pos (capacity-create_map ok.max_entries m made);
              ready = r;
              served = rw f (worker_thread-KeepsReady same hash cs m r);
            }
      ]
]
