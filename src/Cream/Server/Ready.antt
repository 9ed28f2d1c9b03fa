-- ===== src/Cream/Server/Ready.antt =====
-- What one worker of hw5/src/cream.c leaves of its map, whatever is requested of it, while no other thread
-- calls the map.
use system_fundamentals_c_pr.Base.{
  ℕ, ◌≡◌, ◌⊎◌, inl, inr, refl, Bool, true, false, not, ◌&&◌, ◌||◌, Option, none, some, List, [],
  ◌∷◌, ltb, ◌==◌, arith, Bool-cases, Option-cases, pos,
}
use system_fundamentals_c_pr.Cream.Map.{
  Errno, Key, Val, map_key, map_val, Node, HashMap, Result, returns, faults, put, put_nodes,
  get_keys_equal, get_vals_equal, get_value, einval, null_node, put_size, get, delete, delete_nodes,
  clear_map, destroyed,
}
use system_fundamentals_c_pr.Cream.Map.Lookup.{IsReady}
use system_fundamentals_c_pr.Cream.Map.Put.{get-put}
use system_fundamentals_c_pr.Cream.Map.Marked.{deleted, deleted-IsReady}
use system_fundamentals_c_pr.Cream.Map.Clear.{cleared, cleared-IsReady}
use system_fundamentals_c_pr.Cream.Server.{
  ResponseHeader, put_code, get_code, evict_code, clear_code, min_key_size, min_value_size,
  max_key_size, max_value_size, Rio, done, broken_pipe, unix_error, Connection, Served, serves,
  ends_thread, ends_process, hangs, crashes, Reply, replies, leaves, waits, breaks, handle_put,
  handle_get, handle_evict, handle_clear, handle, write_reply, finish_round, next_round, respond,
  after_read, serve, worker_thread,
}
use system_fundamentals_c_pr.Cream.Server.Sessions.{key_of, val_of}

-- The server has a map that can be used.
abbrev pub HoldsReady : Option HashMap → Type 0
HoldsReady cache = (m : HashMap) × (cache ≡ some m) × IsReady m

-- Calls of the map that return, and leave it ready, or fault.
abbrev Ends : {A : Type 0} → Result A → Type 0
Ends r =
    ((a : _) × (e : Option Errno) × (m : HashMap) × (r ≡ returns a e (some m)) × IsReady m)
    ⊎ (r ≡ faults)

module _ (same : ℕ → ℕ → Bool) (hash : Key → ℕ) (m : HashMap) (ready : IsReady m) (k : Key) where
  put-Ends : (v : Val) → Ends (put same hash (some m) k v true)
  unfolding put
  put-Ends v =
      elim (Bool-cases
        (get_keys_equal same k (map_key 0 0) || get_vals_equal same v (map_val 0 0))) [
          | inl e ↦ inl (false, some einval, m, ground (arith, e), ready)
          | inr e ↦ elim (Option-cases (put_nodes same hash m k v true)) [
            | inl w ↦ inr (ground (arith, e, w, ready.valid, ready.idle))
            | inr (nodes, w) ↦
                let m' : HashMap = record m {
                  nodes = nodes;
                  size = put_size same hash m true;
                  num_readers = pos 0;
                } in
                let p : put same hash (some m) k v true ≡ returns true none (some m') =
                  ground (arith, e, w, ready.valid, ready.idle) in
                inl (true, none, m', p, (get-put same hash m k v ready true none m' p).0)
          ]
        ]

  get-Ends : (w : Val) × (e : Option Errno) × (get same hash (some m) k ≡ returns w e (some m))
  unfolding get
  get-Ends = elim (Bool-cases (get_keys_equal same k (map_key 0 0))) [
    | inl e ↦ (map_val 0 0, some einval, ground (arith, e))
    | inr e ↦ (get_value same hash m k, none, ground (arith, e, ready.valid, ready.idle))
  ]

  delete-Ends :
      (n : Node) × (e : Option Errno) × (m' : HashMap) × (delete same hash (some m) k
        ≡ returns n e (some m'))
      × IsReady m'
  unfolding delete
  delete-Ends = elim (Bool-cases (get_keys_equal same k (map_key 0 0))) [
    | inl e ↦ (null_node, some einval, m, ground (arith, e), ready)
    | inr e ↦ (
      (delete_nodes same hash m k).0,
      none,
      deleted same hash m k,
      ground (arith, e, ready.valid, ready.idle),
      deleted-IsReady same hash m k ready,
    )
  ]

Rio-cases : (r : Rio) → (r ≡ done) ⊎ ((r ≡ broken_pipe) ⊎ (r ≡ unix_error))
Rio-cases done = inl refl
Rio-cases broken_pipe = inr (inl refl)
Rio-cases unix_error = inr (inr refl)

-- `clear_map` returns.
clear_map-Ends :
    (m : HashMap)
    → IsReady m
    → clear_map (some m) ≡ returns (true, destroyed m.nodes) none (some (cleared m))
unfolding clear_map
clear_map-Ends m ready = ground (arith, ready.valid, ready.idle)

-- A reply that keeps the map ready; it writes through NULL in a PUT only.
abbrev KeepsReply : Connection → Reply → Type 0
KeepsReply c (replies header v cache) = HoldsReady cache
KeepsReply c (leaves messages) = Unit
KeepsReply c waits = ⊥
KeepsReply c breaks = c.header.request_code ≡ put_code

-- The map is ready when a round ends, which is never in the loop on the readers, and at a write through
-- NULL in a PUT only.
abbrev pub KeepsReady : Connection → Served → Type 0
KeepsReady c (serves messages cache) = HoldsReady cache
KeepsReady c (ends_thread messages cache) = HoldsReady cache
KeepsReady c (ends_process messages cache) = HoldsReady cache
KeepsReady c hangs = ⊥
KeepsReady c crashes = c.header.request_code ≡ put_code

-- Of each connection that is served; those after the thread's end are not.
abbrev pub AllServed : List (Connection × Val) → List Served → Type 0
AllServed cs [] = Unit
AllServed [] (r ∷ rs) = ⊥
AllServed ((c, v) ∷ cs) (r ∷ rs) = KeepsReady c r × AllServed cs rs

module _ (same : ℕ → ℕ → Bool) (hash : Key → ℕ) (c : Connection) (m : HashMap) (v : Val)
    (ready : IsReady m) where
  handle_put-Keeps :
      c.header.request_code ≡ put_code → KeepsReply c (handle_put same hash c (some m) v)
  unfolding handle_put
  handle_put-Keeps code =
      elim (Bool-cases
        (ltb c.header.key_size min_key_size || ltb c.header.value_size min_value_size)) [
          | inl e ↦ rw e tt
          | inr e ↦ elim (put-Ends same hash m ready (key_of c) (val_of c)) [
            | inl (true, x, m', p, r) ↦ rw (e, p) (m', refl, r)
            | inl (false, x, m', p, r) ↦ rw (e, p) (m', refl, r)
            | inr p ↦ rw (e, p) code
          ]
        ]

  handle_get-Keeps : KeepsReply c (handle_get same hash c (some m))
  unfolding handle_get
  handle_get-Keeps = elim (Bool-cases (ltb c.header.key_size min_key_size)) [
    | inl e ↦ rw e tt
    | inr e ↦
        let (w, x, p) = get-Ends same hash m ready (key_of c) in
        elim (Bool-cases (not (w.val_base == 0) && not (w.val_len == 0))) [
          | inl f ↦ rw (e, p, f) (m, refl, ready)
          | inr f ↦ rw (e, p, f) (m, refl, ready)
        ]
  ]

  handle_evict-Keeps : KeepsReply c (handle_evict same hash c (some m) v)
  unfolding handle_evict
  handle_evict-Keeps = elim (Bool-cases (ltb c.header.key_size min_key_size)) [
    | inl e ↦ rw e tt
    | inr e ↦
        let (n, x, m', p, r) = delete-Ends same hash m ready (key_of c) in rw (e, p) (m', refl, r)
  ]

  handle_clear-Keeps : KeepsReply c (handle_clear same hash (some m) v)
  unfolding handle_clear
  handle_clear-Keeps =
      rw (handle_clear, clear_map-Ends m ready) (cleared m, refl, cleared-IsReady m ready)

  handle-Keeps : KeepsReply c (handle same hash c (some m) v)
  unfolding handle
  handle-Keeps = elim (Bool-cases (c.header.request_code == put_code)) [
    | inl e ↦ rw e (handle_put-Keeps (ground (arith, e)))
    | inr e ↦ elim (Bool-cases (c.header.request_code == get_code)) [
      | inl f ↦ rw (e, f) handle_get-Keeps
      | inr f ↦ elim (Bool-cases (c.header.request_code == evict_code)) [
        | inl g ↦ rw (e, f, g) handle_evict-Keeps
        | inr g ↦ elim (Bool-cases (c.header.request_code == clear_code)) [
          | inl h ↦ rw (e, f, g, h) handle_clear-Keeps
          | inr h ↦ rw (e, f, g, h) (m, refl, ready)
        ]
      ]
    ]
  ]

module _ (c : Connection) where
  write_reply-Keeps :
      (same : ℕ → ℕ → Bool) (hash : Key → ℕ) (header : ResponseHeader) (value : Val)
      (cache : Option HashMap)
      → HoldsReady cache
      → KeepsReady c (write_reply same hash c header value cache)
  unfolding write_reply
  write_reply-Keeps same hash header value cache r = elim (Rio-cases c.write_response) [
    | inl e ↦ elim (Bool-cases (header.value_size == 0)) [
      | inl f ↦ rw (e, f) r
      | inr f ↦ elim (Rio-cases c.write_value) [
        | inl g ↦ rw (e, f, g) r
        | inr (inl g) ↦ rw (e, f, g) r
        | inr (inr g) ↦ rw (e, f, g) r
      ]
    ]
    | inr (inl e) ↦ rw e r
    | inr (inr e) ↦ rw e r
  ]

  after_read-Keeps :
      (same : ℕ → ℕ → Bool) (hash : Key → ℕ) (rio : Rio) (cache : Option HashMap) (rest : Served)
      → HoldsReady cache
      → KeepsReady c rest
      → KeepsReady c (after_read same hash rio cache rest)
  unfolding after_read
  after_read-Keeps same hash done cache rest r k = k
  after_read-Keeps same hash broken_pipe cache rest r k = r
  after_read-Keeps same hash unix_error cache rest r k = r

module _ (same : ℕ → ℕ → Bool) (hash : Key → ℕ) where
  finish_round-Keeps :
      (c : Connection) (m : HashMap) (r : Reply)
      → IsReady m
      → KeepsReply c r
      → KeepsReady c (finish_round same hash c (some m) r)
  unfolding finish_round
  finish_round-Keeps c m (replies header value cache) ready k =
      write_reply-Keeps c same hash header value cache k
  finish_round-Keeps c m (leaves messages) ready k = elim (Rio-cases c.write_response) [
    | inl e ↦ rw e (m, refl, ready)
    | inr (inl e) ↦ rw e (m, refl, ready)
    | inr (inr e) ↦ rw e (m, refl, ready)
  ]
  finish_round-Keeps c m waits ready k = k
  finish_round-Keeps c m breaks ready k = k

  respond-Keeps :
      (c : Connection) (m : HashMap) (v : Val)
      → IsReady m
      → KeepsReady c (respond same hash c (some m) v)
  unfolding respond
  respond-Keeps c m v ready =
      finish_round-Keeps c m (handle same hash c (some m) v) ready
        (handle-Keeps same hash c m v ready)

  serve-Keeps :
      (c : Connection) (m : HashMap) (v : Val)
      → IsReady m
      → KeepsReady c (serve same hash c (some m) v)
  unfolding serve
  serve-Keeps c m v ready =
      let held : HoldsReady (some m) = (m, refl, ready) in
      after_read-Keeps c same hash c.read_header (some m) _ held
        (elim (Bool-cases
          (ltb max_key_size c.header.key_size || ltb max_value_size c.header.value_size)) [
            | inl e ↦ rw e held
            | inr e ↦ rw e (
                after_read-Keeps c same hash c.read_key (some m) _ held (
                  after_read-Keeps c same hash c.read_value (some m) _ held
                    (respond-Keeps c m v ready)))
          ])

  next_round-Keeps :
      (c : Connection) (cs : List (Connection × Val)) (v : Val) (s : Served)
      (rest : Option HashMap → List Served)
      → KeepsReady c s
      → ((m : HashMap) → IsReady m → AllServed cs (rest (some m)))
      → AllServed ((c, v) ∷ cs) (next_round same hash s rest)
  unfolding next_round
  next_round-Keeps c cs v (serves messages cache) rest (m, e, ready) keeps =
      ((m, e, ready), rw e (keeps m ready))
  next_round-Keeps c cs v (ends_thread messages cache) rest k keeps = (k, tt)
  next_round-Keeps c cs v (ends_process messages cache) rest k keeps = (k, tt)
  next_round-Keeps c cs v hangs rest k keeps = (k, tt)
  next_round-Keeps c cs v crashes rest k keeps = (k, tt)

  -- While one worker runs, and no other thread calls the map: whatever requests come, in any order, and
  -- however the calls of the socket library end, of a map that can be used each round leaves one that can be
  -- used, and does not wait for readers for ever. Only a PUT can end at a write through NULL.
  pub worker_thread-KeepsReady :
      (cs : List (Connection × Val)) (m : HashMap)
      → IsReady m
      → AllServed cs (worker_thread same hash cs (some m))
  unfolding worker_thread
  worker_thread-KeepsReady [] m ready = tt
  worker_thread-KeepsReady ((c, v) ∷ cs) m ready =
      next_round-Keeps c cs v (serve same hash c (some m) v) _ (serve-Keeps c m v ready)
        (worker_thread-KeepsReady cs)
