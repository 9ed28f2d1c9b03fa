-- ===== src/Cream/Server/Undersized.antt =====
-- Requests of hw5/src/cream.c with an empty key or an empty value.
use system_fundamentals_c_pr.Base.{
  ℕ, ◌≤◌, ◌≡◌, ◌⊎◌, inl, inr, refl, Bool, Option, List, [], ◌∷◌, arith,
}
use system_fundamentals_c_pr.Cream.Map.{Key, Val, HashMap}
use system_fundamentals_c_pr.Cream.Server.{
  put_code, get_code, evict_code, max_key_size, max_value_size, Connection, echo, ends_thread,
  respond, finish_round, handle, handle_put, handle_get, handle_evict, serve, worker_thread,
}
use system_fundamentals_c_pr.Cream.Server.Sessions.{IsOpen}

-- The requests for which the worker returns early.
abbrev pub IsUndersized : Connection → Type 0
IsUndersized c =
    (c.header.request_code ≡ put_code) × ((c.header.key_size ≡ 0) ⊎ (c.header.value_size ≡ 0))
    ⊎ ((c.header.request_code ≡ get_code) ⊎ (c.header.request_code ≡ evict_code))
      × (c.header.key_size ≡ 0)

module _ (same : ℕ → ℕ → Bool) (hash : Key → ℕ) where
  serve_undersized :
      (c : Connection) (cache : Option HashMap) (v : Val)
      → IsOpen c
      → c.header.key_size ≤ max_key_size
      → c.header.value_size ≤ max_value_size
      → IsUndersized c
      → serve same hash c cache v ≡ ends_thread (echo c.header ∷ []) cache
  unfolding serve respond finish_round handle handle_put handle_get handle_evict
  serve_undersized c cache v o k l (inl (code, inl e)) =
      ground (arith, code, e, o.header_read, o.key_read, o.value_read, o.response_written)
  serve_undersized c cache v o k l (inl (code, inr e)) =
      ground (arith, code, e, o.header_read, o.key_read, o.value_read, o.response_written)
  serve_undersized c cache v o k l (inr (inl code, e)) =
      ground (arith, code, e, o.header_read, o.key_read, o.value_read, o.response_written)
  serve_undersized c cache v o k l (inr (inr code, e)) =
      ground (arith, code, e, o.header_read, o.key_read, o.value_read, o.response_written)

  -- A PUT with an empty key or an empty value, or a GET or an EVICT with an empty key, is answered with
  -- bytes of its own header, and ends the worker's thread: where the calls of the socket library succeed and
  -- the sizes are not too large, no connection after it is served by that thread.
  pub worker_thread-undersized :
      (c : Connection) (cs : List (Connection × Val)) (cache : Option HashMap) (v : Val)
      → IsOpen c
      → c.header.key_size ≤ max_key_size
      → c.header.value_size ≤ max_value_size
      → IsUndersized c
      → worker_thread same hash ((c, v) ∷ cs) cache ≡ ends_thread (echo c.header ∷ []) cache ∷ []
  unfolding worker_thread
  worker_thread-undersized c cs cache v o k l u =
      rw (worker_thread, serve_undersized c cache v o k l u) refl
