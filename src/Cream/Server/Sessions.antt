-- ===== src/Cream/Server/Sessions.antt =====
-- Requests of hw5/src/cream.c that follow one another on one cache.
use system_fundamentals_c_pr.Base.{
  ℕ, ◌%◌, ◌^◌, ◌≤◌, ◌<◌, ◌≡◌, ◌≢◌, ◌⊎◌, inl, inr, refl, ◌∙◌, sym, Bool, true, false, Option, none,
  some, [], ◌∷◌, arith,
}
use system_fundamentals_c_pr.Cream.Map.{
  Errno, Key, Val, map_key, map_val, HashMap, Result, returns, spins, faults, put, get,
  get_keys_equal, get_value,
}
use system_fundamentals_c_pr.Cream.Map.Lookup.{IsReady}
use system_fundamentals_c_pr.Cream.Map.Placed.{IsEquivalence}
use system_fundamentals_c_pr.Cream.Map.Put.{get-put}
use system_fundamentals_c_pr.Cream.Map.Congruence.{get_value_congr}
use system_fundamentals_c_pr.Cream.Map.Clear.{cleared, get-clear_map}
use system_fundamentals_c_pr.Cream.Server.{
  response, put_code, get_code, clear_code, ok_code, not_found_code, max_key_size, max_value_size,
  done, Connection, answer, payload, serves, handle_put, handle_get, handle_clear, handle,
  write_reply, finish_round, respond, serve,
}

-- The calls of the socket library succeed.
pub record IsOpen (c : Connection) : Type 0 where
  pub header_read : c.read_header ≡ done
  pub key_read : c.read_key ≡ done
  pub value_read : c.read_value ≡ done
  pub response_written : c.write_response ≡ done
  pub value_written : c.write_value ≡ done

-- The sizes that the worker accepts.
pub record IsSized (c : Connection) : Type 0 where
  pub key_present : 0 < c.header.key_size
  pub key_fits : c.header.key_size ≤ max_key_size
  pub value_fits : c.header.value_size ≤ max_value_size

pub Result-cases :
    {A : Type 0} (r : Result A)
    → ((a : A) × (e : Option Errno) × (m : Option HashMap) × (r ≡ returns a e m))
      ⊎ ((r ≡ spins) ⊎ (r ≡ faults))
Result-cases (returns a e m) = inl (a, e, m, refl)
Result-cases spins = inr (inl refl)
Result-cases faults = inr (inr refl)

abbrev pub key_of : Connection → Key
key_of c = map_key c.key_base c.header.key_size

abbrev pub val_of : Connection → Val
val_of c = map_val c.val_base c.header.value_size

module _ (same : ℕ → ℕ → Bool) (hash : Key → ℕ) where
  pub serve_open :
      (c : Connection) (cache : Option HashMap) (v : Val)
      → IsOpen c
      → IsSized c
      → serve same hash c cache v ≡ respond same hash c cache v
  unfolding serve
  serve_open c cache v o s =
      ground (arith, o.header_read, o.key_read, o.value_read, s.key_fits, s.value_fits)

  put_of_ok :
      (c : Connection) (m m' : HashMap) (v : Val)
      → IsOpen c
      → c.header.request_code ≡ put_code
      → respond same hash c (some m) v ≡ serves (answer (response ok_code 0) ∷ []) (some m')
      → (e : Option Errno) × (put same hash (some m) (key_of c) (val_of c) true
          ≡ returns true e (some m'))
  unfolding respond finish_round handle_put write_reply handle
  put_of_ok c m m' v o code h =
      elim (Result-cases (put same hash (some m) (key_of c) (val_of c) true)) [
        | inl (true, e, x, p) ↦ (e, ground (arith, h, p, o.response_written, code))
        | inl (false, e, x, p) ↦ absurd (ground (arith, h, p, o.response_written, code))
        | inr (inl p) ↦ absurd (ground (arith, h, p, o.response_written, code))
        | inr (inr p) ↦ absurd (ground (arith, h, p, o.response_written, code))
      ]

  pub key_valid :
      (c : Connection) → IsSized c → get_keys_equal same (key_of c) (map_key 0 0) ≡ false
  unfolding get_keys_equal
  key_valid c s = ground (arith, s.key_present)

  get_answered :
      (c : Connection) (m : HashMap) (v w : Val)
      → IsOpen c
      → IsSized c
      → c.header.request_code ≡ get_code
      → get same hash (some m) (key_of c) ≡ returns w none (some m)
      → w.val_base ≢ 0
      → 0 < w.val_len
      → w.val_len ≤ max_value_size
      → serve same hash c (some m) v
        ≡ serves (answer (response ok_code w.val_len) ∷ payload w ∷ []) (some m)
  unfolding respond finish_round handle_get write_reply handle
  get_answered c m v w o s code g base positive fits =
      let sized : w.val_len % 2 ^ 32 ≡ w.val_len = ground (arith, fits) in
      serve_open c (some m) v o s
      ∙ ground (
        arith, code, g, base, positive, sized, s.key_present, o.response_written, o.value_written,
      )

  get_missed :
      (c : Connection) (m : HashMap) (v : Val)
      → IsOpen c
      → IsSized c
      → c.header.request_code ≡ get_code
      → get same hash (some m) (key_of c) ≡ returns (map_val 0 0) none (some m)
      → serve same hash c (some m) v ≡ serves (answer (response not_found_code 0) ∷ []) (some m)
  unfolding respond finish_round handle_get write_reply handle
  get_missed c m v o s code g =
      serve_open c (some m) v o s ∙ ground (arith, code, g, s.key_present, o.response_written)

  -- After a PUT that the worker answers with OK, a GET of an equal key, with the same hash, is answered
  -- with OK, the size of the value and the value, and leaves the map: on a map that can be used, where
  -- `strcmp` is an equivalence, the calls of the socket library succeed and the sizes are accepted.
  pub serve-get_of_put :
      IsEquivalence same
      → (c d : Connection) (m m' : HashMap) (v w : Val) → IsReady m
      → IsOpen c
      → IsSized c
      → 0 < c.header.value_size
      → c.val_base ≢ 0
      → c.header.request_code ≡ put_code
      → serve same hash c (some m) v ≡ serves (answer (response ok_code 0) ∷ []) (some m')
      → IsOpen d
      → IsSized d
      → d.header.request_code ≡ get_code
      → get_keys_equal same (key_of c) (key_of d) ≡ true
      → hash (key_of c) ≡ hash (key_of d)
      → serve same hash d (some m') w
        ≡ serves (answer (response ok_code c.header.value_size) ∷ payload (val_of c) ∷ []) (some m')
  unfolding get
  serve-get_of_put law c d m m' v w ready o s positive base code h o' s' code' equal hashed =
      let (e, p) = put_of_ok c m m' v o code (sym (serve_open c (some m) v o s) ∙ h) in
      let (r, g) = get-put same hash m (key_of c) (val_of c) ready true e m' p in
      let found : get_value same hash m' (key_of c) ≡ val_of c =
        ground (arith, g, r.valid, r.idle, key_valid c s) in
      let g' : get same hash (some m') (key_of d) ≡ returns (val_of c) none (some m') = ground (
        arith,
        r.valid,
        r.idle,
        key_valid d s',
        found,
        get_value_congr same law (key_of c) (key_of d) equal hash hashed m',
      ) in
      get_answered d m' w (val_of c) o' s' code' g' base positive s.value_fits

  -- After a CLEAR a GET of any key is answered with NOT FOUND.
  pub serve-get_of_clear :
      (c d : Connection) (m : HashMap) (v w : Val)
      → IsReady m
      → IsOpen c
      → IsSized c
      → c.header.request_code ≡ clear_code
      → IsOpen d
      → IsSized d
      → d.header.request_code ≡ get_code
      → (serve same hash c (some m) v
          ≡ serves (answer (response ok_code 0) ∷ []) (some (cleared m)))
        × (serve same hash d (some (cleared m)) w
            ≡ serves (answer (response not_found_code 0) ∷ []) (some (cleared m)))
  unfolding respond finish_round handle_clear write_reply handle
  serve-get_of_clear c d m v w ready o s code o' s' code' =
      let (emptied, r, g) = get-clear_map same hash m (key_of d) ready (key_valid d s') in
      (
        serve_open c (some m) v o s ∙ ground (arith, code, emptied, o.response_written),
        get_missed d (cleared m) w o' s' code' g,
      )
