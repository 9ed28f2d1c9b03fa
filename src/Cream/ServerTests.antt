-- ===== src/Cream/ServerTests.antt =====
-- hw5: the theorems of the server at concrete connections.
use system_fundamentals_c_pr.Base.{
  ℕ, ◌-◌, ◌%◌, ◌^◌, ◌<◌, ◌≡◌, inl, inr, refl, Bool, true, false, ◌==◌, some, List, [], ◌∷◌, pos, ℤ,
  codes, arith,
}
use system_fundamentals_c_pr.Cream.Map.{
  Key, Val, Node, HashMap, map_key, map_val, map_node, null_node, get_keys_equal, get_vals_equal,
  node_is_empty, node_has_key, can_put_key, probe, put_nodes, put, create_map,
}
use system_fundamentals_c_pr.Cream.Map.Lookup.{IsReady}
use system_fundamentals_c_pr.Cream.Map.Placed.{IsEquivalence}
use system_fundamentals_c_pr.Cream.Map.Clear.{cleared}
use system_fundamentals_c_pr.Cream.Server.{
  response, put_code, get_code, clear_code, ok_code, not_found_code, done, Connection, answer, echo,
  payload, serves, ends_thread, serve, worker_thread, handle, handle_put, write_reply, respond,
}
use system_fundamentals_c_pr.Cream.Server.Sessions.{
  IsOpen, IsSized, serve-get_of_put, serve-get_of_clear,
}
use system_fundamentals_c_pr.Cream.Server.Undersized.{worker_thread-undersized}
use system_fundamentals_c_pr.Cream.Server.Ready.{AllServed, worker_thread-KeepsReady}
use system_fundamentals_c_pr.Cream.Start.{
  main, starts, asks_help, all_digits, texts_equal, read_count, check_arguments, start_with,
}
use system_fundamentals_c_pr.Cream.Start.Runs.{Serves, main-Serves}

-- Strings are equal that stand at addresses of one residue modulo 10, and that is their hash.
abbrev same : ℕ → ℕ → Bool
same p q = p % 10 == q % 10

abbrev hash : Key → ℕ
hash k = k.key_base % 10

same-IsEquivalence : IsEquivalence same
same-IsEquivalence = record {
  symmetric = λ p q h. ground arith;
  transitive = λ p q r h g. ground arith;
}

abbrev request : ℕ → ℕ → ℕ → ℕ → ℕ → Connection
request code key key_size val val_size = record {
  header = record { request_code = code; key_size = key_size; value_size = val_size };
  key_base = key;
  val_base = val;
  read_header = done;
  read_key = done;
  read_value = done;
  write_response = done;
  write_value = done;
}

abbrev put_request : Connection
put_request = request put_code 12 3 100 5

-- The key of `put_request` at another address.
abbrev get_request : Connection
get_request = request get_code 22 3 200 0

abbrev clear_request : Connection
clear_request = request clear_code 30 1 201 0

abbrev get_nothing : Connection
get_nothing = request get_code 30 0 201 0

IsOpen-request :
    (code key key_size val val_size : ℕ) → IsOpen (request code key key_size val val_size)
IsOpen-request code key key_size val val_size = record {
  header_read = refl;
  key_read = refl;
  value_read = refl;
  response_written = refl;
  value_written = refl;
}

IsSized-put : IsSized put_request
IsSized-put = record { key_present = omega arith; key_fits = omega arith; value_fits = omega arith }

IsSized-get : IsSized get_request
IsSized-get = record { key_present = omega arith; key_fits = omega arith; value_fits = omega arith }

IsSized-clear : IsSized clear_request
IsSized-clear = record {
  key_present = omega arith;
  key_fits = omega arith;
  value_fits = omega arith;
}

abbrev map_of : ℕ → List Node → HashMap
map_of size nodes = record {
  capacity = 3;
  size = size;
  nodes = nodes;
  num_readers = pos 0;
  invalid = false;
}

abbrev empty : HashMap
empty = map_of 0 (null_node ∷ null_node ∷ null_node ∷ [])

empty-IsReady : IsReady empty
empty-IsReady = record {
  valid = refl;
  idle = refl;
  allocated = refl;
  positive = omega arith;
  bounded = omega arith;
}

abbrev filled : HashMap
filled = map_of 1 (null_node ∷ null_node ∷ map_node (map_key 12 3) (map_val 100 5) false ∷ [])

put_answered :
    serve same hash put_request (some empty) (map_val 0 0)
    ≡ serves (answer (response ok_code 0) ∷ []) (some filled)
unfolding serve handle handle_put write_reply respond put put_nodes can_put_key node_is_empty
    node_has_key get_keys_equal get_vals_equal probe
put_answered = refl

keys_agree : get_keys_equal same (map_key 12 3) (map_key 22 3) ≡ true
unfolding get_keys_equal
keys_agree = refl

serve-get_of_put_example :
    serve same hash get_request (some filled) (map_val 9 9)
    ≡ serves (answer (response ok_code 5) ∷ payload (map_val 100 5) ∷ []) (some filled)
serve-get_of_put_example =
    serve-get_of_put same hash same-IsEquivalence put_request get_request empty filled (map_val 0 0)
      (map_val 9 9) empty-IsReady (IsOpen-request put_code 12 3 100 5) IsSized-put (omega arith)
      (λ e. omega (arith, e)) refl put_answered (IsOpen-request get_code 22 3 200 0) IsSized-get
      refl keys_agree refl

filled-IsReady : IsReady filled
filled-IsReady = record {
  valid = refl;
  idle = refl;
  allocated = refl;
  positive = omega arith;
  bounded = omega arith;
}

serve-get_of_clear_test :
    (serve same hash clear_request (some filled) (map_val 0 0)
      ≡ serves (answer (response ok_code 0) ∷ []) (some (cleared filled)))
    × (serve same hash get_request (some (cleared filled)) (map_val 0 0)
        ≡ serves (answer (response not_found_code 0) ∷ []) (some (cleared filled)))
serve-get_of_clear_test =
    serve-get_of_clear same hash clear_request get_request filled (map_val 0 0) (map_val 0 0)
      filled-IsReady (IsOpen-request clear_code 30 1 201 0) IsSized-clear refl
      (IsOpen-request get_code 22 3 200 0) IsSized-get refl

worker_thread-undersized_test :
    worker_thread same hash
      ((get_nothing, map_val 0 0) ∷ (put_request, map_val 0 0) ∷ [])
      (some filled)
    ≡ ends_thread (echo get_nothing.header ∷ []) (some filled) ∷ []
worker_thread-undersized_test =
    worker_thread-undersized same hash get_nothing ((put_request, map_val 0 0) ∷ []) (some filled)
      (map_val 0 0) (IsOpen-request get_code 30 0 201 0) (omega arith) (omega arith)
      (inr (inl refl, refl))

abbrev requests : List (Connection × Val)
requests = (put_request, map_val 0 0) ∷ (get_request, map_val 0 0) ∷ (get_nothing, map_val 0 0) ∷ []

worker_thread-KeepsReady_example :
    AllServed requests (worker_thread same hash requests (some empty))
worker_thread-KeepsReady_example = worker_thread-KeepsReady same hash requests empty empty-IsReady

-- The value of the last digit.
abbrev last_digit : List ℕ → ℤ
last_digit [] = pos 0
last_digit (c ∷ []) = pos ((c - b'0') % 10)
last_digit (c ∷ d ∷ cs) = last_digit (d ∷ cs)

last_digit-lt : (s : List ℕ) (n : ℕ) → last_digit s ≡ pos n → n < 2 ^ 31
last_digit-lt [] n e = ground (arith, e)
last_digit-lt (c ∷ []) n e = ground (arith, e)
last_digit-lt (c ∷ d ∷ cs) n e = last_digit-lt (d ∷ cs) n e

abbrev args : List (List ℕ)
args = codes "2" ∷ codes "80" ∷ codes "3" ∷ []

main_starts : main last_digit args ≡ starts 2 (codes "80") (some empty)
unfolding main asks_help all_digits texts_equal read_count check_arguments start_with create_map
main_starts = refl

main-Serves_example : Serves same hash last_digit args 2 (codes "80") (some empty) requests
main-Serves_example =
    main-Serves same hash last_digit last_digit-lt args 2 (codes "80") (some empty) requests
      main_starts
