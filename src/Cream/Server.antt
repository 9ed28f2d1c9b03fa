-- ===== src/Cream/Server.antt =====
-- `worker_thread` of hw5/src/cream.c: the answer to one connection, over the map. What the calls of the
-- socket library return is an argument: `calloc` succeeds, and gives the pointers that the request names.
pub mod Sessions
pub mod Undersized
pub mod Ready
use system_fundamentals_c_pr.Base.{
  ℕ, ◌+◌, ◌-◌, ◌%◌, ◌^◌, Bool, true, false, not, ◌&&◌, ◌||◌, Option, none, some, List, [], ◌∷◌, ltb,
  ◌==◌, if◌then◌else◌,
}
use system_fundamentals_c_pr.Cream.Map.{
  Key, Val, map_key, map_val, HashMap, Result, returns, spins, faults, put, get, delete, clear_map,
}

pub record RequestHeader : Type 0 where
  pub request_code : ℕ
  pub key_size : ℕ
  pub value_size : ℕ

pub record ResponseHeader : Type 0 where
  pub response_code : ℕ
  pub value_size : ℕ

abbrev pub response : ℕ → ℕ → ResponseHeader
response code size = record { response_code = code; value_size = size }

-- `request_codes`
abbrev pub put_code : ℕ
put_code = 1

abbrev pub get_code : ℕ
get_code = 2

abbrev pub evict_code : ℕ
evict_code = 4

abbrev pub clear_code : ℕ
clear_code = 8

-- `response_codes`
abbrev pub ok_code : ℕ
ok_code = 200

abbrev pub unsupported_code : ℕ
unsupported_code = 220

abbrev pub bad_request_code : ℕ
bad_request_code = 400

abbrev pub not_found_code : ℕ
not_found_code = 404

abbrev pub min_key_size : ℕ
min_key_size = 1

abbrev pub max_key_size : ℕ
max_key_size = 2048

abbrev pub min_value_size : ℕ
min_value_size = 1

abbrev pub max_value_size : ℕ
max_value_size = 4096

-- What `Rio_readn_` and `Rio_writen_` do: the call is done, or the peer is gone and the call returns -1,
-- or `unix_error` ends the process.
pub data Rio : Type 0 where
  done : Rio
  broken_pipe : Rio
  unix_error : Rio

-- One connection: the header, the pointers to the key and the value, and how the calls end.
pub record Connection : Type 0 where
  pub header : RequestHeader
  pub key_base : ℕ
  pub val_base : ℕ
  pub read_header : Rio
  pub read_key : Rio
  pub read_value : Rio
  pub write_response : Rio
  pub write_value : Rio

-- What is written to the socket: a response header, the first bytes of the request header, or a value.
pub data Message : Type 0 where
  answer : ResponseHeader → Message
  echo : RequestHeader → Message
  payload : Val → Message

-- What a worker does with a connection: it closes it and takes the next one, or its thread ends, or the
-- process does; or it waits for readers for ever, or writes through NULL.
pub data Served : Type 0 where
  serves : List Message → Option HashMap → Served
  ends_thread : List Message → Option HashMap → Served
  ends_process : List Message → Option HashMap → Served
  hangs : Served
  crashes : Served

-- A response of the branches, or an early return of the thread with what it has written.
pub data Reply : Type 0 where
  replies : ResponseHeader → Val → Option HashMap → Reply
  leaves : List Message → Reply
  waits : Reply
  breaks : Reply

module _ (same : ℕ → ℕ → Bool) (hash : Key → ℕ) where
  -- The chain of branches on the request code, with `value` as the code before it left it.
  unfoldable pub handle_put : Connection → Option HashMap → Val → Reply
  handle_put c cache value =
      if ltb c.header.key_size min_key_size || ltb c.header.value_size min_value_size
      then leaves (echo c.header ∷ [])
      else elim (put same hash cache (map_key c.key_base c.header.key_size)
          (map_val c.val_base c.header.value_size) true) [
            | returns true errno cache' ↦ replies (response ok_code 0) value cache'
            | returns false errno cache' ↦ replies (response bad_request_code 0) value cache'
            | spins ↦ waits
            | faults ↦ breaks
          ]

  -- `value_size` of the response is an `uint32_t`.
  unfoldable pub handle_get : Connection → Option HashMap → Reply
  handle_get c cache =
      if ltb c.header.key_size min_key_size
      then leaves (echo c.header ∷ [])
      else elim (get same hash cache (map_key c.key_base c.header.key_size)) [
        | returns value errno cache' ↦
            if not (value.val_base == 0) && not (value.val_len == 0)
            then replies (response ok_code (value.val_len % 2 ^ 32)) value cache'
            else replies (response not_found_code 0) value cache'
        | spins ↦ waits
        | faults ↦ breaks
      ]

  unfoldable pub handle_evict : Connection → Option HashMap → Val → Reply
  handle_evict c cache value =
      if ltb c.header.key_size min_key_size
      then leaves (echo c.header ∷ [])
      else elim (delete same hash cache (map_key c.key_base c.header.key_size)) [
        | returns node errno cache' ↦ replies (response ok_code 0) value cache'
        | spins ↦ waits
        | faults ↦ breaks
      ]

  unfoldable pub handle_clear : Option HashMap → Val → Reply
  handle_clear cache value = elim (clear_map cache) [
    | returns r errno cache' ↦ replies (response ok_code 0) value cache'
    | spins ↦ waits
    | faults ↦ breaks
  ]

  unfoldable pub handle : Connection → Option HashMap → Val → Reply
  unfolding handle_put handle_get handle_evict handle_clear
  handle c cache value =
      if c.header.request_code == put_code
      then handle_put c cache value
      else if c.header.request_code == get_code
      then handle_get c cache
      else if c.header.request_code == evict_code
      then handle_evict c cache value
      else if c.header.request_code == clear_code
      then handle_clear cache value
      else replies (response unsupported_code 0) value cache

  -- The end of a round: the response, and the value if there is one.
  unfoldable pub write_reply : Connection → ResponseHeader → Val → Option HashMap → Served
  write_reply c header value cache = elim c.write_response [
    | broken_pipe ↦ ends_thread [] cache
    | unix_error ↦ ends_process [] cache
    | done ↦
        if header.value_size == 0 then serves (answer header ∷ []) cache else elim c.write_value [
          | broken_pipe ↦ ends_thread (answer header ∷ []) cache
          | unix_error ↦ ends_process (answer header ∷ []) cache
          | done ↦ serves (answer header ∷ payload value ∷ []) cache
        ]
  ]

  -- The end of a round. An early return writes by `Rio_writen`, where every error ends the process.
  unfoldable pub finish_round : Connection → Option HashMap → Reply → Served
  unfolding write_reply
  finish_round c cache (replies header value cache') = write_reply c header value cache'
  finish_round c cache (leaves messages) = elim c.write_response [
    | done ↦ ends_thread messages cache
    | broken_pipe ↦ ends_process [] cache
    | unix_error ↦ ends_process [] cache
  ]
  finish_round c cache waits = hangs
  finish_round c cache breaks = crashes

  -- The branches and the end of a round.
  unfoldable pub respond : Connection → Option HashMap → Val → Served
  unfolding handle finish_round
  respond c cache value = finish_round c cache (handle c cache value)

  -- A read that fails ends the thread or the process.
  unfoldable pub after_read : Rio → Option HashMap → Served → Served
  after_read done cache rest = rest
  after_read broken_pipe cache rest = ends_thread [] cache
  after_read unix_error cache rest = ends_process [] cache

  -- One round of `while(1)`, with `value` as the round before left it in memory.
  unfoldable pub serve : Connection → Option HashMap → Val → Served
  unfolding respond after_read
  serve c cache value = after_read c.read_header cache (
      if ltb max_key_size c.header.key_size || ltb max_value_size c.header.value_size
      then ends_thread [] cache
      else after_read c.read_key cache (after_read c.read_value cache (respond c cache value)))

  -- A thread that closed its connection goes on.
  unfoldable pub next_round : Served → (Option HashMap → List Served) → List Served
  next_round (serves messages cache) rest = serves messages cache ∷ rest cache
  next_round (ends_thread messages cache) rest = ends_thread messages cache ∷ []
  next_round (ends_process messages cache) rest = ends_process messages cache ∷ []
  next_round hangs rest = hangs ∷ []
  next_round crashes rest = crashes ∷ []

  -- The rounds of one thread over the connections that it takes from the queue, each with the `value` in
  -- memory when it begins, until one of them ends the thread. With no more connections it is blocked.
  unfoldable pub worker_thread : List (Connection × Val) → Option HashMap → List Served
  unfolding serve next_round
  worker_thread [] cache = []
  worker_thread ((c, value) ∷ cs) cache =
      next_round (serve c cache value) (λ cache'. worker_thread cs cache')
