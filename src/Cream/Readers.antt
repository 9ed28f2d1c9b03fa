-- ===== src/Cream/Readers.antt =====
-- hw5/src/hashmap.c: the calls of `get` and of `put`, `delete` and `clear_map` by several threads, as they count
-- readers in `num_readers`, on a map that is not invalid. What a thread does under `fields_lock` is one step,
-- and so is the end of each wait; in between other threads go on.
pub mod Progress
use system_fundamentals_c_pr.Base.{ℕ, zero, suc, ◌≡◌, Bool, true, false, ℤ, pos, negsuc}
use system_fundamentals_c_pr.Cream.Map.{is_positive, is_negative}

-- The thread that has `write_lock`: none, or one in front of the end of its wait, or behind it.
pub data Writer : Type 0 where
  unlocked : Writer
  waiting : Writer
  entered : Writer

-- The count, how many threads in `get` are between the wait and the count, and between the two counts, and
-- the writer. Any number of threads are in front of their waits.
pub record Access : Type 0 where
  pub num_readers : ℤ
  pub entering : ℕ
  pub reading : ℕ
  pub writer : Writer

-- `self->num_readers++` and `self->num_readers--`
abbrev pub count_up : ℤ → ℤ
count_up (pos n) = pos (suc n)
count_up (negsuc zero) = pos 0
count_up (negsuc (suc n)) = negsuc n

abbrev pub count_down : ℤ → ℤ
count_down (pos zero) = negsuc 0
count_down (pos (suc n)) = pos n
count_down (negsuc n) = negsuc (suc n)

-- `get`: the end of its wait, the body under the first lock, and the one under the second.
pub data GetStep : Access → Access → Type 0 where
  passes :
      (s : Access)
      → is_negative s.num_readers ≡ false
      → GetStep s (record s { entering = suc s.entering })
  counts :
      (s : Access) (e : ℕ)
      → s.entering ≡ suc e
      → GetStep s
          (record s { num_readers = count_up s.num_readers; entering = e; reading = suc s.reading })
  leaves :
      (s : Access) (r : ℕ)
      → s.reading ≡ suc r
      → GetStep s (record s { num_readers = count_down s.num_readers; reading = r })

-- A writer: `write_lock`, the end of its wait, and the rest, which sets the count to -1, and then to 0.
pub data PutStep : Access → Access → Type 0 where
  locks : (s : Access) → s.writer ≡ unlocked → PutStep s (record s { writer = waiting })
  enters :
      (s : Access)
      → s.writer ≡ waiting
      → is_positive s.num_readers ≡ false
      → PutStep s (record s { writer = entered })
  writes :
      (s : Access)
      → s.writer ≡ entered
      → PutStep s (record s { num_readers = pos 0; writer = unlocked })

pub data Step : Access → Access → Type 0 where
  by_get : {s t : Access} → GetStep s t → Step s t
  by_put : {s t : Access} → PutStep s t → Step s t

pub data Steps : Access → Access → Type 0 where
  stays : (s : Access) → Steps s s
  moves : (s t u : Access) → Step s t → Steps t u → Steps s u

-- What `create_map` leaves.
abbrev pub unused : Access
unused = record { num_readers = pos 0; entering = 0; reading = 0; writer = unlocked }
