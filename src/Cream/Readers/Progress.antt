-- ===== src/Cream/Readers/Progress.antt =====
-- hw5/src/hashmap.c: a writer of the map comes to its end, whatever the readers do.
use system_fundamentals_c_pr.Base.{ℕ, ◌≤◌, ℤ, pos, negsuc}
use system_fundamentals_c_pr.Cream.Readers.{Access}

-- The count is not more than the number of readers.
abbrev pub AtMost : ℤ → ℕ → Type 0
AtMost (pos n) r = n ≤ r
AtMost (negsuc n) r = Unit

Counted : Access → Type 0
Counted s = AtMost s.num_readers s.reading
