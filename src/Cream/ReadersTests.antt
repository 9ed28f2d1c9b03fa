-- ===== src/Cream/ReadersTests.antt =====
-- hw5/src/hashmap.c: threads that call the map in some order.
use system_fundamentals_c_pr.Base.{ℕ, refl, ◌≢◌, pos, negsuc}
use system_fundamentals_c_pr.Cream.Readers.{
  unlocked, waiting, entered, Access, GetStep, passes, counts, leaves, locks, enters, writes,
  by_get, by_put, Steps, stays, moves, unused,
}

-- A reader between its counts, and a writer that waits for it.
abbrev one_each : Access
one_each = record { num_readers = pos 1; entering = 0; reading = 1; writer = waiting }

-- A writer behind its wait.
abbrev with_writer : ℕ → ℕ → Access
with_writer e r = record { num_readers = pos r; entering = e; reading = r; writer = entered }

-- A writer passes its wait in front of a reader, which counts itself before the writer sets the count to 0.
abbrev shut : Access
shut = record { num_readers = negsuc 0; entering = 0; reading = 0; writer = unlocked }

shut_reached : Steps unused shut
shut_reached = moves _ _ _ (by_put (locks unused refl)) (
    moves _ _ _ (by_put (enters (record unused { writer = waiting }) refl refl)) (
      moves _ _ _ (by_get (passes (with_writer 0 0) refl)) (
        moves _ _ _ (by_get (counts (with_writer 1 0) 0 refl)) (
          moves _ _ _ (by_put (writes (with_writer 0 1) refl)) (
            moves _ _ _
              (by_get (
                leaves
                  (record { num_readers = pos 0; entering = 0; reading = 1; writer = unlocked }) 0
                  refl))
              (stays _))))))

-- Then no call of `get` gets on until a writer has come.
shut_stays : (s t : Access) → GetStep s t → s ≢ shut
shut_stays _ _ (passes s p) e = absurd (cc (rw e at p))
shut_stays _ _ (counts s n p) e = absurd (cc (rw e at p))
shut_stays _ _ (leaves s n p) e = absurd (cc (rw e at p))
