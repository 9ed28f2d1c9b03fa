-- ===== src/Shell/Pipeline/Connected.antt =====
-- hw4/src/main.c: the commands of a line stand in one pipeline.
use system_fundamentals_c_pr.Base.{
  ℕ, suc, ◌≤◌, ◌≡◌, Bool, true, false, Option, none, some, List, [], ◌∷◌,
}
use system_fundamentals_c_pr.Shell.Pipeline.{Stage}

-- The commands, each one with the pipe behind it: it writes the pipe that the next one reads, a new one.
-- None of them runs from the first one on that is not found.
pub data Connected (is_found : List ℕ → Bool)
    : ℕ → Option ℕ → List (List ℕ) → List Stage → Type 0 where
  stops :
      (new : ℕ) (fd : Option ℕ) (c : List ℕ) (cs : List (List ℕ))
      → is_found c ≡ false
      → Connected is_found new fd (c ∷ cs) []
  last :
      (new : ℕ) (fd : Option ℕ) (c : List ℕ)
      → is_found c ≡ true
      → Connected is_found new fd
          (c ∷ [])
          (record { command = c; inputfd = fd; outputfd = none } ∷ [])
  piped :
      (new p : ℕ) (fd : Option ℕ) (c : List ℕ) (cs : List (List ℕ)) (ss : List Stage)
      → is_found c ≡ true
      → new ≤ p
      → Connected is_found (suc p) (some p) cs ss
      → Connected is_found new fd
          (c ∷ cs)
          (record { command = c; inputfd = fd; outputfd = some p } ∷ ss)
