-- ===== src/Cream/Start.antt =====
-- `main` of hw5/src/cream.c: the check of the arguments, and the start of the server.
pub mod Runs
use system_fundamentals_c_pr.Base.{
  ℕ, ◌<◌, ◌≡◌, Bool, true, false, not, ◌&&◌, ◌||◌, Option, none, some, List, [], ◌∷◌, ltb, leb,
  ◌==◌, if◌then◌else◌, ℤ, pos, negsuc, codes,
}
use system_fundamentals_c_pr.Cream.Map.{HashMap, create_map}

-- Why `main` ends before it starts a thread, or what it starts: the number of workers, the port, and the
-- cache. `exit(0)` after the help, else `exit(1)`.
pub data Started : Type 0 where
  prints_usage : Started
  lacks_arguments : Started
  bad_worker_count : List ℕ → Started
  bad_port_number : List ℕ → Started
  bad_entry_count : List ℕ → Started
  starts : ℕ → List ℕ → Option HashMap → Started

-- `strspn(s, "1234567890") == strlen(s)`
unfoldable pub all_digits : List ℕ → Bool
all_digits [] = true
all_digits (c ∷ cs) = leb b'0' c && leb c b'9' && all_digits cs

-- `strcmp(s, t) == 0`
unfoldable pub texts_equal : List ℕ → List ℕ → Bool
texts_equal [] [] = true
texts_equal [] (y ∷ ys) = false
texts_equal (x ∷ xs) [] = false
texts_equal (x ∷ xs) (y ∷ ys) = x == y && texts_equal xs ys

-- The loop over the arguments.
unfoldable pub asks_help : List (List ℕ) → Bool
unfolding texts_equal
asks_help [] = false
asks_help (a ∷ rest) = texts_equal a (codes "-h") || asks_help rest

-- `NUM_WORKERS` or `MAX_ENTRIES`; none is the message and `exit(1)`. `atoi` is the library's.
unfoldable pub read_count : (List ℕ → ℤ) → List ℕ → Option ℕ
unfolding all_digits
read_count atoi s =
    if all_digits s
    then elim (atoi s) [ pos n ↦ if ltb n 1 then none else some n | negsuc n ↦ none ]
    else none

-- The checks in their order, and `create_map`.
unfoldable pub start_with : (List ℕ → ℤ) → List ℕ → List ℕ → List ℕ → Started
unfolding read_count all_digits
start_with atoi workers port entries = elim (read_count atoi workers) [
  | none ↦ bad_worker_count workers
  | some num_workers ↦
      if all_digits port
      then elim (read_count atoi entries) [
        | none ↦ bad_entry_count entries
        | some max_entries ↦ starts num_workers port (create_map max_entries true true)
      ]
      else bad_port_number port
]

-- `argc < 4`, and the checks.
unfoldable pub check_arguments : (List ℕ → ℤ) → List (List ℕ) → Started
unfolding start_with
check_arguments atoi (workers ∷ port ∷ entries ∷ rest) = start_with atoi workers port entries
check_arguments atoi [] = lacks_arguments
check_arguments atoi (a ∷ []) = lacks_arguments
check_arguments atoi (a ∷ b ∷ []) = lacks_arguments

-- The arguments behind the name of the program.
unfoldable pub main : (List ℕ → ℤ) → List (List ℕ) → Started
unfolding asks_help check_arguments
main atoi args = if asks_help args then prints_usage else check_arguments atoi args
