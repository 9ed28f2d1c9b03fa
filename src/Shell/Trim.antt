-- ===== src/Shell/Trim.antt =====
-- hw4/src/main.c: `trimwhitespace`, and the name of a new job.
pub mod Core
use system_fundamentals_c_pr.Base.{
  ℕ, zero, suc, ◌+◌, ◌-◌, Bool, true, false, not, ◌&&◌, ◌||◌, Option, none, some, List, [], ◌∷◌,
  ◌++◌, ◌==◌, length, take, if◌then◌else◌, ltb, leb,
}

abbrev pub is_blank : ℕ → Bool
is_blank c = c == b' ' || c == b'\t'

-- `*(token + i)`, the NUL at the end included.
abbrev pub char_at : ℕ → List ℕ → ℕ
char_at i [] = 0
char_at zero (c ∷ cs) = c
char_at (suc i) (c ∷ cs) = char_at i cs

-- `while(*token == ' ' || *token == '\t')`: what is left of the string.
unfoldable pub trim_front : List ℕ → List ℕ
trim_front [] = []
trim_front (c ∷ cs) = if is_blank c then trim_front cs else c ∷ cs

-- `while(*(token + end) == ' ' || *(token + end) == '\t')` with `end + 1` for `end`. In front of the
-- token stands a byte that the first loop has set to 0, or a byte that is not part of the string.
unfoldable pub trim_back : Bool → List ℕ → ℕ → Option (List ℕ)
trim_back advanced token zero = if advanced then some [] else none
trim_back advanced token (suc end) =
    let rest = trim_back advanced token end in
    if is_blank (char_at end token) then rest else some (take (suc end) token)

-- None when it reads in front of the string; `nul_before` says that a NUL stands there, where the code
-- has cut a longer string.
unfoldable pub trimwhitespace : Bool → List ℕ → Option (List ℕ)
unfolding trim_front trim_back
trimwhitespace nul_before input =
    let token = trim_front input in
    trim_back (nul_before || ltb (length token) (length input)) token (length token)
