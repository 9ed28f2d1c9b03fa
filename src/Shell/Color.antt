-- ===== src/Shell/Color.antt =====
-- hw4/src/main.c and hw4/include/sfish.h: `color`.
use system_fundamentals_c_pr.Base.{ℕ, Option, none, some, List, [], ◌∷◌, ◌++◌, if◌then◌else◌, codes}
use system_fundamentals_c_pr.Cream.Start.{texts_equal}

-- `\001\x1b[`, the number of the color, and `m\002`.
abbrev escape : List ℕ → List ℕ
escape n = 1 ∷ 27 ∷ b'[' ∷ (n ++ b'm' ∷ 2 ∷ [])

-- The color of a name.
unfoldable pub color_of : List ℕ → Option (List ℕ)
unfolding texts_equal
color_of tok =
    if texts_equal tok (codes "RED")
    then some (escape (codes "31"))
    else if texts_equal tok (codes "GRN")
    then some (escape (codes "32"))
    else if texts_equal tok (codes "YEL")
    then some (escape (codes "33"))
    else if texts_equal tok (codes "BLU")
    then some (escape (codes "34"))
    else if texts_equal tok (codes "MAG")
    then some (escape (codes "35"))
    else if texts_equal tok (codes "CYN")
    then some (escape (codes "36"))
    else if texts_equal tok (codes "WHT")
    then some (escape (codes "37"))
    else if texts_equal tok (codes "BWN")
    then some (escape (codes "38;5;130"))
    else none
