-- ===== src/Shell/Redirect/Cutting.antt =====
-- hw4/src/main.c: the pieces that the start of `findexecutable` cuts a command into.
use system_fundamentals_c_pr.Base.{
  ℕ, suc, ◌≡◌, ◌≢◌, refl, ap, Option, none, some, List, [], ◌∷◌, ◌++◌, All, set, drop, ==_of_ne,
}
use system_fundamentals_c_pr.Shell.Redirect.{
  behind, find_char, until_nul, Split, no_command, split, string_at, cut_at, split_redirections,
}

-- A piece without NULs and redirections.
abbrev pub Plain : List ℕ → Type 0
Plain cs = All (λ c. (c ≢ 0) × (c ≢ b'<') × (c ≢ b'>')) cs

-- A command with the texts behind `<` and `>`, in either order.
pub data Redirection : Type 0 where
  neither : Redirection
  from : List ℕ → Redirection
  to : List ℕ → Redirection
  from_to : List ℕ → List ℕ → Redirection
  to_from : List ℕ → List ℕ → Redirection

abbrev pub redirected : Redirection → List ℕ
redirected neither = []
redirected (from i) = b'<' ∷ i
redirected (to o) = b'>' ∷ o
redirected (from_to i o) = b'<' ∷ (i ++ b'>' ∷ o)
redirected (to_from o i) = b'>' ∷ (o ++ b'<' ∷ i)

abbrev pub PlainPieces : Redirection → Type 0
PlainPieces neither = Unit
PlainPieces (from i) = Plain i
PlainPieces (to o) = Plain o
PlainPieces (from_to i o) = Plain i × Plain o
PlainPieces (to_from o i) = Plain o × Plain i

abbrev pub input_of : Redirection → Option (List ℕ)
input_of neither = none
input_of (from i) = some i
input_of (to o) = none
input_of (from_to i o) = some i
input_of (to_from o i) = some i

abbrev pub output_of : Redirection → Option (List ℕ)
output_of neither = none
output_of (from i) = none
output_of (to o) = some o
output_of (from_to i o) = some o
output_of (to_from o i) = some o

-- The three strings that the code goes on with.
abbrev pub text_at : List ℕ → Option ℕ → Option (List ℕ)
text_at buffer none = none
text_at buffer (some i) = some (string_at buffer i)

abbrev pub pieces : Split → Option (List ℕ × Option (List ℕ) × Option (List ℕ))
pieces (no_command c) = none
pieces (split r) = some (string_at r.buffer 0, text_at r.buffer r.inpos, text_at r.buffer r.outpos)

-- A place in `b`, counted from the start of `a ++ b`.
abbrev pub shift : List ℕ → ℕ → ℕ
shift [] n = n
shift (c ∷ a) n = suc (shift a n)

abbrev pub shifted : List ℕ → Option ℕ → Option ℕ
shifted a none = none
shifted a (some n) = some (shift a n)

behind-shifted : (c : ℕ) (a : List ℕ) (o : Option ℕ) → behind (shifted a o) ≡ shifted (c ∷ a) o
behind-shifted c a none = refl
behind-shifted c a (some n) = refl

shifted_nil : (o : Option ℕ) → o ≡ shifted [] o
shifted_nil none = refl
shifted_nil (some n) = refl

pub find_behind :
    (c : ℕ) (a b : List ℕ) → All (λ d. d ≢ c) a → find_char c (a ++ b) ≡ shifted a (find_char c b)
unfolding find_char
find_behind c [] b h = shifted_nil (find_char c b)
find_behind c (d ∷ a) b (n, h) =
    rw (find_char, ==_of_ne d c n, find_behind c a b h) (behind-shifted d a (find_char c b))

pub find_none : (c : ℕ) (a : List ℕ) → All (λ d. d ≢ c) a → find_char c a ≡ none
unfolding find_char
find_none c [] h = refl
find_none c (d ∷ a) (n, h) = rw (find_char, ==_of_ne d c n, find_none c a h) refl

pub set_behind : (a b : List ℕ) (n v : ℕ) → set (a ++ b) (shift a n) v ≡ a ++ set b n v
set_behind [] b n v = refl
set_behind (c ∷ a) b n v = ap (λ xs. c ∷ xs) (set_behind a b n v)

drop_behind : (a b : List ℕ) (n : ℕ) → drop (shift a n) (a ++ b) ≡ drop n b
drop_behind [] b n = refl
drop_behind (c ∷ a) b n = drop_behind a b n

pub until_cut : (a b : List ℕ) → All (λ c. c ≢ 0) a → until_nul (a ++ 0 ∷ b) ≡ a
unfolding until_nul
until_cut [] b h = refl
until_cut (c ∷ a) b (n, h) = rw (until_nul, ==_of_ne c 0 n) (ap (λ xs. c ∷ xs) (until_cut a b h))

pub until_end : (a : List ℕ) → All (λ c. c ≢ 0) a → until_nul a ≡ a
unfolding until_nul
until_end [] h = refl
until_end (c ∷ a) (n, h) = rw (until_nul, ==_of_ne c 0 n) (ap (λ xs. c ∷ xs) (until_end a h))

pub Plain-nul : (a : List ℕ) → Plain a → All (λ c. c ≢ 0) a
Plain-nul [] h = tt
Plain-nul (c ∷ a) ((n, l, g), h) = (n, Plain-nul a h)

pub Plain-less : (a : List ℕ) → Plain a → All (λ c. c ≢ b'<') a
Plain-less [] h = tt
Plain-less (c ∷ a) ((n, l, g), h) = (l, Plain-less a h)

pub Plain-greater : (a : List ℕ) → Plain a → All (λ c. c ≢ b'>') a
Plain-greater [] h = tt
Plain-greater (c ∷ a) ((n, l, g), h) = (g, Plain-greater a h)

pub until_words : (a : List ℕ) → All (λ c. c ≢ 0) a → until_nul (a ++ []) ≡ a
unfolding until_nul
until_words [] h = refl
until_words (c ∷ a) (n, h) = rw (until_nul, ==_of_ne c 0 n) (ap (λ xs. c ∷ xs) (until_words a h))

cut_at-shifted : (a b : List ℕ) (o : Option ℕ) → cut_at (a ++ b) (shifted a o) ≡ a ++ cut_at b o
cut_at-shifted a b none = refl
cut_at-shifted a b (some n) = set_behind a b n 0

pub drop_next : (a b : List ℕ) (n : ℕ) → drop (suc (shift a n)) (a ++ b) ≡ drop (suc n) b
drop_next [] b n = refl
drop_next (c ∷ a) b n = drop_next a b n

text_at-shifted :
    (a b : List ℕ) (o : Option ℕ) → text_at (a ++ b) (behind (shifted a o)) ≡ text_at b (behind o)
text_at-shifted a b none = refl
text_at-shifted a b (some n) = ap (λ xs. some (until_nul xs)) (drop_next a b n)

-- What stands behind the words of the command, once it is cut.
abbrev pub cut_rest : List ℕ → List ℕ
cut_rest rest = cut_at (cut_at rest (find_char b'>' rest)) (find_char b'<' rest)

-- The words of the command stay, and the rest is cut as if it stood alone.
pub split_redirections-words :
    (w : ℕ) (ws rest : List ℕ)
    → Plain (w ∷ ws)
    → split_redirections ((w ∷ ws) ++ rest)
      ≡ split (record {
        buffer = (w ∷ ws) ++ cut_rest rest;
        outpos = behind (shifted (w ∷ ws) (find_char b'>' rest));
        inpos = behind (shifted (w ∷ ws) (find_char b'<' rest));
      })
unfolding split_redirections
split_redirections-words w ws rest h =
    let words = w ∷ ws in
    let out = find_char b'>' rest in
    let in' = find_char b'<' rest in
    rw
      (
        split_redirections,
        find_behind b'>' words rest (Plain-greater words h),
        find_behind b'<' words rest (Plain-less words h),
        cut_at-shifted words rest out,
        cut_at-shifted words (cut_at rest out) in',
        ==_of_ne w 0 h.0.0,
      )
      refl

-- The pieces of a command, from those of the rest.
pub pieces_behind :
    (w : ℕ) (ws rest : List ℕ)
    → Plain (w ∷ ws)
    → pieces (split_redirections ((w ∷ ws) ++ rest))
      ≡ some (
        until_nul ((w ∷ ws) ++ cut_rest rest),
        text_at (cut_rest rest) (behind (find_char b'<' rest)),
        text_at (cut_rest rest) (behind (find_char b'>' rest)),
      )
pieces_behind w ws rest h =
    rw
      (
        split_redirections-words w ws rest h,
        text_at-shifted (w ∷ ws) (cut_rest rest) (find_char b'<' rest),
        text_at-shifted (w ∷ ws) (cut_rest rest) (find_char b'>' rest),
      )
      refl
