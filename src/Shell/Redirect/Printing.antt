-- ===== src/Shell/Redirect/Printing.antt =====
-- hw4/src/main.c: `findexecutable` gets back the pieces that a command was put together from.
use system_fundamentals_c_pr.Base.{ℕ, ◌≡◌, refl, ◌∙◌, Option, some, List, ◌∷◌, ◌++◌}
use system_fundamentals_c_pr.Shell.Redirect.{behind, find_char, until_nul, split_redirections}
use system_fundamentals_c_pr.Shell.Redirect.Cutting.{
  Plain, Redirection, neither, from, to, from_to, to_from, redirected, PlainPieces, input_of,
  output_of, text_at, pieces, find_behind, find_none, until_cut, until_end, until_words, Plain-nul,
  Plain-less, Plain-greater, cut_rest, pieces_behind, set_behind, drop_next,
}

-- The strings behind the places of `<` and `>`.
rest_pieces :
    (words : List ℕ) (r : Redirection)
    → Plain words
    → PlainPieces r
    → ◌≡◌ {A = Option (List ℕ × Option (List ℕ) × Option (List ℕ))}
        (some (
          until_nul (words ++ cut_rest (redirected r)),
          text_at (cut_rest (redirected r)) (behind (find_char b'<' (redirected r))),
          text_at (cut_rest (redirected r)) (behind (find_char b'>' (redirected r))),
        ))
        (some (words, input_of r, output_of r))
unfolding find_char
rest_pieces words neither w h = rw (until_words words (Plain-nul words w)) refl
rest_pieces words (from i) w h =
    rw
      (
        find_none b'>' i (Plain-greater i h),
        until_cut words i (Plain-nul words w),
        until_end i (Plain-nul i h),
      )
      refl
rest_pieces words (to o) w h =
    rw
      (
        find_none b'<' o (Plain-less o h),
        until_cut words o (Plain-nul words w),
        until_end o (Plain-nul o h),
      )
      refl
rest_pieces words (from_to i o) w (hi, ho) =
    rw
      (
        find_behind b'>' i (b'>' ∷ o) (Plain-greater i hi),
        set_behind i (b'>' ∷ o) 0 0,
        until_cut words (i ++ 0 ∷ o) (Plain-nul words w),
        until_cut i o (Plain-nul i hi),
        drop_next i (0 ∷ o) 0,
        until_end o (Plain-nul o ho),
      )
      refl
rest_pieces words (to_from o i) w (ho, hi) =
    rw
      (
        find_behind b'<' o (b'<' ∷ i) (Plain-less o ho),
        set_behind o (b'<' ∷ i) 0 0,
        until_cut words (o ++ 0 ∷ i) (Plain-nul words w),
        until_cut o i (Plain-nul o ho),
        drop_next o (0 ∷ i) 0,
        until_end i (Plain-nul i hi),
      )
      refl

-- The start of `findexecutable`, for a command that is not empty with a text behind `<`, behind `>`, both
-- in either order, or neither, where the pieces have no `<`, no `>` and no NUL: it finds the words of the
-- command, and the texts of the two redirections.
pub pieces-split_redirections :
    (w : ℕ) (ws : List ℕ) (r : Redirection)
    → Plain (w ∷ ws)
    → PlainPieces r
    → pieces (split_redirections ((w ∷ ws) ++ redirected r))
      ≡ some (w ∷ ws, input_of r, output_of r)
pieces-split_redirections w ws r h p =
    pieces_behind w ws (redirected r) h ∙ rest_pieces (w ∷ ws) r h p
