-- ===== src/Shell/Directory/Back.antt =====
-- hw4/src/main.c: where `cd` leads, and where `cd -` leads from there.
use system_fundamentals_c_pr.Base.{
  ℕ, ◌≡◌, ◌≢◌, refl, inl, inr, Bool-cases, Option-cases, ap, ◌∙◌, sym, ◌↔◌, Bool, true, false, not,
  ◌&&◌, Option, none, some, List, [], ◌∷◌, ◌++◌, ◌==◌, codes, arith,
}
use system_fundamentals_c_pr.Shell.Directory.{
  Directories, quiet, changed_to, behind_slash, enter_first, left_over, enter_rest,
  swap_directories, is_dash, cd,
}

-- The directory of the process is the one that the shell shows.
abbrev pub InPlace : Directories → Type 0
InPlace s = s.current ≡ s.working

enter_rest-InPlace :
    (chdir : List ℕ → List ℕ → Option (List ℕ)) (old d tok : List ℕ)
    → InPlace (enter_rest chdir old d tok).0
enter_rest-InPlace chdir old d [] = refl
enter_rest-InPlace chdir old d (c ∷ cs) = elim (Option-cases (chdir d (c ∷ cs))) [
  | inl e ↦ rw (enter_rest, e) refl
  | inr (d', e) ↦ rw (enter_rest, e) refl
]

-- The directory behind `chdir` is the one that is shown, whether `chdir` fails or not.
abbrev Lands : (List ℕ → List ℕ → Option (List ℕ)) → List ℕ → List ℕ → Type 0
Lands chdir d shown = changed_to d (chdir d shown) ≡ shown

-- `cd -` does nothing where there is no previous directory.
abbrev pub LandsBack : (List ℕ → List ℕ → Option (List ℕ)) → List ℕ → List ℕ → Type 0
LandsBack chdir d [] = Unit
LandsBack chdir d (c ∷ cs) = Lands chdir d (c ∷ cs)

abbrev pub LandsAt : (List ℕ → List ℕ → Option (List ℕ)) → Directories → Bool → Type 0
LandsAt chdir s true = LandsBack chdir s.working s.previous
LandsAt chdir s false = Unit

-- What `cd` asks of `chdir`, whose result it does not look at.
abbrev pub LandsThere :
    (List ℕ → List ℕ → Option (List ℕ)) → List ℕ → Directories → Option (List ℕ) → Type 0
LandsThere chdir home s none = Lands chdir s.working home
LandsThere chdir home s (some tok) = LandsAt chdir s (is_dash tok)

swap_lands :
    (chdir : List ℕ → List ℕ → Option (List ℕ)) (w c p : List ℕ)
    → c ≡ w
    → InPlace (swap_directories chdir (record { working = w; current = c; previous = p })).0
      ↔ LandsBack chdir w p
swap_lands chdir w c [] h = (λ e. tt, λ u. h)
swap_lands chdir w c (x ∷ p) h = (λ e. sym e, λ e. sym e)

-- Where the shell shows the directory of the process, it does so after `cd` with a name, whatever `chdir`
-- answers. After `cd` without an argument it does so exactly if `chdir` to $HOME leads to the directory of
-- that text, or fails there; after `cd -`, exactly if there is no previous directory, or `chdir` leads to
-- the directory of its text, or fails there.
pub cd-InPlace :
    (chdir : List ℕ → List ℕ → Option (List ℕ)) (home : List ℕ) (s : Directories)
    (tok : Option (List ℕ))
    → InPlace s
    → InPlace (cd chdir home s tok).0 ↔ LandsThere chdir home s tok
unfolding cd
cd-InPlace chdir home s none h = (λ e. sym e, λ e. sym e)
cd-InPlace chdir home s (some tok) h = elim (Bool-cases (is_dash tok)) [
  | inl y ↦ rw (y) (swap_lands chdir s.working s.current s.previous h)
  | inr n ↦
      let kept =
        enter_rest-InPlace chdir s.current (enter_first chdir home s.working tok) (left_over tok) in
      rw (n) (λ e. tt, λ u. kept)
]

-- An argument that does not start with a dot, `~` or `-`.
abbrev pub plain_start : List ℕ → Bool
plain_start [] = false
plain_start (c ∷ cs) = not (c == b'.') && not (c == b'~') && not (c == b'-')

not_dash : (c : ℕ) (cs : List ℕ) → plain_start (c ∷ cs) ≡ true → is_dash (c ∷ cs) ≡ false
not_dash c [] p = ground arith
not_dash c (d ∷ cs) p = refl

-- `cd` with an argument other than `-`, in its two steps.
cd_steps :
    (chdir : List ℕ → List ℕ → Option (List ℕ)) (home : List ℕ) (s : Directories) (tok d r : List ℕ)
    → is_dash tok ≡ false
    → enter_first chdir home s.working tok ≡ d
    → left_over tok ≡ r
    → cd chdir home s (some tok) ≡ enter_rest chdir s.current d r
unfolding cd
cd_steps chdir home s tok d r n f l =
    rw (cd, n)
      (ap (λ x. enter_rest chdir s.current x (left_over tok)) f
        ∙ ap (λ x. enter_rest chdir s.current d x) l)

plain_first :
    (chdir : List ℕ → List ℕ → Option (List ℕ)) (home d : List ℕ) (c : ℕ) (cs : List ℕ)
    → plain_start (c ∷ cs) ≡ true
    → enter_first chdir home d (c ∷ cs) ≡ d
unfolding enter_first
plain_first chdir home d c cs p =
    let dot : (c == b'.') ≡ false = ground arith in
    let tilde : (c == b'~') ≡ false = ground arith in rw (enter_first, dot, tilde) refl

plain_left : (c : ℕ) (cs : List ℕ) → plain_start (c ∷ cs) ≡ true → left_over (c ∷ cs) ≡ c ∷ cs
unfolding left_over
plain_left c cs p =
    let dot : (c == b'.') ≡ false = ground arith in
    let tilde : (c == b'~') ≡ false = ground arith in rw (left_over, dot, tilde) refl

plain_enters :
    (chdir : List ℕ → List ℕ → Option (List ℕ)) (home : List ℕ) (s : Directories) (tok d' : List ℕ)
    → plain_start tok ≡ true
    → chdir s.working tok ≡ some d'
    → cd chdir home s (some tok)
      ≡ (record { working = d'; current = d'; previous = s.working }, quiet)
plain_enters chdir home s [] d' p e = ground arith
plain_enters chdir home s (c ∷ cs) d' p e =
    cd_steps chdir home s (c ∷ cs) s.working (c ∷ cs) (not_dash c cs p)
      (plain_first chdir home s.working c cs p) (plain_left c cs p)
    ∙ rw (enter_rest, e) refl

-- `cd -` from any directory that is not the first one.
dash_swaps :
    (chdir : List ℕ → List ℕ → Option (List ℕ)) (home w c p : List ℕ)
    → p ≢ []
    → chdir w p ≡ some p
    → cd chdir home (record { working = w; current = c; previous = p }) (some (codes "-"))
      ≡ (record { working = p; current = p; previous = c }, quiet)
unfolding cd
dash_swaps chdir home w c [] n e = absurd (n refl)
dash_swaps chdir home w c (x ∷ p) n e = rw (e) refl

-- `cd` with an argument that does not start with a dot, `~` or `-` and that leads to a directory, and
-- `cd -` after it, where that leads back: they end in the directory that they started from, and the one
-- between is the previous one.
pub cd-back :
    (chdir : List ℕ → List ℕ → Option (List ℕ)) (home : List ℕ) (s : Directories) (tok d' : List ℕ)
    → s.working ≢ []
    → plain_start tok ≡ true
    → chdir s.working tok ≡ some d'
    → chdir d' s.working ≡ some s.working
    → cd chdir home (cd chdir home s (some tok)).0 (some (codes "-"))
      ≡ (record { working = s.working; current = s.working; previous = d' }, quiet)
cd-back chdir home s tok d' n p there back =
    rw (plain_enters chdir home s tok d' p there) (dash_swaps chdir home d' d' s.working n back)

parent_first :
    (chdir : List ℕ → List ℕ → Option (List ℕ)) (home d : List ℕ) (x : ℕ) (xs parent : List ℕ)
    → chdir d (codes ".") ≡ some d
    → chdir d (codes "..") ≡ some parent
    → enter_first chdir home d (codes "../" ++ x ∷ xs) ≡ parent
unfolding enter_first
parent_first chdir home d x xs parent here up = rw (here, up) refl

parent_enters :
    (chdir : List ℕ → List ℕ → Option (List ℕ)) (home : List ℕ) (s : Directories) (x : ℕ)
    (xs parent d' : List ℕ)
    → chdir s.working (codes ".") ≡ some s.working
    → chdir s.working (codes "..") ≡ some parent
    → chdir parent (x ∷ xs) ≡ some d'
    → cd chdir home s (some (codes "../" ++ x ∷ xs))
      ≡ (record { working = d'; current = d'; previous = parent }, quiet)
unfolding left_over behind_slash
parent_enters chdir home s x xs parent d' here up there =
    cd_steps chdir home s (codes "../" ++ x ∷ xs) parent (x ∷ xs) refl
      (parent_first chdir home s.working x xs parent here up) refl
    ∙ rw (enter_rest, there) refl

-- `cd ../x`, from a directory whose parent has x, and `cd -` after it: they end in the parent, not in the
-- directory that they started from.
pub cd-parent :
    (chdir : List ℕ → List ℕ → Option (List ℕ)) (home : List ℕ) (s : Directories) (x : ℕ)
    (xs parent d' : List ℕ)
    → chdir s.working (codes ".") ≡ some s.working
    → chdir s.working (codes "..") ≡ some parent
    → chdir parent (x ∷ xs) ≡ some d'
    → chdir d' parent ≡ some parent
    → parent ≢ []
    → cd chdir home (cd chdir home s (some (codes "../" ++ x ∷ xs))).0 (some (codes "-"))
      ≡ (record { working = parent; current = parent; previous = d' }, quiet)
cd-parent chdir home s x xs parent d' here up there back n =
    rw (parent_enters chdir home s x xs parent d' here up there)
      (dash_swaps chdir home d' d' parent n back)
