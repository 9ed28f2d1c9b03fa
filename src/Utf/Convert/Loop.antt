-- ===== src/Utf/Convert/Loop.antt =====
-- A loop over a file whose rounds each take one code point and write another form of it.
use system_fundamentals_c_pr.Base.{
  All, ℕ, zero, suc, ◌≤◌, ◌<◌, ◌≡◌, refl, List, [], ◌∷◌, ◌++◌, length, length-append, ℤ, arith,
}
use mathlib.Core.List.{append-nil, append_assoc}
use system_fundamentals_c_pr.Utf.Files.{Next, stop, crash, more, returns, run}
use system_fundamentals_c_pr.Utf.Spec.{text}

pub run_stop :
    {S : Type 0} (step : S → Next S) (fuel : ℕ) (s : S) {ret : ℤ} {out : List ℕ}
    → step s ≡ stop ret out
    → run step (suc fuel) s ≡ returns ret out
unfolding run
run_stop step fuel s e = rw (e, run)

pub run_more :
    {S : Type 0} (step : S → Next S) (fuel : ℕ) (s : S) {s' : S}
    → step s ≡ more s'
    → run step (suc fuel) s ≡ run step fuel s'
unfolding run
run_more step fuel s e = rw (e, run)

module _ {S : Type 0} (step : S → Next S) (units emit : ℕ → List ℕ) (P : ℕ → Type 0) (ret : ℤ)
    -- the state with this much left to read, and this much written
    (Stands : List ℕ → List ℕ → S → Type 0)
    (round : (c : ℕ) (tail out : List ℕ) (s : S)
      → P c
      → Stands (units c ++ tail) out s
      → (s' : S) × (step s ≡ more s') × Stands tail (out ++ emit c) s')
    (ending : (out : List ℕ) (s : S) → Stands [] out s → step s ≡ stop ret out) where
  pub run-text :
      (cs out : List ℕ) (fuel : ℕ) (s : S)
      → length cs < fuel
      → All P cs
      → Stands (text units cs) out s
      → run step fuel s ≡ returns ret (out ++ text emit cs)
  run-text cs out zero s h p st = absurd (omega arith)
  run-text [] out (suc fuel) s h p st = rw (append-nil, run_stop step fuel s (ending out s st))
  run-text (c ∷ cs) out (suc fuel) s h p st =
      let (s', e, st') = round c (text units cs) out s p.0 st in
      rw (
        run_more step fuel s e,
        run-text cs (out ++ emit c) fuel s' (omega arith) p.1 st',
        append_assoc,
      )

-- Where each code point takes a byte at least, the fuel of the conversions is enough.
pub length-le-text :
    (units : ℕ → List ℕ) (cs : List ℕ)
    → ((c : ℕ) → 1 ≤ length (units c))
    → length cs ≤ length (text units cs)
length-le-text units [] h = omega arith
length-le-text units (c ∷ cs) h =
    omega (arith, length-append (units c) (text units cs), h c, length-le-text units cs h)

-- A round that goes on has brought the measure down, and no round calls through NULL.
abbrev pub Progress : {S : Type 0} → (S → ℕ) → ℕ → Next S → Type 0
Progress measure m (stop ret out) = Unit
Progress measure m crash = ⊥
Progress measure m (more s) = measure s < m

pub run-returns :
    {S : Type 0} (step : S → Next S) (measure : S → ℕ)
    → ((s : S) → Progress measure (measure s) (step s))
    → (fuel : ℕ) (s : S) → measure s < fuel
    → (ret : ℤ) × (out : List ℕ) × (run step fuel s ≡ returns ret out)
run-returns step measure progress zero s h = absurd (omega arith)
run-returns {S} step measure progress (suc fuel) s h =
    go (step s) refl (progress s) (λ s'. run-returns step measure progress fuel s')
  where
    go :
        (n : Next S)
        → step s ≡ n
        → Progress measure (measure s) n
        → ((s' : S)
            → measure s' < fuel
            → (ret : ℤ) × (out : List ℕ) × (run step fuel s' ≡ returns ret out))
        → (ret : ℤ) × (out : List ℕ) × (run step (suc fuel) s ≡ returns ret out)
    go (stop ret out) e p later = (ret, out, run_stop step fuel s e)
    go crash e p later = absurd p
    go (more s') e p later = rw (run_more step fuel s e) (later s' (omega arith))

pub text_congr :
    (f g : ℕ → List ℕ) (P : ℕ → Type 0) (cs : List ℕ)
    → ((c : ℕ) → P c → f c ≡ g c)
    → All P cs
    → text f cs ≡ text g cs
text_congr f g P [] h a = refl
text_congr f g P (c ∷ cs) h a = rw (h c a.0, text_congr f g P cs h a.1)

pub All-mono : (P Q : ℕ → Type 0) (cs : List ℕ) → ((c : ℕ) → P c → Q c) → All P cs → All Q cs
All-mono P Q [] h a = tt
All-mono P Q (c ∷ cs) h a = (h c a.0, All-mono P Q cs h a.1)
