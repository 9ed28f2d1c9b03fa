-- ===== src/Shell/Jobs/Removal.antt =====
-- Jobs that hw4/src/main.c takes out of its list.
use system_fundamentals_c_pr.Base.{
  ℕ, ◌≡◌, ◌≢◌, refl, ap, ◌∙◌, sym, none, some, List, [], ◌∷◌, ◌++◌, All, ==_of_ne, ==_refl,
}
use system_fundamentals_c_pr.Shell.Jobs.{Memory, write_job, link_front, link_back, unlink_job}
use system_fundamentals_c_pr.Shell.Jobs.Links.{
  Entry, job_of, first_of, Linked, Distinct, Holds, Linked-kept, first_of-append, All-front,
  All-map,
}

abbrev pub last_of : ℕ → List Entry → ℕ
last_of prev [] = prev
last_of prev (e ∷ es) = last_of e.address es

-- The node of an entry, and those behind it.
pub node_of :
    (memory : Memory) (prev : ℕ) (front : List Entry) (e : Entry) (es : List Entry)
    → Linked memory prev (front ++ e ∷ es)
    → (e.address ≢ 0)
      × (memory e.address ≡ some (job_of e (last_of prev front) (first_of es)))
      × Linked memory e.address es
node_of memory prev [] e es (n, (m, h)) = (n, m, h)
node_of memory prev (d ∷ front) e es (n, (m, h)) = node_of memory d.address front e es h

-- The first node of `back` is linked to `b`.
abbrev relinked : Memory → Entry → List Entry → Memory
relinked memory b [] = memory
relinked memory b (c ∷ back) =
    write_job memory c.address (some (job_of c b.address (first_of back)))

-- The memory without `a`, which stands between `b` and `back`.
abbrev pub removed : Memory → ℕ → Entry → Entry → List Entry → Memory
removed memory prev b a back =
    write_job (relinked (write_job memory b.address (some (job_of b prev (first_of back)))) b back)
      a.address none

removed_other :
    (memory : Memory) (prev : ℕ) (b a : Entry) (back : List Entry) (x : ℕ)
    → x ≢ b.address
    → x ≢ a.address
    → All (λ e. e.address ≢ x) back
    → removed memory prev b a back x ≡ memory x
removed_other memory prev b a [] x nb na h =
    rw (==_of_ne x a.address na, ==_of_ne x b.address nb) refl
removed_other memory prev b a (c ∷ back) x nb na (nc, h) =
    rw (==_of_ne x a.address na, ==_of_ne x c.address (λ e. nc (sym e)), ==_of_ne x b.address nb)
      refl

removed_before :
    (memory : Memory) (prev : ℕ) (b a : Entry) (back : List Entry)
    → a.address ≢ b.address
    → All (λ e. e.address ≢ b.address) back
    → removed memory prev b a back b.address ≡ some (job_of b prev (first_of back))
removed_before memory prev b a [] x y =
    rw (==_of_ne b.address a.address (λ e. x (sym e)), ==_refl b.address) refl
removed_before memory prev b a (c ∷ back) x (y, ys) =
    rw
      (
        ==_of_ne b.address a.address (λ e. x (sym e)),
        ==_of_ne b.address c.address (λ e. y (sym e)),
        ==_refl b.address,
      )
      refl

removed_behind :
    (memory : Memory) (prev : ℕ) (b a c : Entry) (back es : List Entry)
    → All (λ e. e.address ≢ b.address) es
    → All (λ e. e.address ≢ a.address) es
    → All (λ e. e.address ≢ c.address) es
    → All (λ e. removed memory prev b a (c ∷ back) e.address ≡ memory e.address) es
removed_behind memory prev b a c back [] x y z = tt
removed_behind memory prev b a c back (e ∷ es) (x, xs) (y, ys) (z, zs) = (
  rw
      (
        ==_of_ne e.address a.address y,
        ==_of_ne e.address c.address z,
        ==_of_ne e.address b.address x,
      )
      refl,
  removed_behind memory prev b a c back es xs ys zs,
)

removed_back :
    (memory : Memory) (prev : ℕ) (b a : Entry) (back : List Entry)
    → Distinct (b ∷ a ∷ back)
    → Linked memory a.address back
    → Linked (removed memory prev b a back) b.address back
removed_back memory prev b a [] d h = tt
removed_back memory prev b a (c ∷ back) ((ab, (cb, backb)), ((ca, backa), (backc, d))) (n, (m, h)) =
    (
      n,
      (
        rw (==_of_ne c.address a.address ca, ==_refl c.address) refl,
        Linked-kept memory (removed memory prev b a (c ∷ back)) c.address back
            (removed_behind memory prev b a c back back backb backa backc) h,
      ),
    )

pub removed-Linked :
    (memory : Memory) (prev : ℕ) (front : List Entry) (b a : Entry) (back : List Entry)
    → Distinct (front ++ b ∷ a ∷ back)
    → Linked memory prev (front ++ b ∷ a ∷ back)
    → Linked (removed memory (last_of prev front) b a back) prev (front ++ b ∷ back)
removed-Linked memory prev [] b a back ((ab, db), d) (n, (m, (na, (ma, h)))) = (
  n,
  (removed_before memory prev b a back ab db, removed_back memory prev b a back ((ab, db), d) h),
)
removed-Linked memory prev (d ∷ front) b a back (apart, ds) (n, (m, h)) =
    let (f, (nb, (na, nback))) =
      All-front (λ e. e.address ≢ d.address) front (b ∷ a ∷ back) apart in
    (
      n,
      (
        removed_other memory (last_of d.address front) b a back d.address (λ e. nb (sym e))
              (λ e. na (sym e)) nback
            ∙ m
            ∙ ap (λ x. some (job_of d prev x)) (first_of-append front b (a ∷ back) back),
        removed-Linked memory d.address front b a back ds h,
      ),
    )

-- One entry fewer keeps the addresses apart.
All-without :
    (P : Entry → Type 0) (front : List Entry) (b a : Entry) (back : List Entry)
    → All P (front ++ b ∷ a ∷ back)
    → All P (front ++ b ∷ back)
All-without P [] b a back (pb, (pa, h)) = (pb, h)
All-without P (d ∷ front) b a back (pd, h) = (pd, All-without P front b a back h)

pub Distinct-without :
    (front : List Entry) (b a : Entry) (back : List Entry)
    → Distinct (front ++ b ∷ a ∷ back)
    → Distinct (front ++ b ∷ back)
Distinct-without [] b a back ((ab, db), (da, d)) = (db, d)
Distinct-without (c ∷ front) b a back (apart, ds) = (
  All-without (λ e. e.address ≢ c.address) front b a back apart,
  Distinct-without front b a back ds,
)

pub Distinct-back : (front back : List Entry) → Distinct (front ++ back) → Distinct back
Distinct-back [] back d = d
Distinct-back (e ∷ front) back (apart, d) = Distinct-back front back d

-- `free` of a job of the list, as the code writes it.
link_back-relinked :
    (memory : Memory) (b a : Entry) (back : List Entry)
    → Linked memory a.address back
    → link_back memory (job_of a b.address (first_of back)) ≡ some (relinked memory b back)
unfolding link_back
link_back-relinked memory b a [] h = refl
link_back-relinked memory b a (c ∷ back) (n, (m, h)) =
    rw (link_back, ==_of_ne c.address 0 n, m) refl

-- The whole of it, for a job with a node in front of it.
pub unlink_job-removed :
    (memory : Memory) (prev : ℕ) (front : List Entry) (b a : Entry) (back : List Entry)
    → Distinct (front ++ b ∷ a ∷ back)
    → Linked memory prev (front ++ b ∷ a ∷ back)
    → unlink_job memory a.address ≡ some (removed memory (last_of prev front) b a back)
unfolding unlink_job
unlink_job-removed memory prev front b a back d h =
    let (nb, mb, (na, (ma, linked))) = node_of memory prev front b (a ∷ back) h in
    let apart = Distinct-back front (b ∷ a ∷ back) d in
    let front' = record (job_of b (last_of prev front) a.address) { next = first_of back } in
    let memory' = write_job memory b.address (some front') in
    let same =
      All-map (λ e. e.address ≢ b.address) (λ e. memory' e.address ≡ memory e.address) back
        (λ e n. rw (==_of_ne e.address b.address n) refl) apart.0.1 in
    rw
      (
        unlink_job,
        ma,
        link_front,
        mb,
        link_back-relinked memory' b a back (Linked-kept memory memory' a.address back same linked),
      )
      refl

-- The list of jobs, `b` being the node in front of `a`.
pub unlink_job-Holds :
    (memory : Memory) (front : List Entry) (b a : Entry) (back : List Entry)
    → Holds memory (front ++ b ∷ a ∷ back)
    → (memory' : Memory) × (unlink_job memory a.address ≡ some memory')
      × Holds memory' (front ++ b ∷ back)
unlink_job-Holds memory front b a back h = (
  removed memory (last_of 0 front) b a back,
  unlink_job-removed memory 0 front b a back h.distinct h.linked,
  record {
    linked = removed-Linked memory 0 front b a back h.distinct h.linked;
    distinct = Distinct-without front b a back h.distinct;
  },
)
