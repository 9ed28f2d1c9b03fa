-- ===== src/Alloc/Malloc/Sizes.antt =====
-- The sizes that `sf_malloc` and `sf_realloc` of hw3/src/sfmm.c choose for a block.
use system_fundamentals_c_pr.Base.{
  ℕ, ◌+◌, ◌*◌, ◌/◌, ◌%◌, ◌^◌, ◌≤◌, ◌<◌, ◌≡◌, ◌≢◌, ◌⊎◌, inl, inr, refl, true, ◌==◌, arith,
  Bool-cases,
}
use system_fundamentals_c_pr.Alloc.Memory.{Heap, allocated, padded, block_size, requested_size}
use system_fundamentals_c_pr.Alloc.Free.{is_sound}
use system_fundamentals_c_pr.Alloc.Malloc.{start_search, chosen_size, chosen_padding}

-- A multiple of 16 for a request of `size` bytes, with the flag for bytes to spare.
pub record IsStart (size required padding : ℕ) : Type 0 where
  pub enough : size + 16 ≤ required
  pub tight : required < size + 32
  pub whole : required % 16 ≡ 0
  pub exact : (padding ≡ 0) × (required ≡ size + 16) ⊎ (padding ≡ 1) × (size + 16 < required)

-- What is chosen for a request in a block of n * 16 bytes, as the number k of its 16 bytes.
pub record Suits (size n k padding : ℕ) : Type 0 where
  pub enough : size + 16 ≤ k * 16
  pub tight : k * 16 < size + 48
  pub inside : k ≤ n
  pub no_splinter : n ≢ k + 1
  pub exact : (padding ≡ 0) × (k * 16 ≡ size + 16) ⊎ (padding ≡ 1) × (size + 16 < k * 16)

pub start_search-IsStart :
    (heap : Heap) (size : ℕ)
    → IsStart size (start_search heap size).required_size (start_search heap size).padding
start_search-IsStart heap size = elim (Bool-cases ((size + 16) % 16 == 0)) [
  | inl e ↦ rw e (record {
    enough = omega arith;
    tight = omega arith;
    whole = ground (arith, e);
    exact = inl (refl, refl);
  })
  | inr e ↦
      let ne : (size + 16) % 16 ≢ 0 = ground (arith, e) in
      rw e (record {
        enough = omega arith;
        tight = omega (arith, ne);
        whole = omega (arith, ne);
        exact = inr (refl, omega (arith, ne));
      })
]

pub chosen-Suits :
    (size n required padding : ℕ)
    → IsStart size required padding
    → required / 16 ≤ n
    → Suits size n (chosen_size n required / 16) (chosen_padding n required padding)
unfolding chosen_size chosen_padding
chosen-Suits size n required padding s l =
    let a = s.enough in
    let b = s.tight in
    let c = s.whole in
    elim (Bool-cases (n == required / 16 + 1)) [
      | inl e ↦
          let eq : n ≡ required / 16 + 1 = ground (arith, e) in
          rw (chosen_size, chosen_padding, e)
            (record {
              enough = omega (arith, a, c);
              tight = omega (arith, b, c);
              inside = omega (arith, eq);
              no_splinter = λ h. omega (arith, h, eq);
              exact = inr (refl, omega (arith, a, c));
            })
      | inr e ↦
          let ne : n ≢ required / 16 + 1 = ground (arith, e) in
          rw (chosen_size, chosen_padding, e)
            (record {
              enough = omega (arith, a, c);
              tight = omega (arith, b, c);
              inside = l;
              no_splinter = ne;
              exact = elim s.exact [
                | inl (p, q) ↦ inl (p, omega (arith, q, c))
                | inr (p, q) ↦ inr (p, omega (arith, q, c))
              ];
            })
    ]

-- A header and a footer with those sizes pass the tests of `sf_free`.
pub Suits-is_sound :
    (size n k padding header footer : ℕ)
    → Suits size n k padding
    → n < 4096
    → block_size header ≡ k
    → padded header ≡ padding
    → padded footer ≡ padding
    → allocated footer ≡ 1
    → requested_size footer ≡ size
    → is_sound header footer ≡ true
unfolding is_sound
Suits-is_sound size n k padding header footer s small hs hp fp fa fr =
    let a = s.enough in
    let b = s.tight in
    let c = s.inside in
    let room : k * 16 < 2 ^ 32 = omega (arith, c, small) in
    elim s.exact [
      | inl (p, q) ↦ ground (arith, hs, hp, fp, fa, fr, p, q, room)
      | inr (p, q) ↦ ground (arith, hs, hp, fp, fa, fr, p, q, room)
    ]
