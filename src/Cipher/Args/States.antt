-- ===== src/Cipher/Args/States.antt =====
-- The values of `return_state` in `validargs` of hw1/src/hw1.c, by their fields.
use system_fundamentals_c_pr.Base.{
  ℕ, ◌+◌, ◌*◌, ◌/◌, ◌%◌, ◌<◌, ◌≡◌, refl, bit_and, bit_or, all_below, eq_below,
}
use system_fundamentals_c_pr.Cipher.Args.{rows_of, cols_of}

-- The flags -f and -d are the bits 9 and 8 of the index; rows and columns are the digits below.
abbrev pub state_of : ℕ → ℕ
state_of n = n / 256 * 0x2000 + n % 256

module _ (n : ℕ) (l : n < 1024) where
  pub or_nothing : bit_or (state_of n) 0 ≡ state_of n
  unfolding all_below
  or_nothing = eq_below 1024 (λ n. bit_or (state_of n) 0) (λ n. state_of n) n refl l

  pub or_fractionated : bit_or (state_of n) 0x4000 ≡ state_of (n % 512 + 512)
  unfolding all_below
  or_fractionated =
      eq_below 1024 (λ n. bit_or (state_of n) 0x4000) (λ n. state_of (n % 512 + 512)) n refl l

  pub or_decrypt : bit_or (state_of n) 0x2000 ≡ state_of (n / 512 * 512 + 256 + n % 256)
  unfolding all_below
  or_decrypt =
      eq_below 1024 (λ n. bit_or (state_of n) 0x2000)
        (λ n. state_of (n / 512 * 512 + 256 + n % 256)) n refl l

  pub rows-state_of : rows_of (state_of n) ≡ n % 256 / 16
  unfolding all_below
  rows-state_of = eq_below 1024 (λ n. rows_of (state_of n)) (λ n. n % 256 / 16) n refl l

  pub cols-state_of : cols_of (state_of n) ≡ n % 16
  unfolding all_below
  cols-state_of = eq_below 1024 (λ n. cols_of (state_of n)) (λ n. n % 16) n refl l

  pub flag-state_of : bit_and (state_of n) 0x4000 ≡ n / 512 * 0x4000
  unfolding all_below
  flag-state_of = eq_below 1024 (λ n. bit_and (state_of n) 0x4000) (λ n. n / 512 * 0x4000) n refl l

  pub size-state_of : bit_and (state_of n) 0xff ≡ n % 256
  unfolding all_below
  size-state_of = eq_below 1024 (λ n. bit_and (state_of n) 0xff) (λ n. n % 256) n refl l

  pub rows_mask : bit_and (state_of n) 0xf0 ≡ n % 256 / 16 * 16
  unfolding all_below
  rows_mask = eq_below 1024 (λ n. bit_and (state_of n) 0xf0) (λ n. n % 256 / 16 * 16) n refl l

  pub cols_mask : bit_and (state_of n) 0xf ≡ n % 16
  unfolding all_below
  cols_mask = eq_below 1024 (λ n. bit_and (state_of n) 0xf) (λ n. n % 16) n refl l

  -- A field that is 0 takes a number below 16, and both take the default.
  pub or_rows : bit_or (state_of (n / 256 * 256 + n % 16)) (n % 256 / 16 * 0x10) ≡ state_of n
  unfolding all_below
  or_rows =
      eq_below 1024 (λ n. bit_or (state_of (n / 256 * 256 + n % 16)) (n % 256 / 16 * 0x10))
        (λ n. state_of n) n refl l

  pub or_cols : bit_or (state_of (n / 16 * 16)) (n % 16) ≡ state_of n
  unfolding all_below
  or_cols = eq_below 1024 (λ n. bit_or (state_of (n / 16 * 16)) (n % 16)) (λ n. state_of n) n refl l

  pub or_default : bit_or (state_of (n / 256 * 256)) 0xaa ≡ state_of (n / 256 * 256 + 0xaa)
  unfolding all_below
  or_default =
      eq_below 1024 (λ n. bit_or (state_of (n / 256 * 256)) 0xaa)
        (λ n. state_of (n / 256 * 256 + 0xaa)) n refl l
