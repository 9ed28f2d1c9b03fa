-- ===== src/Cream/Hash.antt =====
-- `jenkins_one_at_a_time_hash` of hw5/src/utils.c, on the bytes of a key, with 32-bit arithmetic.
use system_fundamentals_c_pr.Base.{
  ℕ, ◌+◌, ◌*◌, ◌/◌, ◌%◌, ◌^◌, ◌≡◌, refl, List, [], ◌∷◌, bit_xor, codes,
}

-- A round of `while (i != length)`.
unfoldable hash_round : ℕ → ℕ → ℕ
hash_round hash byte =
    let added = (hash + byte) % 2 ^ 32 in
    let shifted = (added + added * 2 ^ 10 % 2 ^ 32) % 2 ^ 32 in bit_xor shifted (shifted / 2 ^ 6)

unfoldable hash_loop : ℕ → List ℕ → ℕ
unfolding hash_round
hash_loop hash [] = hash
hash_loop hash (byte ∷ key) = hash_loop (hash_round hash byte) key

-- `hash += hash << 3; hash ^= hash >> 11; hash += hash << 15`
unfoldable hash_end : ℕ → ℕ
hash_end hash =
    let shifted = (hash + hash * 2 ^ 3 % 2 ^ 32) % 2 ^ 32 in
    let mixed = bit_xor shifted (shifted / 2 ^ 11) in (mixed + mixed * 2 ^ 15 % 2 ^ 32) % 2 ^ 32

unfoldable jenkins_one_at_a_time_hash : List ℕ → ℕ
unfolding hash_loop hash_end
jenkins_one_at_a_time_hash key = hash_end (hash_loop 0 key)

-- The published values of the hash.
one_letter_test : jenkins_one_at_a_time_hash (codes "a") ≡ 0xca2e9442
unfolding jenkins_one_at_a_time_hash
one_letter_test = refl

sentence_test :
    jenkins_one_at_a_time_hash (codes "The quick brown fox jumps over the lazy dog") ≡ 0x519e91f5
unfolding jenkins_one_at_a_time_hash
sentence_test = refl
