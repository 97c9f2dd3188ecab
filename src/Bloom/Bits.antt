-- ===== src/Bloom/Bits.antt =====
-- The bits of a byte, and of the array of bloom.hpp, after one bit is set.
use Prim.Native.Nat.{bit_or}
use cs.Prelude.{
  ℕ, zero, suc, ◌^◌, ◌<◌, Bool, true, false, not, ◌≡◌, refl, ◌&&◌, ◌||◌, ◌==◌, ltb, arith,
}
use cs.Bloom.{has_bit}

-- Whether a test succeeds at each of the first `n` numbers.
every : (ℕ → Bool) → ℕ → Bool
every test zero = true
every test (suc n) = every test n && test n

-- It then succeeds at any one of them.
at_every : (test : ℕ → Bool) (n i : ℕ) → i < n → every test n ≡ true → test i ≡ true
unfolding every
at_every test zero i less all = absurd (omega arith)
at_every test (suc n) i less all = ground (arith, at_every test n i)

same_bool : Bool → Bool → Bool
same_bool true b = b
same_bool false b = not b

same_bool_sound : (a b : Bool) → same_bool a b ≡ true → a ≡ b
unfolding same_bool
same_bool_sound true b h = ground arith
same_bool_sound false b h = ground arith

-- What a byte's bits are after `| (1 << j)`, and that it stays a byte.
check_byte : ℕ → ℕ → ℕ → Bool
unfolding has_bit same_bool
check_byte a j i =
    same_bool (has_bit (bit_or a (2 ^ j)) i) ((i == j) || has_bit a i) && ltb (bit_or a (2 ^ j)) 256

byte_table : every (λ a. every (λ j. every (check_byte a j) 8) 8) 256 ≡ true
unfolding every check_byte
byte_table = refl

check_byte-true : (a j i : ℕ) → a < 256 → j < 8 → i < 8 → check_byte a j i ≡ true
check_byte-true a j i la lj li = at_every (check_byte a j) 8 i li (
    at_every (λ j. every (check_byte a j) 8) 8 j lj
      (at_every (λ a. every (λ j. every (check_byte a j) 8) 8) 256 a la byte_table))

pub has_bit-or :
    (a j i : ℕ) → a < 256 → j < 8 → i < 8 → has_bit (bit_or a (2 ^ j)) i ≡ ((i == j) || has_bit a i)
has_bit-or a j i la lj li =
    same_bool_sound (has_bit (bit_or a (2 ^ j)) i) ((i == j) || has_bit a i)
      (unfold check_byte in ground (arith, check_byte-true a j i la lj li))

pub bit_or-lt : (a j : ℕ) → a < 256 → j < 8 → bit_or a (2 ^ j) < 256
unfolding check_byte
bit_or-lt a j la lj = ground (arith, check_byte-true a j 0 la lj (omega arith))

full_table : every (has_bit 255) 8 ≡ true
unfolding every has_bit
full_table = refl

empty_table : every (λ j. not (has_bit 0 j)) 8 ≡ true
unfolding every has_bit
empty_table = refl

pub has_bit_full : (j : ℕ) → j < 8 → has_bit 255 j ≡ true
has_bit_full j h = at_every (has_bit 255) 8 j h full_table

pub has_bit_empty : (j : ℕ) → j < 8 → has_bit 0 j ≡ false
has_bit_empty j h = ground (arith, at_every (λ j. not (has_bit 0 j)) 8 j h empty_table)
