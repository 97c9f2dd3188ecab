-- ===== src/Key.antt =====
-- `struct K` and `struct V` of include/master.hpp: eight `unsigned long` words. The loop of
-- `operator<` is written for every number of words.
pub mod Laws
pub mod Bytes
mod Tests
use Prim.Native.Nat.{compare, Ordering}
use cs.Prelude.{ℕ, zero, suc, Bool, true, false}

-- `unsigned long bytes[n]`
abbrev pub Words : ℕ → Type 0
Words zero = Unit {0}
Words (suc n) = ℕ × Words n

abbrev pub Key : Type 0
Key = Words 8

abbrev pub Value : Type 0
Value = Words 8

-- The `for` loop of `K::operator<`: the first word that differs decides, and no difference is
-- `false`.
unfoldable pub lt_words : (n : ℕ) → Words n → Words n → Bool
lt_words zero a b = false
lt_words (suc n) (x, xs) (y, ys) = elim (compare x y) [
  | Ordering.lt ↦ true
  | Ordering.gt ↦ false
  | Ordering.eq ↦ lt_words n xs ys
]
