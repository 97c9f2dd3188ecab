-- ===== src/Key/Laws.antt =====
-- `K::operator<` of include/master.hpp is a strict total order, which is what the templates ask of
-- a key.
use cs.Prelude.{ℕ, zero, suc, true, false, ◌≡◌, refl, arith}
use cs.Order.{IsOrder, Ord}
use cs.Key.{Words, Key, lt_words}

lt_words_irrefl : (n : ℕ) (a : Words n) → lt_words n a a ≡ false
unfolding lt_words
lt_words_irrefl zero a = refl
lt_words_irrefl (suc n) (x, xs) = ground (arith, lt_words_irrefl n xs)

lt_words_trans :
    (n : ℕ) (a b c : Words n)
    → lt_words n a b ≡ true
    → lt_words n b c ≡ true
    → lt_words n a c ≡ true
unfolding lt_words
lt_words_trans zero a b c p q = p
lt_words_trans (suc n) (x, xs) (y, ys) (z, zs) p q = ground (arith, lt_words_trans n xs ys zs)

lt_words_tri : (n : ℕ) (a b : Words n) → lt_words n a b ≡ false → lt_words n b a ≡ false → a ≡ b
unfolding lt_words
lt_words_tri zero a b p q = refl
lt_words_tri (suc n) (x, xs) (y, ys) p q = ground (arith, lt_words_tri n xs ys)

-- For every number of words the loop of `operator<` decides a strict total order: no key is below
-- itself, the order is transitive, and two keys of which neither is below the other are equal word
-- by word.
pub lt_words-IsOrder : (n : ℕ) → IsOrder (lt_words n)
lt_words-IsOrder n = record {
  irrefl = lt_words_irrefl n;
  trans = lt_words_trans n;
  tri = lt_words_tri n;
}

instance abbrev pub words_ord : Ord Key
words_ord = record { lt = lt_words 8; lawful = lt_words-IsOrder 8 }
