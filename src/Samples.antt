-- ===== src/Samples.antt =====
-- Sample keys, values and runs for the tests of the other modules.
use cs.Prelude.{replicate, ◌<◌, ◌^◌, arith}
use cs.Prelude.{ℕ, List, [], ◌∷◌, refl}
use cs.Assoc.{IsSorted}
use cs.Key.Bytes.{InRange}
use cs.Read.Paged.{AllInRange}
use cs.Key.{Key, Value, lt_words}
use cs.Key.Laws.{words_ord}
use cs.Level.{Level, level}

-- `n` in the first word, and zeros.
abbrev pub word_key : ℕ → Key
word_key n = (n, (0, (0, (0, (0, (0, (0, (0, tt))))))))

-- Every byte 255, as `del` leaves it.
abbrev pub gone : Value
gone = (
  18446744073709551615,
  (
    18446744073709551615,
    (
      18446744073709551615,
      (
        18446744073709551615,
        (
          18446744073709551615,
          (18446744073709551615, (18446744073709551615, (18446744073709551615, tt))),
        ),
      ),
    ),
  ),
)

abbrev pub older : List (Key × Value)
older = (word_key 1, word_key 10) ∷ (word_key 2, word_key 20) ∷ (word_key 5, word_key 50) ∷ []

abbrev pub newer : List (Key × Value)
newer = (word_key 2, gone) ∷ (word_key 3, word_key 31) ∷ (word_key 5, word_key 51) ∷ []

abbrev pub stamp : List ℕ
stamp = replicate 128 48

abbrev pub older_file : Level Key Value
older_file = level stamp older

abbrev pub newer_file : Level Key Value
newer_file = level stamp newer

pub older-IsSorted : IsSorted older
unfolding lt_words
older-IsSorted = ((refl, (refl, tt)), ((refl, tt), (tt, tt)))

pub newer-IsSorted : IsSorted newer
unfolding lt_words
newer-IsSorted = ((refl, (refl, tt)), ((refl, tt), (tt, tt)))

pub word_key-InRange : (n : ℕ) → n < 2 ^ 64 → InRange 8 (word_key n)
word_key-InRange n h = (
  h,
  (
    omega arith,
    (omega arith, (omega arith, (omega arith, (omega arith, (omega arith, (omega arith, tt)))))),
  ),
)

pub older-AllInRange : AllInRange older
older-AllInRange = (
  (word_key-InRange 1 (omega arith), word_key-InRange 10 (omega arith)),
  (
    (word_key-InRange 2 (omega arith), word_key-InRange 20 (omega arith)),
    ((word_key-InRange 5 (omega arith), word_key-InRange 50 (omega arith)), tt),
  ),
)

gone-InRange : InRange 8 gone
gone-InRange = (
  omega arith,
  (
    omega arith,
    (omega arith, (omega arith, (omega arith, (omega arith, (omega arith, (omega arith, tt)))))),
  ),
)

pub newer-AllInRange : AllInRange newer
newer-AllInRange = (
  (word_key-InRange 2 (omega arith), gone-InRange),
  (
    (word_key-InRange 3 (omega arith), word_key-InRange 31 (omega arith)),
    ((word_key-InRange 5 (omega arith), word_key-InRange 51 (omega arith)), tt),
  ),
)
