-- ===== src/Key/Bytes.antt =====
-- The memory image of `K` and `V` of include/master.hpp: the words one after the other, the lowest
-- byte of a word first.
use cs.Prelude.{
  ℕ, zero, suc, ◌+◌, ◌*◌, ◌/◌, ◌%◌, ◌^◌, ◌<◌, ◌≡◌, refl, ap, ap₂, ◌∙◌, List, [], ◌∷◌, ◌++◌, arith,
  length, length-append, replicate, drop,
}
use cs.Key.{Words, Value}
use cs.Layout.{Layout}

-- The lowest `n` bytes of a word.
abbrev pub word_bytes : ℕ → ℕ → List ℕ
word_bytes zero w = []
word_bytes (suc n) w = w % 256 ∷ word_bytes n (w / 256)

abbrev pub bytes_of : (n : ℕ) → Words n → List ℕ
bytes_of zero ws = []
bytes_of (suc n) (w, ws) = word_bytes 8 w ++ bytes_of n ws

-- The word of `n` equal bytes.
abbrev pub fill_word : ℕ → ℕ → ℕ
fill_word zero b = 0
fill_word (suc n) b = b + 256 * fill_word n b

abbrev pub fill : (n : ℕ) → ℕ → Words n
fill zero b = tt
fill (suc n) b = (fill_word 8 b, fill n b)

length-word_bytes : (n w : ℕ) → length (word_bytes n w) ≡ n
length-word_bytes zero w = refl
length-word_bytes (suc n) w = ap suc (length-word_bytes n (w / 256))

pub length-bytes_of : (n : ℕ) (ws : Words n) → length (bytes_of n ws) ≡ 8 * n
length-bytes_of zero ws = refl
length-bytes_of (suc n) (w, ws) =
    omega (arith, length-append (word_bytes 8 w) (bytes_of n ws), length-bytes_of n ws)

word_bytes-fill_word : (n b : ℕ) → b < 256 → word_bytes n (fill_word n b) ≡ replicate n b
word_bytes-fill_word zero b h = refl
word_bytes-fill_word (suc n) b h =
    ap₂ ◌∷◌ (omega arith) (ap (word_bytes n) (omega arith) ∙ word_bytes-fill_word n b h)

replicate-add : (m n b : ℕ) → replicate m b ++ replicate n b ≡ replicate (m + n) b
replicate-add zero n b = let e : n ≡ 0 + n = omega arith in ap (λ k. replicate k b) e
replicate-add (suc m) n b =
    let e : suc (m + n) ≡ suc m + n = omega arith in
    ap (◌∷◌ b) (replicate-add m n b) ∙ ap (λ k. replicate k b) e

eight : (n : ℕ) → 8 + 8 * n ≡ 8 * suc n
eight n = omega arith

pub bytes_of-fill : (n b : ℕ) → b < 256 → bytes_of n (fill n b) ≡ replicate (8 * n) b
bytes_of-fill zero b h = refl
bytes_of-fill (suc n) b h =
    ap₂ ◌++◌ (word_bytes-fill_word 8 b h) (bytes_of-fill n b h)
    ∙ replicate-add 8 (8 * n) b
    ∙ ap (λ k. replicate k b) (eight n)

instance abbrev pub value_layout : Layout Value
value_layout = record {
  size = 64;
  bytes = bytes_of 8;
  memset = fill 8;
  length-bytes = length-bytes_of 8;
  bytes-memset = bytes_of-fill 8;
}

-- The word that `n` bytes make, and the words that `8 * n` bytes make.
abbrev pub word_of_bytes : ℕ → List ℕ → ℕ
word_of_bytes zero bs = 0
word_of_bytes (suc n) [] = 0
word_of_bytes (suc n) (b ∷ bs) = b + 256 * word_of_bytes n bs

abbrev pub of_bytes : (n : ℕ) → List ℕ → Words n
of_bytes zero bs = tt
of_bytes (suc n) bs = (word_of_bytes 8 bs, of_bytes n (drop 8 bs))

-- Every word is an `unsigned long`.
abbrev pub InRange : (n : ℕ) → Words n → Type 0
InRange zero ws = Unit {0}
InRange (suc n) (w, ws) = (w < 2 ^ 64) × InRange n ws

word_round_trip : (w : ℕ) → w < 2 ^ 64 → word_of_bytes 8 (word_bytes 8 w) ≡ w
word_round_trip w h = omega arith

-- An object whose words have 64 bits is read back from its bytes, whatever stands behind them.
pub of_bytes-bytes_of :
    (n : ℕ) (ws : Words n) (rest : List ℕ) → InRange n ws → of_bytes n (bytes_of n ws ++ rest) ≡ ws
of_bytes-bytes_of zero ws rest h = refl
of_bytes-bytes_of (suc n) (w, ws) rest h =
    ap₂ {C = Words (suc n)} (λ x xs. (x, xs)) (word_round_trip w h.0)
      (of_bytes-bytes_of n ws rest h.1)
