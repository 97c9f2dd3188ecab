-- ===== src/FileIo/Queue.antt =====
-- `lruIndexQ` of FileIO.cpp as a bag of frame numbers: what `erase` and `pop_back` take away.
use mathlib.Core.Option
use cs.Prelude.{
  ℕ, ◌+◌, ◌<◌, ◌≡◌, ◌≢◌, refl, ap, false, ◌∙◌, List, [], ◌∷◌, ◌++◌, some, if◌then◌else◌, ◌==◌,
  Bool-cases, inl, inr, arith,
}
use cs.FileIo.{erase_index, pop_back}

-- 1 at `i`, and 0 at every other number.
abbrev pub at_index : ℕ → ℕ → ℕ
at_index i k = if i == k then 1 else 0

abbrev pub occurrences : ℕ → List ℕ → ℕ
occurrences k [] = 0
occurrences k (j ∷ q) = at_index j k + occurrences k q

erase_other :
    (i j : ℕ) (q : List ℕ)
    → (j == i) ≡ false
    → erase_index i (j ∷ q) ≡ Option.map (◌∷◌ j) (erase_index i q)
unfolding erase_index
erase_other i j q h = rw h

pub erase_index-occurrences :
    (i : ℕ) (q : List ℕ)
    → 0 < occurrences i q
    → (q' : List ℕ) × (erase_index i q ≡ some q')
      × ((k : ℕ) → occurrences k q' + at_index i k ≡ occurrences k q)
unfolding erase_index
erase_index-occurrences i [] h = absurd (omega arith)
erase_index-occurrences i (j ∷ q) h = elim (Bool-cases (j == i)) [
  | inl e ↦ (q, rw e, λ k. ground arith)
  | inr n ↦
      let (q', erased, rest) = erase_index-occurrences i q (ground arith) in
      (j ∷ q', erase_other i j q n ∙ ap (Option.map (◌∷◌ j)) erased, λ k. omega (arith, rest k))
]

pub pop_back-occurrences :
    (q : List ℕ)
    → q ≢ []
    → (i : ℕ) × (q' : List ℕ) × (pop_back q ≡ some (i, q'))
      × (q ≡ q' ++ i ∷ [])
      × ((k : ℕ) → occurrences k q' + at_index i k ≡ occurrences k q)
unfolding pop_back
pop_back-occurrences [] h = absurd (h refl)
pop_back-occurrences (i ∷ []) h = (i, [], refl, refl, λ k. omega arith)
pop_back-occurrences (j ∷ j' ∷ q) h =
    let (i, q', popped, split, rest) = pop_back-occurrences (j' ∷ q) (λ e. cc) in
    (i, j ∷ q', rw popped, ap (◌∷◌ j) split, λ k. omega (arith, rest k))
