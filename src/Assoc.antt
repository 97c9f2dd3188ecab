-- ===== src/Assoc.antt =====
-- Runs of entries sorted by key, as the level files and the in-order walk of the tree hold them.
pub mod Index
pub mod Each
use cs.Prelude.{false, ◌≡◌, refl, List, [], ◌∷◌, ◌++◌, Option, none, some, if◌then◌else◌, arith}
use cs.Order.{Ord, ◌<?◌, ◌≺◌, same, eq_of_same}

-- `P` holds of every key of the run.
abbrev pub All {ℓ κ μ} : {K : Type ℓ} {V : Type κ} → (K → Type μ) → List (K × V) → Type μ
All P [] = Unit
All P ((k, v) ∷ es) = P k × All P es

pub All-imp {ℓ κ μ ν} :
    {K : Type ℓ} {V : Type κ} {P : K → Type μ} {Q : K → Type ν}
    → ((k : K) → P k → Q k)
    → (es : List (K × V)) → All P es
    → All Q es
All-imp f [] h = tt
All-imp f ((k, v) ∷ es) h = (f k h.0, All-imp f es h.1)

pub All-append {ℓ κ μ} :
    {K : Type ℓ} {V : Type κ} (P : K → Type μ) (es fs : List (K × V))
    → All P es
    → All P fs
    → All P (es ++ fs)
All-append P [] fs h g = g
All-append P ((k, v) ∷ es) fs h g = (h.0, All-append P es fs h.1 g)

-- The first answer that there is.
abbrev pub or_else {ℓ} : {V : Type ℓ} → Option V → Option V → Option V
or_else none b = b
or_else (some v) b = some v

module _ {ℓ κ} {K : Type ℓ} {V : Type κ} ⦃o : Ord K⦄ where
  -- The value of the first entry with the key.
  abbrev pub find : K → List (K × V) → Option V
  find k [] = none
  find k ((j, v) ∷ es) = if same j k then some v else find k es

  -- Strictly increasing keys, so no key twice.
  abbrev pub IsSorted : List (K × V) → Type 0
  IsSorted [] = Unit {0}
  IsSorted ((k, v) ∷ es) = All (λ j. k ≺ j) es × IsSorted es

  -- A key that is not above `c` is in no run above `c`, and one that is not below `c` in no run
  -- below `c`.
  pub find_above :
      (k c : K) (es : List (K × V)) → (c <? k) ≡ false → All (λ j. c ≺ j) es → find k es ≡ none
  find_above k c [] n h = refl
  find_above k c ((j, v) ∷ es) n h = ground (arith, find_above k c es, eq_of_same j k)

  pub find_below :
      (k c : K) (es : List (K × V)) → (k <? c) ≡ false → All (λ j. j ≺ c) es → find k es ≡ none
  find_below k c [] n h = refl
  find_below k c ((j, v) ∷ es) n h = ground (arith, find_below k c es, eq_of_same j k)

  pub Above-trans :
      (a b : K) (es : List (K × V)) → a ≺ b → All (λ j. b ≺ j) es → All (λ j. a ≺ j) es
  Above-trans a b es h = All-imp (λ j. o.trans a b j h) es

  pub find-append :
      (k : K) (es fs : List (K × V)) → find k (es ++ fs) ≡ or_else (find k es) (find k fs)
  find-append k [] fs = refl
  find-append k ((j, v) ∷ es) fs = ground (arith, find-append k es fs)

  pub IsSorted-append :
      (es : List (K × V)) (k : K) (v : V) (fs : List (K × V))
      → IsSorted es
      → All (λ j. j ≺ k) es
      → IsSorted ((k, v) ∷ fs)
      → IsSorted (es ++ (k, v) ∷ fs)
  IsSorted-append [] k v fs s h t = t
  IsSorted-append ((j, w) ∷ es) k v fs s h t = (
    All-append (λ i. j ≺ i) es ((k, v) ∷ fs) s.0 (h.0, Above-trans j k fs h.0 t.0),
    IsSorted-append es k v fs s.1 h.1 t,
  )
