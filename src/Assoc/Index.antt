-- ===== src/Assoc/Index.antt =====
-- Runs of entries by their place, as the binary search of Read.hpp reads them.
use cs.Prelude.{
  ℕ, zero, suc, ◌<◌, false, ◌≡◌, refl, some_inj, List, [], ◌∷◌, none, some, length, get_elem?,
  arith,
}
use mathlib.Core.Path.{subst}
use cs.Order.{Ord, ◌≺◌, same, same_refl}
use cs.Assoc.{All, find, IsSorted}

module _ {ℓ κ} {K : Type ℓ} {V : Type κ} where
  pub All-get_elem {μ} :
      (P : K → Type μ) (es : List (K × V)) (j : ℕ) {e : K × V}
      → All P es
      → get_elem? es j ≡ some e
      → P e.0
  All-get_elem P [] j h g = cc
  All-get_elem P ((k, v) ∷ es) zero h g = subst (λ (x : K × V). P x.0) (some_inj g) h.0
  All-get_elem P ((k, v) ∷ es) (suc j) h g = All-get_elem P es j h.1 g

  pub get_elem-lt :
      (es : List (K × V)) (j : ℕ) → j < length es → (e : K × V) × (get_elem? es j ≡ some e)
  get_elem-lt [] j h = absurd (omega arith)
  get_elem-lt (e ∷ es) zero h = (e, refl)
  get_elem-lt (e ∷ es) (suc j) h = get_elem-lt es j (omega arith)

  pub lt-get_elem :
      (es : List (K × V)) (j : ℕ) {e : K × V} → get_elem? es j ≡ some e → j < length es
  lt-get_elem [] j h = cc
  lt-get_elem (e ∷ es) zero h = omega arith
  lt-get_elem (e ∷ es) (suc j) h = omega (arith, lt-get_elem es j h)

module _ {ℓ κ} {K : Type ℓ} {V : Type κ} ⦃o : Ord K⦄ where
  -- Keys increase with their places.
  pub IsSorted-get_elem :
      (es : List (K × V)) (i j : ℕ) {d e : K × V}
      → IsSorted es
      → get_elem? es i ≡ some d
      → get_elem? es j ≡ some e
      → i < j
      → d.0 ≺ e.0
  IsSorted-get_elem [] i j s g h l = cc
  IsSorted-get_elem ((k, v) ∷ es) i zero s g h l = absurd (omega arith)
  IsSorted-get_elem ((k, v) ∷ es) zero (suc j) {e = e} s g h l =
      subst (λ (x : K × V). x.0 ≺ e.0) (some_inj g) (All-get_elem (λ i. k ≺ i) es j s.0 h)
  IsSorted-get_elem ((k, v) ∷ es) (suc i) (suc j) s g h l =
      IsSorted-get_elem es i j s.1 g h (omega arith)

  -- A search gives the entry that stands at a place.
  pub find-get_elem :
      (es : List (K × V)) (j : ℕ) {e : K × V}
      → IsSorted es
      → get_elem? es j ≡ some e
      → find e.0 es ≡ some e.1
  find-get_elem [] j s g = cc
  find-get_elem ((k, v) ∷ es) zero s g =
      subst (λ (x : K × V). find x.0 ((k, v) ∷ es) ≡ some x.1) (some_inj g)
        (ground (arith, same_refl k))
  find-get_elem ((k, v) ∷ es) (suc j) {e} s g =
      ground (arith, find-get_elem es j s.1 g, All-get_elem (λ i. k ≺ i) es j s.0 g)

  -- A key that differs from the key at every place is not found.
  pub find_absent :
      (q : K) (es : List (K × V))
      → ((j : ℕ) (e : K × V) → get_elem? es j ≡ some e → same e.0 q ≡ false)
      → find q es ≡ none
  find_absent q [] h = refl
  find_absent q ((k, v) ∷ es) h = rw (h 0 (k, v) refl) (find_absent q es (λ j e g. h (suc j) e g))
