-- ===== src/Merge/Reference.antt =====
-- The merge of Merge.hpp by recursion on the two runs, and what it promises.
use cs.Prelude.{
  ◌≡◌, refl, List, [], ◌∷◌, Option, none, some, if◌then◌else◌, arith, Bool-cases, inl, inr,
}
use cs.Order.{Ord, ◌<?◌, ◌≺◌, same, eq_of_same}
use cs.Layout.{Layout, is_tomb}
use cs.Assoc.{All, find, find_above, IsSorted, or_else, Above-trans}

-- A value that a reader of the merged file sees.
abbrev pub live_value {κ} : {V : Type κ} ⦃w : Layout V⦄ → Option V → Option V
live_value none = none
live_value (some v) = if is_tomb v then none else some v

module _ {ℓ κ} {K : Type ℓ} {V : Type κ} ⦃w : Layout V⦄ where
  -- An entry that is not a tombstone, before a run.
  abbrev pub keep : K × V → List (K × V) → List (K × V)
  keep e es = if is_tomb e.1 then es else e ∷ es

  abbrev pub live : List (K × V) → List (K × V)
  live [] = []
  live (e ∷ es) = keep e (live es)

  module _ ⦃o : Ord K⦄ where
    -- The entry `x` of the older run against the newer run; `rest` merges what is behind `x`.
    abbrev pub against : K × V → (List (K × V) → List (K × V)) → List (K × V) → List (K × V)
    against x rest [] = keep x (rest [])
    against x rest (y ∷ ys) =
        if x.0 <? y.0
        then keep x (rest (y ∷ ys))
        else if y.0 <? x.0
        then keep y (against x rest ys)
        else keep y (rest ys)

    -- The older run first, then the newer.
    abbrev pub merged : List (K × V) → List (K × V) → List (K × V)
    merged [] ys = live ys
    merged (x ∷ xs) ys = against x (merged xs) ys

    All-keep {μ} :
        (P : K → Type μ) (e : K × V) (es : List (K × V)) → P e.0 → All P es → All P (keep e es)
    All-keep P (k, v) es p h = ground arith

    All-live {μ} : (P : K → Type μ) (es : List (K × V)) → All P es → All P (live es)
    All-live P [] h = tt
    All-live P ((k, v) ∷ es) h = All-keep P (k, v) (live es) h.0 (All-live P es h.1)

    pub All-merged {μ} :
        (P : K → Type μ) (xs ys : List (K × V)) → All P xs → All P ys → All P (merged xs ys)
    All-merged P [] ys h g = All-live P ys g
    All-merged P ((k, v) ∷ xs) [] h g =
        All-keep P (k, v) (merged xs []) h.0 (All-merged P xs [] h.1 g)
    All-merged P ((k, v) ∷ xs) ((j, u) ∷ ys) h g = ground (
      arith,
      All-merged P xs ((j, u) ∷ ys) h.1 g,
      All-merged P ((k, v) ∷ xs) ys h g.1,
      All-merged P xs ys h.1 g.1,
    )

    IsSorted-keep :
        (k : K) (v : V) (es : List (K × V))
        → All (λ j. k ≺ j) es
        → IsSorted es
        → IsSorted (keep (k, v) es)
    IsSorted-keep k v es h s = ground arith

    IsSorted-live : (es : List (K × V)) → IsSorted es → IsSorted (live es)
    IsSorted-live [] s = tt
    IsSorted-live ((k, v) ∷ es) s =
        IsSorted-keep k v (live es) (All-live (λ j. k ≺ j) es s.0) (IsSorted-live es s.1)

    pub IsSorted-merged :
        (xs ys : List (K × V)) → IsSorted xs → IsSorted ys → IsSorted (merged xs ys)
    IsSorted-merged [] ys s t = IsSorted-live ys t
    IsSorted-merged ((k, v) ∷ xs) [] s t =
        IsSorted-keep k v (merged xs []) (All-merged (λ j. k ≺ j) xs [] s.0 tt)
          (IsSorted-merged xs [] s.1 t)
    IsSorted-merged ((k, v) ∷ xs) ((j, u) ∷ ys) s t = ground (
      arith,
      IsSorted-keep k v (merged xs ((j, u) ∷ ys)),
      All-merged (λ i. k ≺ i) xs ((j, u) ∷ ys) s.0,
      Above-trans k j ys,
      IsSorted-merged xs ((j, u) ∷ ys) s.1 t,
      IsSorted-keep j u (merged ((k, v) ∷ xs) ys),
      All-merged (λ i. j ≺ i) ((k, v) ∷ xs) ys,
      Above-trans j k xs,
      IsSorted-merged ((k, v) ∷ xs) ys s t.1,
      IsSorted-keep j u (merged xs ys),
      All-merged (λ i. j ≺ i) xs ys,
      IsSorted-merged xs ys s.1 t.1,
      o.tri k j,
    )

    find-keep :
        (q k : K) (v : V) (es : List (K × V))
        → find k es ≡ none
        → find q (keep (k, v) es) ≡ (if same k q then live_value (some v) else find q es)
    find-keep q k v es h = ground (arith, eq_of_same k q)

    find_head :
        (q k : K) (v : V) (es : List (K × V))
        → All (λ j. k ≺ j) es
        → find q (keep (k, v) es) ≡ (if same k q then live_value (some v) else find q es)
    find_head q k v es h = find-keep q k v es (find_above k k es (o.irrefl k) h)

    find-live :
        (q : K) (es : List (K × V)) → IsSorted es → find q (live es) ≡ live_value (find q es)
    find-live q [] s = refl
    find-live q ((k, v) ∷ es) s = ground (
      arith,
      find-keep q k v (live es),
      find_above k k (live es) (o.irrefl k),
      All-live (λ j. k ≺ j) es s.0,
      find-live q es s.1,
    )

    -- A reader of the merged run finds the value of the newer run, or else of the older one, unless
    -- that is a tombstone.
    pub find-merged :
        (q : K) (xs ys : List (K × V))
        → IsSorted xs
        → IsSorted ys
        → find q (merged xs ys) ≡ live_value (or_else (find q ys) (find q xs))
    find-merged q [] ys s t = ground (arith, find-live q ys t)
    find-merged q ((k, v) ∷ xs) [] s t = ground (
      arith,
      find-keep q k v (merged xs []),
      find_above k k (merged xs []) (o.irrefl k),
      All-merged (λ j. k ≺ j) xs [] s.0,
      find-merged q xs [] s.1,
    )
    find-merged q ((k, v) ∷ xs) ((j, u) ∷ ys) s t = elim (Bool-cases (k <? j)) [
      | inl p ↦ rw p (
          ground (
            arith,
            find_head q k v (merged xs ((j, u) ∷ ys))
                (All-merged (λ i. k ≺ i) xs ((j, u) ∷ ys) s.0 (p, Above-trans k j ys p t.0)),
            find-merged q xs ((j, u) ∷ ys) s.1 t,
            find_above k k ((j, u) ∷ ys) (o.irrefl k) (p, Above-trans k j ys p t.0),
            eq_of_same k q,
          ))
      | inr n ↦ elim (Bool-cases (j <? k)) [
        | inl p ↦
            rw (n, p)
              (ground (
                arith,
                find_head q j u (merged ((k, v) ∷ xs) ys)
                    (All-merged (λ i. j ≺ i) ((k, v) ∷ xs) ys (p, Above-trans j k xs p s.0) t.0),
                find-merged q ((k, v) ∷ xs) ys s t.1,
              ))
        | inr m ↦
            rw (n, m)
              (ground (
                arith,
                find_head q j u (merged xs ys)
                    (All-merged (λ i. j ≺ i) xs ys (rw (o.tri j k m n) s.0) t.0),
                find-merged q xs ys s.1 t.1,
                o.tri j k m n,
              ))
      ]
    ]
