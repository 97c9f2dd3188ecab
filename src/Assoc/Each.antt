-- ===== src/Assoc/Each.antt =====
-- A property of every entry of a run, and of every node of a tree.
use cs.Prelude.{List, [], ◌∷◌, ◌++◌, arith}
use cs.Order.{Ord}
use cs.Layout.{Layout}
use cs.Tree.{Tree, leaf, node, entries}
use cs.Tree.Insert.{put, mark}
use cs.Merge.Reference.{keep, live, merged}

module _ {ℓ κ μ} {K : Type ℓ} {V : Type κ} (P : K × V → Type μ) where
  abbrev pub Each : List (K × V) → Type μ
  Each [] = Unit
  Each (e ∷ es) = P e × Each es

  Each-append : (es fs : List (K × V)) → Each es → Each fs → Each (es ++ fs)
  Each-append [] fs h g = g
  Each-append (e ∷ es) fs h g = (h.0, Each-append es fs h.1 g)

  abbrev pub EachNode : Tree K V → Type μ
  EachNode leaf = Unit
  EachNode (node k v d l r) = EachNode l × P (k, v) × EachNode r

  pub Each-entries : (t : Tree K V) → EachNode t → Each (entries t)
  unfolding entries
  Each-entries leaf h = tt
  Each-entries (node k v d l r) h =
      Each-append (entries l) ((k, v) ∷ entries r) (Each-entries l h.0) (h.1, Each-entries r h.2)

  pub put-EachNode :
      ⦃o : Ord K⦄ (k : K) (v : V) (t : Tree K V) → P (k, v) → EachNode t → EachNode (put k v t)
  put-EachNode k v leaf p h = (tt, p, tt)
  put-EachNode ⦃o⦄ k v (node c w d l r) p h =
      ground (arith, put-EachNode ⦃o = o⦄ k v l p h.0, put-EachNode ⦃o = o⦄ k v r p h.2, o.tri k c)

  -- A property of every node that does not depend on the value that `del` overwrites.
  pub mark-EachNode :
      ⦃o : Ord K⦄ (k : K) (grave : V) (t : Tree K V)
      → ((j : K) (v : V) → P (j, v) → P (j, grave))
      → EachNode t
      → EachNode (mark k grave t)
  mark-EachNode k grave leaf p h = tt
  mark-EachNode ⦃o⦄ k grave (node c w d l r) p h = ground (
    arith,
    mark-EachNode ⦃o = o⦄ k grave l p h.0,
    mark-EachNode ⦃o = o⦄ k grave r p h.2,
    p c w h.1,
  )

  module _ ⦃w : Layout V⦄ where
    Each-keep : (k : K) (v : V) (es : List (K × V)) → P (k, v) → Each es → Each (keep (k, v) es)
    Each-keep k v es p h = ground arith

    Each-live : (es : List (K × V)) → Each es → Each (live es)
    Each-live [] h = tt
    Each-live ((k, v) ∷ es) h = Each-keep k v (live es) h.0 (Each-live es h.1)

    module _ ⦃o : Ord K⦄ where
      pub Each-merged : (xs ys : List (K × V)) → Each xs → Each ys → Each (merged xs ys)
      Each-merged [] ys h g = Each-live ys g
      Each-merged ((k, v) ∷ xs) [] h g = Each-keep k v (merged xs []) h.0 (Each-merged xs [] h.1 g)
      Each-merged ((k, v) ∷ xs) ((j, u) ∷ ys) h g = ground (
        arith,
        Each-keep k v (merged xs ((j, u) ∷ ys)) h.0 (Each-merged xs ((j, u) ∷ ys) h.1 g),
        Each-keep j u (merged ((k, v) ∷ xs) ys) g.0 (Each-merged ((k, v) ∷ xs) ys h g.1),
        Each-keep j u (merged xs ys) g.0 (Each-merged xs ys h.1 g.1),
      )
