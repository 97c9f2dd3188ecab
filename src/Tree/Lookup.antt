-- ===== src/Tree/Lookup.antt =====
-- What `search` of rbtree.hpp finds: the walk by pointers against a recursive lookup, and that
-- against the in-order run.
use cs.Prelude.{◌≡◌, refl, ◌∷◌, Option, none, some, if◌then◌else◌, arith}
use cs.Order.{Ord, ◌<?◌, ◌≺◌, lt_asymm}
use cs.Assoc.{find, find_above, find_below, find-append}
use cs.Tree.{Tree, leaf, node, deref, value_of, descend, differs, search_node, entries}
use cs.Tree.Order.{IsOrdered, All-entries}

module _ {ℓ κ} {K : Type ℓ} {V : Type κ} ⦃o : Ord K⦄ where
  -- The search by recursion on the tree.
  abbrev pub lookup : K → Tree K V → Option V
  lookup k leaf = none
  lookup k (node c v del l r) = if k <? c then lookup k l else if c <? k then lookup k r else some v

  -- `search` and the read of `n->value` after it.
  unfoldable pub read : K → Tree K V → Option V
  read k t = elim (search_node k t) [ none ↦ none | some p ↦ value_of (deref p t) ]

  pub descend-none : (k : K) (t : Tree K V) → descend k t ≡ none → t ≡ leaf
  unfolding descend
  descend-none k leaf h = refl
  descend-none k (node c v del l r) h = ground arith

  -- The walk of `search` along pointers gives the value that the recursive lookup gives, in every
  -- tree, ordered or not.
  pub read-lookup : (k : K) (t : Tree K V) → read k t ≡ lookup k t
  unfolding read search_node descend deref differs value_of
  read-lookup k leaf = refl
  read-lookup k (node c v del l r) =
      ground (arith, descend-none k l, descend-none k r, read-lookup k l, read-lookup k r)

  -- In an ordered tree the lookup is the search in the in-order run.
  pub lookup-find : (k : K) (t : Tree K V) → IsOrdered t → lookup k t ≡ find k (entries t)
  unfolding entries
  lookup-find k leaf h = refl
  lookup-find k (node c v del l r) h = ground (
    arith,
    find-append k (entries l) ((c, v) ∷ entries r),
    lookup-find k l h.2,
    lookup-find k r h.3,
    find_below k c (entries l),
    find_above k c (entries r),
    All-entries (λ j. j ≺ c) l h.0,
    All-entries (λ j. c ≺ j) r h.1,
    lt_asymm k c,
    lt_asymm c k,
    o.tri c k,
  )
