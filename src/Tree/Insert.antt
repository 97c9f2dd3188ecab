-- ===== src/Tree/Insert.antt =====
-- What the writes of `insert` and `del` of rbtree.hpp do to the nodes.
use cs.Prelude.{ℕ, suc, ◌+◌, true, false, ◌≡◌, refl, Option, none, some, if◌then◌else◌, arith}
use mathlib.Core.Option
use cs.Order.{Ord, ◌<?◌, ◌≺◌, same, eq_of_same, lt_asymm}
use cs.Tree.{Tree, leaf, node, new_node, deref, modify, descend, differs, search_node, attach, bury}
use cs.Tree.Order.{AllKeys, IsOrdered}
use cs.Tree.Lookup.{lookup, descend-none}

-- 1 for a hit and 0 for a miss.
abbrev pub found {κ} : {V : Type κ} → Option V → ℕ
found none = 0
found (some _) = 1

module _ {ℓ κ} {K : Type ℓ} {V : Type κ} where
  -- The number of nodes.
  abbrev pub count : Tree K V → ℕ
  count leaf = 0
  count (node k v del l r) = suc (count l + count r)

module _ {ℓ κ} {K : Type ℓ} {V : Type κ} ⦃o : Ord K⦄ where
  -- Insertion by recursion on the tree.
  abbrev pub put : K → V → Tree K V → Tree K V
  put k v leaf = new_node k v
  put k v (node c w del l r) =
      if k <? c
      then node c w del (put k v l) r
      else if c <? k
      then node c w del l (put k v r)
      else node c v 0 l r

  -- The search and the write through its pointer.
  abbrev pub insert_node : K → V → Tree K V → Tree K V
  insert_node k v t = elim (descend k t) [ none ↦ new_node k v | some p ↦ modify p (attach k v) t ]

  pub insert_node-put : (k : K) (v : V) (t : Tree K V) → insert_node k v t ≡ put k v t
  unfolding descend modify attach
  insert_node-put k v leaf = refl
  insert_node-put k v (node c w del l r) = ground (
    arith,
    descend-none k l,
    descend-none k r,
    insert_node-put k v l,
    insert_node-put k v r,
    lt_asymm k c,
  )

  lookup-put_at : (k j : K) (v : V) (t : Tree K V) → same j k ≡ true → lookup j (put k v t) ≡ some v
  lookup-put_at k j v leaf e = ground (arith)
  lookup-put_at k j v (node c w del l r) e =
      ground (arith, eq_of_same j k e, lookup-put_at k j v l e, lookup-put_at k j v r e)

  lookup-put_off :
      (k j : K) (v : V) (t : Tree K V) → same j k ≡ false → lookup j (put k v t) ≡ lookup j t
  lookup-put_off k j v leaf e = ground (arith)
  lookup-put_off k j v (node c w del l r) e =
      ground (arith, o.tri j c, o.tri k c, lookup-put_off k j v l e, lookup-put_off k j v r e)

  pub lookup-put :
      (k j : K) (v : V) (t : Tree K V)
      → lookup j (put k v t) ≡ (if same j k then some v else lookup j t)
  lookup-put k j v t = ground (arith, lookup-put_at k j v t, lookup-put_off k j v t)

  AllKeys-put {μ} :
      (P : K → Type μ) (k : K) (v : V) (t : Tree K V) → P k → AllKeys P t → AllKeys P (put k v t)
  AllKeys-put P k v leaf p h = (tt, p, tt)
  AllKeys-put P k v (node c w del l r) p h =
      ground (arith, AllKeys-put P k v l, AllKeys-put P k v r)

  pub put-IsOrdered : (k : K) (v : V) (t : Tree K V) → IsOrdered t → IsOrdered (put k v t)
  put-IsOrdered k v leaf h = (tt, tt, tt, tt)
  put-IsOrdered k v (node c w del l r) h = ground (
    arith,
    put-IsOrdered k v l,
    put-IsOrdered k v r,
    AllKeys-put (λ j. j ≺ c) k v l,
    AllKeys-put (λ j. c ≺ j) k v r,
  )

  pub count-put :
      (k : K) (v : V) (t : Tree K V) → count (put k v t) + found (lookup k t) ≡ count t + 1
  count-put k v leaf = refl
  count-put k v (node c w del l r) = ground (arith, count-put k v l, count-put k v r)

  -- The mark of `del`, by recursion on the tree.
  abbrev pub mark : K → V → Tree K V → Tree K V
  mark k grave leaf = leaf
  mark k grave (node c w del l r) =
      if k <? c
      then node c w del (mark k grave l) r
      else if c <? k
      then node c w del l (mark k grave r)
      else node c grave 1 l r

  -- The search of `del` and its write through the pointer.
  abbrev pub bury_node : K → V → Tree K V → Tree K V
  bury_node k grave t = elim (search_node k t) [ none ↦ t | some p ↦ modify p (bury grave) t ]

  pub bury_node-mark : (k : K) (grave : V) (t : Tree K V) → bury_node k grave t ≡ mark k grave t
  unfolding descend modify bury search_node deref differs
  bury_node-mark k grave leaf = refl
  bury_node-mark k grave (node c w del l r) = ground (
    arith,
    descend-none k l,
    descend-none k r,
    bury_node-mark k grave l,
    bury_node-mark k grave r,
    lt_asymm k c,
  )

  lookup-mark_at :
      (k j : K) (grave : V) (t : Tree K V)
      → same j k ≡ true
      → lookup j (mark k grave t) ≡ Option.map (λ _. grave) (lookup j t)
  lookup-mark_at k j grave leaf e = refl
  lookup-mark_at k j grave (node c w del l r) e =
      ground (arith, eq_of_same j k e, lookup-mark_at k j grave l e, lookup-mark_at k j grave r e)

  lookup-mark_off :
      (k j : K) (grave : V) (t : Tree K V)
      → same j k ≡ false
      → lookup j (mark k grave t) ≡ lookup j t
  lookup-mark_off k j grave leaf e = refl
  lookup-mark_off k j grave (node c w del l r) e =
      ground
        (arith, o.tri j c, o.tri k c, lookup-mark_off k j grave l e, lookup-mark_off k j grave r e)

  pub lookup-mark :
      (k j : K) (grave : V) (t : Tree K V)
      → lookup j (mark k grave t)
        ≡ (if same j k then Option.map (λ _. grave) (lookup j t) else lookup j t)
  lookup-mark k j grave t = ground (arith, lookup-mark_at k j grave t, lookup-mark_off k j grave t)

  AllKeys-mark {μ} :
      (P : K → Type μ) (k : K) (grave : V) (t : Tree K V) → AllKeys P t → AllKeys P (mark k grave t)
  AllKeys-mark P k grave leaf h = tt
  AllKeys-mark P k grave (node c w del l r) h =
      ground (arith, AllKeys-mark P k grave l, AllKeys-mark P k grave r)

  pub mark-IsOrdered : (k : K) (grave : V) (t : Tree K V) → IsOrdered t → IsOrdered (mark k grave t)
  mark-IsOrdered k grave leaf h = tt
  mark-IsOrdered k grave (node c w del l r) h = ground (
    arith,
    mark-IsOrdered k grave l,
    mark-IsOrdered k grave r,
    AllKeys-mark (λ j. j ≺ c) k grave l,
    AllKeys-mark (λ j. c ≺ j) k grave r,
  )

  pub count-mark : (k : K) (grave : V) (t : Tree K V) → count (mark k grave t) ≡ count t
  count-mark k grave leaf = refl
  count-mark k grave (node c w del l r) = ground (arith, count-mark k grave l, count-mark k grave r)
