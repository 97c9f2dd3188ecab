-- ===== src/Tree.antt =====
-- The nodes of `BinaryTree` in include/RBTree/rbtree.hpp. No two nodes share a child, so a pointer
-- to a node is the path that leads to it from the root, and a write through it changes the node
-- where it stands. A NULL child is `leaf`.
pub mod Order
pub mod Lookup
pub mod Insert
pub mod Walk
use cs.Prelude.{ℕ, Bool, true, false, List, [], ◌∷◌, ◌++◌, Option, none, some, ◌||◌, if◌then◌else◌}
use cs.Order.{Ord, ◌<?◌, same}

-- `Node`: key, value, del, l, r.
pub data Tree {ℓ κ} (K : Type ℓ) (V : Type κ) : Type (ℓ ⊔ κ) where
  leaf : Tree K V
  node : K → V → ℕ → Tree K V → Tree K V → Tree K V

pub data Dir : Type 0 where
  left right : Dir

abbrev pub Ptr : Type 0
Ptr = List Dir

-- One turn of the loop of `_search` that goes to a child: it stays where the child is NULL.
abbrev pub step : Dir → Option Ptr → Option Ptr
step d none = some []
step d (some p) = some (d ∷ p)

module _ {ℓ κ} {K : Type ℓ} {V : Type κ} where
  -- `new Node<K,V>(k, v)`
  abbrev pub new_node : K → V → Tree K V
  new_node k v = node k v 0 leaf leaf

  -- `*p`, with everything below it
  unfoldable pub deref : Ptr → Tree K V → Tree K V
  deref [] t = t
  deref (d ∷ p) leaf = leaf
  deref (left ∷ p) (node k v del l r) = deref p l
  deref (right ∷ p) (node k v del l r) = deref p r

  -- a write to the node at `p`
  unfoldable pub modify : Ptr → (Tree K V → Tree K V) → Tree K V → Tree K V
  modify [] f t = f t
  modify (d ∷ p) f leaf = leaf
  modify (left ∷ p) f (node k v del l r) = node k v del (modify p f l) r
  modify (right ∷ p) f (node k v del l r) = node k v del l (modify p f r)

  -- `p->value`
  unfoldable pub value_of : Tree K V → Option V
  value_of leaf = none
  value_of (node k v del l r) = some v

module _ {ℓ κ} {K : Type ℓ} {V : Type κ} ⦃o : Ord K⦄ where
  -- `_search`: the node with the key, or else the node below which it would hang; NULL in an
  -- empty tree.
  unfoldable pub descend : K → Tree K V → Option Ptr
  descend k leaf = none
  descend k (node c v del l r) =
      if k <? c
      then step left (descend k l)
      else if c <? k
      then step right (descend k r)
      else some []

  -- `(n->key) < k || k < (n->key)`
  unfoldable pub differs : K → Tree K V → Bool
  differs k leaf = false
  differs k (node c v del l r) = (c <? k) || (k <? c)

  -- `search`
  unfoldable pub search_node : K → Tree K V → Option Ptr
  search_node k t = elim (descend k t) [
    | none ↦ none
    | some p ↦ if differs k (deref p t) then none else some p
  ]

  -- What `insert` writes to the node that `_search` gave.
  unfoldable pub attach : K → V → Tree K V → Tree K V
  attach k v leaf = leaf
  attach k v (node c w del l r) =
      if c <? k
      then node c w del l (new_node k v)
      else if k <? c
      then node c w del (new_node k v) r
      else node c v 0 l r

  -- What `del` writes: the mark, and the tombstone as the value.
  unfoldable pub bury : V → Tree K V → Tree K V
  bury grave leaf = leaf
  bury grave (node c w del l r) = node c grave 1 l r

-- The in-order run of keys and values.
unfoldable pub entries {ℓ κ} : {K : Type ℓ} {V : Type κ} → Tree K V → List (K × V)
entries leaf = []
entries (node k v del l r) = entries l ++ (k, v) ∷ entries r
