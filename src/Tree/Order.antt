-- ===== src/Tree/Order.antt =====
-- The search-tree invariant of rbtree.hpp, and what it gives of the in-order run.
use cs.Prelude.{◌∷◌}
use cs.Order.{Ord, ◌≺◌}
use cs.Assoc.{All, IsSorted, All-append, IsSorted-append}
use cs.Tree.{Tree, leaf, node, entries}

module _ {ℓ κ} {K : Type ℓ} {V : Type κ} where
  -- `P` holds of every key of the tree.
  abbrev pub AllKeys {μ} : (K → Type μ) → Tree K V → Type μ
  AllKeys P leaf = Unit
  AllKeys P (node k v del l r) = AllKeys P l × P k × AllKeys P r

  pub All-entries {μ} : (P : K → Type μ) (t : Tree K V) → AllKeys P t → All P (entries t)
  unfolding entries
  All-entries P leaf h = tt
  All-entries P (node k v del l r) h =
      All-append P (entries l) ((k, v) ∷ entries r) (All-entries P l h.0) (h.1, All-entries P r h.2)

module _ {ℓ κ} {K : Type ℓ} {V : Type κ} ⦃o : Ord K⦄ where
  -- Every key of a left subtree is below the node's, and every key of a right subtree above it.
  abbrev pub IsOrdered : Tree K V → Type 0
  IsOrdered leaf = Unit {0}
  IsOrdered (node k v del l r) =
      AllKeys (λ j. j ≺ k) l × AllKeys (λ j. k ≺ j) r × IsOrdered l × IsOrdered r

  -- The in-order run of an ordered tree has strictly increasing keys.
  pub entries-IsSorted : (t : Tree K V) → IsOrdered t → IsSorted (entries t)
  unfolding entries
  entries-IsSorted leaf h = tt
  entries-IsSorted (node k v del l r) h =
      IsSorted-append (entries l) k v (entries r) (entries-IsSorted l h.2)
        (All-entries (λ j. j ≺ k) l h.0) (All-entries (λ j. k ≺ j) r h.1, entries-IsSorted r h.3)
