-- ===== src/BinaryTree/Methods.antt =====
-- What `insert`, `del` and `search` of rbtree.hpp promise: an in-memory map from keys to values,
-- its node count, and one log entry for each write.
use mathlib.Core.Option
use cs.Prelude.{
  ℕ, ◌+◌, true, false, ◌≡◌, refl, ◌∙◌, sym, ◌≢◌, List, Option, none, some, if◌then◌else◌, arith,
  Option-cases, inl, inr,
}
use cs.Order.{Ord, same, lt_asymm}
use cs.Layout.{Layout, tomb}
use cs.Tree.{Tree, leaf, node, Dir, value_of, deref, descend, search_node}
use cs.Tree.Order.{IsOrdered}
use cs.Tree.Lookup.{read, lookup, read-lookup, descend-none}
use cs.Tree.Insert.{
  count, found, put, insert_node-put, lookup-put, put-IsOrdered, count-put, mark, bury_node-mark,
  lookup-mark, mark-IsOrdered, count-mark,
}
use cs.BinaryTree.{BinaryTree, write, del, append_log, grows, insert, delete}

module _ {ℓ κ} {K : Type ℓ} {V : Type κ} ⦃o : Ord K⦄ where
  -- The nodes form a search tree, and `size` counts them.
  pub record IsValid (t : BinaryTree K V) : Type 0 where
    pub ordered : IsOrdered t.root
    pub counted : t.size ≡ count t.root

  -- `search(k)` and the value of the node that it found.
  abbrev pub get : K → BinaryTree K V → Option V
  get k t = read k t.root

  pub insert-root : (t : BinaryTree K V) (k : K) (v : V) → (insert t k v).root ≡ put k v t.root
  unfolding insert
  insert-root t k v = elim (Option-cases (descend k t.root)) [
    | inl e ↦ ground (arith, insert_node-put k v t.root)
    | inr (p, e) ↦ ground (arith, insert_node-put k v t.root)
  ]

  -- A node is hung exactly when the walk missed the key.
  grows-found :
      (k : K) (t : Tree K V)
      → elim (descend k t) as (λ _. ℕ) [ none ↦ 1 | some p ↦ grows k (deref p t) ]
          + found (lookup k t)
        ≡ 1
  unfolding descend deref
  grows-found k leaf = refl
  grows-found k (node c w d l r) =
      ground
        (arith, descend-none k l, descend-none k r, grows-found k l, grows-found k r, lt_asymm k c)

  pub insert-size :
      (t : BinaryTree K V) (k : K) (v : V)
      → (insert t k v).size + found (lookup k t.root) ≡ t.size + 1
  unfolding insert
  insert-size t k v = ground (arith, grows-found k t.root)

  -- `insert` keeps the search tree and the count of its nodes.
  pub insert-IsValid : (t : BinaryTree K V) (k : K) (v : V) → IsValid t → IsValid (insert t k v)
  insert-IsValid t k v h = record {
    ordered = rw (insert-root t k v) (put-IsOrdered k v t.root h.ordered);
    counted =
        rw (insert-root t k v) (omega (arith, insert-size t k v, count-put k v t.root, h.counted));
  }

  -- After `insert(k, v)` a search for `k` gives `v`, and one for any other key gives what it gave
  -- before.
  pub get-insert :
      (t : BinaryTree K V) (k j : K) (v : V)
      → get j (insert t k v) ≡ (if same j k then some v else get j t)
  get-insert t k j v = rw (insert-root t k v) (simp read-lookup (lookup-put k j v t.root))

  -- Every `insert` appends its entry to the open log, on each of its paths.
  pub insert-log :
      (t : BinaryTree K V) (k : K) (v : V)
      → (insert t k v).logfile ≡ append_log t.logfile (record { act = write; key = k; value = v })
  unfolding insert append_log
  insert-log t k v = ground arith

module _ {ℓ κ} {K : Type ℓ} {V : Type κ} ⦃o : Ord K⦄ ⦃w : Layout V⦄ where
  pub delete-root :
      (unset : V) (t : BinaryTree K V) (k : K) → (delete unset t k).0.root ≡ mark k tomb t.root
  unfolding delete
  delete-root unset t k = elim (Option-cases (search_node k t.root)) [
    | inl e ↦ ground (arith, bury_node-mark k tomb t.root)
    | inr (p, e) ↦ ground (arith, bury_node-mark k tomb t.root)
  ]

  -- `del(k)` leaves the tombstone at `k` if the key is there, and every other key as it was.
  pub get-delete :
      (unset : V) (t : BinaryTree K V) (k j : K)
      → get j (delete unset t k).0
        ≡ (if same j k then Option.map (λ _. tomb) (get j t) else get j t)
  get-delete unset t k j =
      rw (delete-root unset t k) (simp read-lookup (lookup-mark k j tomb t.root))

  -- `_search` never stops at NULL in a tree that has a node.
  descend_value :
      (k : K) (t : Tree K V) (p : List Dir) → descend k t ≡ some p → value_of (deref p t) ≢ none
  unfolding descend deref value_of
  descend_value k leaf p h = cc
  descend_value k (node c w' d l r) p h = elim (Option-cases (descend k l)) [
    | inl el ↦ elim (Option-cases (descend k r)) [
      | inl er ↦ ground arith
      | inr (q, er) ↦ ground (arith, descend_value k r q er)
    ]
    | inr (q, el) ↦ elim (Option-cases (descend k r)) [
      | inl er ↦ ground (arith, descend_value k l q el)
      | inr (q', er) ↦ ground (arith, descend_value k l q el, descend_value k r q' er)
    ]
  ]

  search_node-none : (k : K) (t : Tree K V) → read k t ≡ none → search_node k t ≡ none
  unfolding read search_node
  search_node-none k t h = elim (Option-cases (descend k t)) [
    | inl e ↦ ground arith
    | inr (p, e) ↦ ground (arith, descend_value k t p e)
  ]

  -- On a key that is not there `del` returns -1, and changes neither the tree nor the log.
  pub delete_missing :
      (unset : V) (t : BinaryTree K V) (k : K) → get k t ≡ none → delete unset t k ≡ (t, false)
  unfolding delete
  delete_missing unset t k h = ground (arith, search_node-none k t.root)

  -- On a key that is there `del` returns 0, keeps the number of nodes, and appends its entry to the
  -- log.
  pub delete_present :
      (unset : V) (t : BinaryTree K V) (k : K) {v : V}
      → get k t ≡ some v
      → ((delete unset t k).1 ≡ true)
        × ((delete unset t k).0.size ≡ t.size)
        × ((delete unset t k).0.logfile
            ≡ append_log t.logfile (record { act = del; key = k; value = unset }))
  unfolding delete read append_log
  delete_present unset t k h = ground arith

  pub delete-size : (unset : V) (t : BinaryTree K V) (k : K) → (delete unset t k).0.size ≡ t.size
  unfolding delete
  delete-size unset t k = ground arith

  -- `del` keeps the search tree and the count of its nodes.
  pub delete-IsValid :
      (unset : V) (t : BinaryTree K V) (k : K) → IsValid t → IsValid (delete unset t k).0
  delete-IsValid unset t k h = record {
    ordered = rw (delete-root unset t k) (mark-IsOrdered k tomb t.root h.ordered);
    counted =
        rw (delete-root unset t k)
          (delete-size unset t k ∙ h.counted ∙ sym (count-mark k tomb t.root));
  }
