-- ===== src/BinaryTree/Traversal.antt =====
-- What `dump`, `_inorder` and `_free` of rbtree.hpp promise.
use cs.Prelude.{
  ℕ, zero, suc, ◌<◌, true, false, ◌≡◌, refl, ap, sym, ◌∙◌, List, [], ◌∷◌, Option, none, some,
  length, length-append, arith,
}
use mathlib.Core.Path.{subst}
use mathlib.Core.List.{append-nil, Perm}
use mathlib.Core.Option
use cs.Order.{Ord}
use cs.Assoc.{find, IsSorted}
use cs.Level.{Level, level, entries_of, stamp_block}
use cs.Tree.{Tree, leaf, node, entries}
use cs.Tree.Order.{entries-IsSorted}
use cs.Tree.Lookup.{read-lookup, lookup-find}
use cs.Tree.Insert.{count}
use cs.Tree.Walk.{
  push_left, push_child, AllNodes, pending, push_left-AllNodes, pending-push_left,
  dump_loop-pending, held, held-push_child, push_child-AllNodes, free_loop-held,
}
use cs.BinaryTree.{BinaryTree, sync, log_action, dump, free, start_walk, inorder}
use cs.BinaryTree.Methods.{IsValid, get}

module _ {ℓ κ} {K : Type ℓ} {V : Type κ} where
  pub length-entries : (t : Tree K V) → length (entries t) ≡ count t
  unfolding entries
  length-entries leaf = refl
  length-entries (node k v del l r) =
      omega
        (arith, length-append (entries l) ((k, v) ∷ entries r), length-entries l, length-entries r)

  pending-root : (t : Tree K V) → pending (push_left t []) ≡ entries t
  unfolding pending
  pending-root t = pending-push_left t [] ∙ append-nil (entries t)

  -- `dump` ends; it writes the first block and the in-order run, and leaves the tree and its size as
  -- they were.
  pub dump-entries :
      (n : ℕ) (time : List ℕ) (dummy : K × V) (t : BinaryTree K V)
      → dump n time dummy t
        ≡ some (
          log_action (record t { traversal_started = false; stk = [] }) dummy.0 dummy.1 sync,
          level (stamp_block n time) (entries t.root),
        )
  unfolding dump
  dump-entries n time dummy t = rw (
    dump_loop-pending (suc (count t.root)) (push_left t.root []) []
        (push_left-AllNodes t.root [] tt)
        (omega (arith, ap length (pending-root t.root), length-entries t.root)),
    pending-root t.root,
    dump,
  )

  -- `_free` ends; it deletes every node exactly once, and leaves an empty tree with its log.
  pub free-perm :
      (t : BinaryTree K V)
      → (freed : List (K × V)) × (free t
          ≡ some (record t { size = 0; traversal_started = false; stk = []; root = leaf }, freed))
        × Perm freed (entries t.root)
  unfolding free
  free-perm t =
      let stk = push_child t.root [] in
      let e : held stk ≡ entries t.root = held-push_child t.root [] ∙ append-nil (entries t.root) in
      let (freed, ended, same_nodes) =
        free_loop-held (suc (count t.root)) stk [] (push_child-AllNodes t.root [] tt)
          (omega (arith, ap length e, length-entries t.root)) in
      (freed, rw (ended, free), subst (Perm freed) (append-nil (held stk) ∙ e) same_nodes)

  -- A client's loop: it calls `_inorder` until NULL comes back.
  unfoldable pub walk : ℕ → BinaryTree K V → Option (List (K × V) × BinaryTree K V)
  unfolding inorder
  walk zero t = none
  walk (suc f) t =
      let (t', next) = inorder t in
      elim next [ none ↦ some ([], t') | some e ↦ Option.map (λ r. (e ∷ r.0, r.1)) (walk f t') ]

  walk-pending :
      (f : ℕ) (t : BinaryTree K V) (stk : List (Tree K V))
      → AllNodes stk
      → length (pending stk) < f
      → walk f (record t { traversal_started = true; stk = stk })
        ≡ some (pending stk, record t { traversal_started = false; stk = [] })
  unfolding walk pending
  walk-pending zero t stk n h = absurd (omega arith)
  walk-pending (suc f) t [] n h = refl
  walk-pending (suc f) t (leaf ∷ stk) n h = absurd n
  walk-pending (suc f) t (node k v d l r ∷ stk) n h = rw (
    walk-pending f t (push_left r stk) (push_left-AllNodes r stk n)
        (rw (pending-push_left r stk) (omega arith)),
    pending-push_left r stk,
  )

  -- The loop after a call of `_inorder` with this result.
  abbrev after_step : ℕ → BinaryTree K V × Option (K × V) → Option (List (K × V) × BinaryTree K V)
  after_step f (t, next) = elim next [
    | none ↦ some ([], t)
    | some e ↦ Option.map (λ r. (e ∷ r.0, r.1)) (walk f t)
  ]

  inorder_idle :
      (t : BinaryTree K V)
      → t.traversal_started ≡ false
      → inorder t ≡ inorder (record t { traversal_started = true; stk = push_left t.root [] })
  unfolding inorder
  inorder_idle t idle = rw (idle, start_walk)

  -- On a tree with no walk under way, calls of `_inorder` give the in-order run one entry at a time,
  -- then NULL, and leave the tree ready for the next walk.
  pub walk-entries :
      (t : BinaryTree K V)
      → t.traversal_started ≡ false
      → walk (suc (count t.root)) t
        ≡ some (entries t.root, record t { traversal_started = false; stk = [] })
  unfolding walk
  walk-entries t idle =
      ap (after_step (count t.root)) (inorder_idle t idle)
      ∙ walk-pending (suc (count t.root)) t (push_left t.root []) (push_left-AllNodes t.root [] tt)
          (omega (arith, ap length (pending-root t.root), length-entries t.root))
      ∙ ap (λ es. some (es, record t { traversal_started = false; stk = [] })) (pending-root t.root)

module _ {ℓ κ} {K : Type ℓ} {V : Type κ} ⦃o : Ord K⦄ where
  -- A dump of a valid tree ends; the file has strictly increasing keys, a key is in it with the value
  -- that a search of the tree gives and no other, and the tree still holds every node.
  pub dump-find :
      (n : ℕ) (time : List ℕ) (dummy : K × V) (t : BinaryTree K V)
      → IsValid t
      → (t' : BinaryTree K V) × (file : Level K V) × (dump n time dummy t ≡ some (t', file))
        × IsSorted (entries_of file)
        × ((k : K) → find k (entries_of file) ≡ get k t)
        × (t'.root ≡ t.root)
  unfolding log_action
  dump-find n time dummy t h = (
    log_action (record t { traversal_started = false; stk = [] }) dummy.0 dummy.1 sync,
    level (stamp_block n time) (entries t.root),
    dump-entries n time dummy t,
    entries-IsSorted t.root h.ordered,
    (λ k. sym (read-lookup k t.root ∙ lookup-find k t.root h.ordered)),
    refl,
  )
