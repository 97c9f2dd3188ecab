-- ===== src/Tree/Walk.antt =====
-- The loops of rbtree.hpp over the stack `stk` of node pointers: the in-order walk of `dump` and
-- `_inorder`, and the traversal of `_free`. Nothing writes to the tree during a walk, so a pointer on
-- the stack is the subtree that it points to.
use cs.Prelude.{
  ℕ, zero, suc, ◌<◌, ◌≡◌, refl, ap, sym, ◌∙◌, List, [], ◌∷◌, ◌++◌, Option, none, some, length,
  length-append, arith,
}
use mathlib.Core.Path.{subst}
use mathlib.Core.List.{append_assoc, append-nil}
use mathlib.Core.List.{Perm, perm_middle, perm_append_comm}
use mathlib.Core.List.Perm
use cs.Tree.{Tree, leaf, node, entries}

module _ {ℓ κ} {K : Type ℓ} {V : Type κ} where
  -- `while(n != NULL){ stk.push(n); n = n->l; }`
  unfoldable pub push_left : Tree K V → List (Tree K V) → List (Tree K V)
  push_left leaf stk = stk
  push_left (node k v del l r) stk = push_left l (node k v del l r ∷ stk)

  -- The loop of `dump`: it writes the top node and goes on to the leftmost node on its right.
  -- `none`: the fuel ran out, or NULL was dereferenced.
  unfoldable pub dump_loop : ℕ → List (Tree K V) → List (K × V) → Option (List (K × V))
  dump_loop zero stk out = none
  dump_loop (suc f) [] out = some out
  dump_loop (suc f) (leaf ∷ stk) out = none
  dump_loop (suc f) (node k v del l r ∷ stk) out =
      dump_loop f (push_left r stk) (out ++ (k, v) ∷ [])

  -- `if(p != NULL) stk.push(p)`
  abbrev pub push_child : Tree K V → List (Tree K V) → List (Tree K V)
  push_child leaf stk = stk
  push_child (node k v del l r) stk = node k v del l r ∷ stk

  -- The loop of `_free`; the result lists the nodes that it deletes.
  unfoldable pub free_loop : ℕ → List (Tree K V) → List (K × V) → Option (List (K × V))
  free_loop zero stk freed = none
  free_loop (suc f) [] freed = some freed
  free_loop (suc f) (leaf ∷ stk) freed = none
  free_loop (suc f) (node k v del l r ∷ stk) freed =
      free_loop f (push_child r (push_child l stk)) ((k, v) ∷ freed)

  -- No pointer on the stack is NULL.
  abbrev pub AllNodes : List (Tree K V) → Type 0
  AllNodes [] = Unit {0}
  AllNodes (leaf ∷ stk) = ⊥
  AllNodes (node k v del l r ∷ stk) = AllNodes stk

  -- What a walk with this stack still has to write.
  unfoldable pub pending : List (Tree K V) → List (K × V)
  pending [] = []
  pending (leaf ∷ stk) = pending stk
  pending (node k v del l r ∷ stk) = (k, v) ∷ (entries r ++ pending stk)

  pub push_left-AllNodes :
      (t : Tree K V) (stk : List (Tree K V)) → AllNodes stk → AllNodes (push_left t stk)
  unfolding push_left
  push_left-AllNodes leaf stk h = h
  push_left-AllNodes (node k v del l r) stk h = push_left-AllNodes l (node k v del l r ∷ stk) h

  pub pending-push_left :
      (t : Tree K V) (stk : List (Tree K V)) → pending (push_left t stk) ≡ entries t ++ pending stk
  unfolding push_left pending entries
  pending-push_left leaf stk = refl
  pending-push_left (node k v del l r) stk =
      pending-push_left l (node k v del l r ∷ stk)
      ∙ sym (append_assoc (entries l) ((k, v) ∷ entries r) (pending stk))

  -- From any stack, with fuel for what is pending, the loop of `dump` ends and has written it all.
  pub dump_loop-pending :
      (f : ℕ) (stk : List (Tree K V)) (out : List (K × V))
      → AllNodes stk
      → length (pending stk) < f
      → dump_loop f stk out ≡ some (out ++ pending stk)
  unfolding dump_loop pending
  dump_loop-pending zero stk out n h = absurd (omega arith)
  dump_loop-pending (suc f) [] out n h = rw append-nil
  dump_loop-pending (suc f) (leaf ∷ stk) out n h = absurd n
  dump_loop-pending (suc f) (node k v del l r ∷ stk) out n h =
      dump_loop-pending f (push_left r stk) (out ++ (k, v) ∷ []) (push_left-AllNodes r stk n)
        (rw (pending-push_left r stk) (omega arith))
      ∙ rw (pending-push_left r stk) (rw (append_assoc))

  -- What a `_free` with this stack still has to delete.
  abbrev pub held : List (Tree K V) → List (K × V)
  held [] = []
  held (t ∷ stk) = entries t ++ held stk

  pub held-push_child :
      (t : Tree K V) (stk : List (Tree K V)) → held (push_child t stk) ≡ entries t ++ held stk
  unfolding entries
  held-push_child leaf stk = refl
  held-push_child (node k v del l r) stk = refl

  pub push_child-AllNodes :
      (t : Tree K V) (stk : List (Tree K V)) → AllNodes stk → AllNodes (push_child t stk)
  push_child-AllNodes leaf stk h = h
  push_child-AllNodes (node k v del l r) stk h = h

  -- The nodes of a popped node's subtree, in the two orders in which they are counted.
  regroup_perm :
      (e : K × V) (ls rs hs fs : List (K × V))
      → Perm ((rs ++ (ls ++ hs)) ++ e ∷ fs) (((ls ++ e ∷ rs) ++ hs) ++ fs)
  regroup_perm e ls rs hs fs = Perm.trans (perm_middle (rs ++ (ls ++ hs)) fs) (
      Perm.trans
        (Perm.cons e (
          rw (← append_assoc rs ls hs)
            (Perm.append_right fs (Perm.append_right hs (perm_append_comm rs ls)))))
        (Perm.symm (Perm.append_right fs (Perm.append_right hs (perm_middle ls rs)))))

  pub free_loop-held :
      (f : ℕ) (stk : List (Tree K V)) (freed : List (K × V))
      → AllNodes stk
      → length (held stk) < f
      → (out : List (K × V)) × (free_loop f stk freed ≡ some out) × Perm out (held stk ++ freed)
  unfolding free_loop entries
  free_loop-held zero stk freed n h = absurd (omega arith)
  free_loop-held (suc f) [] freed n h = (freed, refl, Perm.refl freed)
  free_loop-held (suc f) (leaf ∷ stk) freed n h = absurd n
  free_loop-held (suc f) (node k v del l r ∷ stk) freed n h =
      let children = push_child r (push_child l stk) in
      let e : held children ≡ entries r ++ (entries l ++ held stk) =
        held-push_child r (push_child l stk) ∙ rw (held-push_child l stk) in
      let (out, ended, same_nodes) =
        free_loop-held f children ((k, v) ∷ freed)
          (push_child-AllNodes r (push_child l stk) (push_child-AllNodes l stk n))
          (omega (
            arith,
            ap length e,
            length-append (entries r) (entries l ++ held stk),
            length-append (entries l) (held stk),
            h,
            length-append (entries l ++ (k, v) ∷ entries r) (held stk),
            length-append (entries l) ((k, v) ∷ entries r),
          )) in
      (
        out,
        ended,
        Perm.trans (subst (λ x. Perm out (x ++ (k, v) ∷ freed)) e same_nodes)
            (regroup_perm (k, v) (entries l) (entries r) (held stk) freed),
      )
