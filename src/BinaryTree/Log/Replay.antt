-- ===== src/BinaryTree/Log/Replay.antt =====
-- The loops of `fromFile` of rbtree.hpp: which entries of the log are replayed.
use cs.Prelude.{true, false, ◌≡◌, refl, ap, sym, ◌∙◌, List, [], ◌∷◌, ◌++◌, reverse, arith}
use mathlib.Core.List.{append_assoc, reverse-cons}
use cs.Order.{Ord}
use cs.Layout.{Layout, tomb}
use cs.Tree.{Tree, leaf, node}
use cs.Tree.Insert.{put, mark}
use cs.BinaryTree.{BinaryTree, Action, write, del, sync, LogEntry}
use cs.BinaryTree.Methods.{insert-root, delete-root}
use cs.BinaryTree.Log.{is_sync, rewind, dispatch, apply, replay}

abbrev pub NoSync {ℓ κ} : {K : Type ℓ} {V : Type κ} → List (LogEntry K V) → Type 0
NoSync [] = Unit {0}
NoSync (e ∷ es) = (is_sync e.act ≡ false) × NoSync es

module _ {ℓ κ} {K : Type ℓ} {V : Type κ} where
  reverse-cons-append :
      (e : LogEntry K V) (rs after : List (LogEntry K V))
      → reverse (e ∷ rs) ++ after ≡ reverse rs ++ (e ∷ after)
  reverse-cons-append e rs after =
      ap (λ l. l ++ after) (reverse-cons e rs) ∙ append_assoc (reverse rs) (e ∷ []) after

  NoSync-append : (es fs : List (LogEntry K V)) → NoSync es → NoSync fs → NoSync (es ++ fs)
  NoSync-append [] fs h g = g
  NoSync-append (e ∷ es) fs h g = (h.0, NoSync-append es fs h.1 g)

  pub NoSync-reverse : (es : List (LogEntry K V)) → NoSync es → NoSync (reverse es)
  NoSync-reverse [] h = tt
  NoSync-reverse (e ∷ es) h =
      rw (reverse-cons e es) (NoSync-append (reverse es) (e ∷ []) (NoSync-reverse es h.1) (h.0, tt))

  pub rewind_to_start :
      (rs after : List (LogEntry K V)) (buff : LogEntry K V)
      → NoSync rs
      → (rewind rs after buff).0 ≡ reverse rs ++ after
  unfolding rewind
  rewind_to_start [] after buff h = refl
  rewind_to_start (e ∷ rs) after buff h =
      rw h.0 (rewind_to_start rs (e ∷ after) e h.1 ∙ sym (reverse-cons-append e rs after))

  pub rewind_to_sync :
      (rs : List (LogEntry K V)) (s : LogEntry K V) (rest after : List (LogEntry K V))
      (buff : LogEntry K V)
      → NoSync rs
      → is_sync s.act ≡ true
      → rewind (rs ++ s ∷ rest) after buff ≡ (reverse rs ++ after, s)
  unfolding rewind
  rewind_to_sync [] s rest after buff h g = rw (g, rewind)
  rewind_to_sync (e ∷ rs) s rest after buff h g = rw h.0 (
      rewind_to_sync rs s rest (e ∷ after) e h.1 g
      ∙ ap (λ l. (l, s)) (sym (reverse-cons-append e rs after)))

module _ {ℓ κ} {K : Type ℓ} {V : Type κ} ⦃o : Ord K⦄ where
  put-put : (k : K) (v : V) (t : Tree K V) → put k v (put k v t) ≡ put k v t
  put-put k v leaf = ground (arith, o.irrefl k)
  put-put k v (node c w d l r) = ground (arith, put-put k v l, put-put k v r)

  mark-mark : (k : K) (g : V) (t : Tree K V) → mark k g (mark k g t) ≡ mark k g t
  mark-mark k g leaf = refl
  mark-mark k g (node c w d l r) = ground (arith, mark-mark k g l, mark-mark k g r)

module _ {ℓ κ} {K : Type ℓ} {V : Type κ} ⦃o : Ord K⦄ ⦃w : Layout V⦄ (unset : V) where
  -- The nodes after an entry, from the nodes before it.
  abbrev pub apply_root : LogEntry K V → Tree K V → Tree K V
  apply_root e t = elim e.act [ write ↦ put e.key e.value t | del ↦ mark e.key tomb t | sync ↦ t ]

  pub apply-root :
      (e : LogEntry K V) (t : BinaryTree K V) → (apply unset e t).root ≡ apply_root e t.root
  unfolding dispatch
  apply-root e t = go e.act
    where
      go :
          (a : Action)
          → (dispatch unset a e.key e.value t).root ≡ apply_root (record e { act = a }) t.root
      go write = insert-root t e.key e.value
      go del = delete-root unset t e.key
      go sync = refl

  apply_root_twice :
      (e : LogEntry K V) (t : Tree K V) → apply_root e (apply_root e t) ≡ apply_root e t
  apply_root_twice e t = ground (arith, put-put e.key e.value t, mark-mark e.key tomb t)

  -- The entries done once each, in order.
  abbrev pub apply_all : List (LogEntry K V) → Tree K V → Tree K V
  apply_all [] t = t
  apply_all (e ∷ es) t = apply_all es (apply_root e t)

  replay_after :
      (es : List (LogEntry K V)) (e : LogEntry K V) (t : BinaryTree K V) (u : Tree K V)
      → t.root ≡ apply_root e u
      → (replay unset es e t).root ≡ apply_all es t.root
  unfolding replay
  replay_after [] e t u h = apply-root e t ∙ ap (apply_root e) h ∙ apply_root_twice e u ∙ sym h
  replay_after (x ∷ es) e t u h =
      replay_after es x (apply unset x t) t.root (apply-root x t)
      ∙ ap (apply_all es) (apply-root x t)

  -- Over at least one entry the loop has the effect of each entry once: the entry that it does twice
  -- changes nothing the second time.
  pub replay-apply_all :
      (e : LogEntry K V) (es : List (LogEntry K V)) (buff : LogEntry K V) (t : BinaryTree K V)
      → (replay unset (e ∷ es) buff t).root ≡ apply_all (e ∷ es) t.root
  unfolding replay
  replay-apply_all e es buff t =
      replay_after es e (apply unset e t) t.root (apply-root e t)
      ∙ ap (apply_all es) (apply-root e t)
