-- ===== src/BinaryTree/Log/Words.antt =====
-- What the entries of a log have, the nodes that `fromFile` of rbtree.hpp makes of it have too.
use cs.Prelude.{List, [], ◌∷◌, ◌++◌, reverse, Bool-cases, inl, inr}
use mathlib.Core.List.{reverse-cons}
use cs.Order.{Ord}
use cs.Layout.{Layout, tomb}
use cs.Assoc.Each.{EachNode, put-EachNode, mark-EachNode}
use cs.BinaryTree.{BinaryTree, Action, write, del, sync, LogEntry}
use cs.BinaryTree.Methods.{insert-root, delete-root}
use cs.BinaryTree.Log.{is_sync, rewind, dispatch, apply, replay, restore_into}

module _ {ℓ κ μ} {K : Type ℓ} {V : Type κ} (P : K × V → Type μ) where
  abbrev pub EachLogged : List (LogEntry K V) → Type μ
  EachLogged [] = Unit
  EachLogged (e ∷ es) = P (e.key, e.value) × EachLogged es

  EachLogged-append :
      (es fs : List (LogEntry K V)) → EachLogged es → EachLogged fs → EachLogged (es ++ fs)
  EachLogged-append [] fs h g = g
  EachLogged-append (e ∷ es) fs h g = (h.0, EachLogged-append es fs h.1 g)

  EachLogged-reverse : (es : List (LogEntry K V)) → EachLogged es → EachLogged (reverse es)
  EachLogged-reverse [] h = tt
  EachLogged-reverse (e ∷ es) h =
      rw (reverse-cons e es)
        (EachLogged-append (reverse es) (e ∷ []) (EachLogged-reverse es h.1) (h.0, tt))

  rewind-EachLogged :
      (before after : List (LogEntry K V)) (buff : LogEntry K V)
      → EachLogged before
      → EachLogged after
      → P (buff.key, buff.value)
      → EachLogged (rewind before after buff).0
        × P ((rewind before after buff).1.key, (rewind before after buff).1.value)
  unfolding rewind
  rewind-EachLogged [] after buff h g p = (g, p)
  rewind-EachLogged (e ∷ before) after buff h g p = elim (Bool-cases (is_sync e.act)) [
    | inl s ↦ rw (s, rewind) (g, h.0)
    | inr n ↦ rw (n, rewind) (rewind-EachLogged before (e ∷ after) e h.1 (h.0, g) h.0)
  ]

  module _ ⦃o : Ord K⦄ ⦃w : Layout V⦄ (unset : V)
      (grave : (j : K) (v : V) → P (j, v) → P (j, tomb)) where
    dispatch-EachNode :
        (act : Action) (k : K) (v : V) (t : BinaryTree K V)
        → P (k, v)
        → EachNode P t.root
        → EachNode P (dispatch unset act k v t).root
    unfolding dispatch
    dispatch-EachNode write k v t p h = rw (insert-root t k v) (put-EachNode P k v t.root p h)
    dispatch-EachNode del k v t p h =
        rw (delete-root unset t k) (mark-EachNode P k tomb t.root grave h)
    dispatch-EachNode sync k v t p h = h

    replay-EachNode :
        (es : List (LogEntry K V)) (buff : LogEntry K V) (t : BinaryTree K V)
        → EachLogged es
        → P (buff.key, buff.value)
        → EachNode P t.root
        → EachNode P (replay unset es buff t).root
    unfolding replay
    replay-EachNode [] buff t h p g = dispatch-EachNode buff.act buff.key buff.value t p g
    replay-EachNode (e ∷ es) buff t h p g =
        replay-EachNode es e (apply unset e t) h.1 h.0
          (dispatch-EachNode e.act e.key e.value t h.0 g)

    pub restore_into-EachNode :
        (es : List (LogEntry K V)) (buff : LogEntry K V) (t : BinaryTree K V)
        → EachLogged es
        → P (buff.key, buff.value)
        → EachNode P t.root
        → EachNode P (restore_into unset es buff t).root
    unfolding restore_into
    restore_into-EachNode [] buff t h p g = g
    restore_into-EachNode (e ∷ es) buff t h p g =
        let (rest, last) =
          rewind-EachLogged (reverse (e ∷ es)) [] buff (EachLogged-reverse (e ∷ es) h) tt p in
        let r = rewind (reverse (e ∷ es)) [] buff in replay-EachNode r.0 r.1 t rest last g
