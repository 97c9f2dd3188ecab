-- ===== src/BinaryTree/Log/Recovery.antt =====
-- Recovery of the in-memory table from its log, by `fromFile` of rbtree.hpp.
use cs.Prelude.{
  true, false, ◌≡◌, refl, ap, sym, ◌∙◌, List, [], ◌∷◌, ◌++◌, some, reverse, arith, Option-cases,
  inl, inr,
}
use mathlib.Core.Path.{subst}
use mathlib.Core.List.{append_assoc, reverse-append, reverse-reverse, reverse-cons, append-nil}
use cs.Order.{Ord}
use cs.Layout.{Layout}
use cs.Tree.{leaf}
use cs.BinaryTree.{
  BinaryTree, Action, write, del, sync, LogEntry, new_tree, insert, delete, append_log,
}
use cs.BinaryTree.Methods.{
  IsValid, get, insert-root, delete-root, insert-IsValid, delete-IsValid, insert-log,
  delete_missing, delete_present,
}
use cs.BinaryTree.Traversal.{free-perm}
use cs.BinaryTree.Log.{is_sync, rewind, dispatch, apply, replay, restore_into, from_file}
use cs.BinaryTree.Log.Replay.{
  NoSync, NoSync-reverse, rewind_to_start, rewind_to_sync, apply_root, apply_all, replay-apply_all,
}

-- The calls `insert` and `del` of the table.
pub data Op {ℓ κ} (K : Type ℓ) (V : Type κ) : Type (ℓ ⊔ κ) where
  put : K → V → Op K V
  remove : K → Op K V

module _ {ℓ κ} {K : Type ℓ} {V : Type κ} ⦃o : Ord K⦄ ⦃w : Layout V⦄ (unset : V) where
  unfoldable pub run : List (Op K V) → BinaryTree K V → BinaryTree K V
  run [] t = t
  run (put k v ∷ ops) t = run ops (insert t k v)
  run (remove k ∷ ops) t = run ops (delete unset t k).0

  dispatch-IsValid :
      (a : Action) (k : K) (v : V) (t : BinaryTree K V)
      → IsValid t
      → IsValid (dispatch unset a k v t)
  unfolding dispatch
  dispatch-IsValid write k v t h = insert-IsValid t k v h
  dispatch-IsValid del k v t h = delete-IsValid unset t k h
  dispatch-IsValid sync k v t h = h

  replay-IsValid :
      (es : List (LogEntry K V)) (buff : LogEntry K V) (t : BinaryTree K V)
      → IsValid t
      → IsValid (replay unset es buff t)
  unfolding replay
  replay-IsValid [] e t h = dispatch-IsValid e.act e.key e.value t h
  replay-IsValid (e ∷ es) buff t h =
      replay-IsValid es e (apply unset e t) (dispatch-IsValid e.act e.key e.value t h)

  restore_into-root :
      (es : List (LogEntry K V)) (buff : LogEntry K V) (t : BinaryTree K V)
      → NoSync es
      → (restore_into unset es buff t).root ≡ apply_all unset es t.root
  unfolding restore_into
  restore_into-root [] buff t h = refl
  restore_into-root (e ∷ es) buff t h =
      let r = rewind (reverse (e ∷ es)) [] buff in
      let all : r.0 ≡ e ∷ es =
        rewind_to_start (reverse (e ∷ es)) [] buff (NoSync-reverse (e ∷ es) h)
        ∙ append-nil (reverse (reverse (e ∷ es)))
        ∙ reverse-reverse (e ∷ es) in
      ap (λ l. (replay unset l r.1 t).root) all ∙ replay-apply_all unset e es r.1 t

  pub restore_into-IsValid :
      (es : List (LogEntry K V)) (buff : LogEntry K V) (t : BinaryTree K V)
      → IsValid t
      → IsValid (restore_into unset es buff t)
  unfolding restore_into
  restore_into-IsValid [] buff t h = h
  restore_into-IsValid (e ∷ es) buff t h =
      let r = rewind (reverse (e ∷ es)) [] buff in replay-IsValid r.0 r.1 t h

  -- The walk back stops at the last sync entry, so what stands before it is not replayed.
  rewind_found :
      (pre : List (LogEntry K V)) (s : LogEntry K V) (es : List (LogEntry K V))
      (buff : LogEntry K V)
      → NoSync es
      → is_sync s.act ≡ true
      → rewind (reverse (pre ++ s ∷ es)) [] buff ≡ (es, s)
  rewind_found pre s es buff h g =
      ap (λ l. rewind l [] buff)
        (reverse-append pre (s ∷ es)
          ∙ ap (λ l. l ++ reverse pre) (reverse-cons s es)
          ∙ append_assoc (reverse es) (s ∷ []) (reverse pre))
      ∙ rewind_to_sync (reverse es) s (reverse pre) [] buff (NoSync-reverse es h) g
      ∙ ap (λ l. (l, s)) (append-nil (reverse (reverse es)) ∙ reverse-reverse es)

  restore_into-rewind :
      (pre : List (LogEntry K V)) (s : LogEntry K V) (es : List (LogEntry K V))
      (buff : LogEntry K V) (t : BinaryTree K V)
      → let r = rewind (reverse (pre ++ s ∷ es)) [] buff in
        restore_into unset (pre ++ s ∷ es) buff t ≡ replay unset r.0 r.1 t
  unfolding restore_into
  restore_into-rewind [] s es buff t = refl
  restore_into-rewind (p ∷ pre) s es buff t = refl

  apply_sync : (s : LogEntry K V) (t : BinaryTree K V) → is_sync s.act ≡ true → apply unset s t ≡ t
  unfolding dispatch is_sync
  apply_sync s t h = ground arith

  replay_from_sync :
      (es : List (LogEntry K V)) (s : LogEntry K V) (t : BinaryTree K V)
      → is_sync s.act ≡ true
      → (replay unset es s t).root ≡ apply_all unset es t.root
  unfolding replay
  replay_from_sync [] s t g = ap (λ (x : BinaryTree K V). x.root) (apply_sync s t g)
  replay_from_sync (e ∷ es) s t g = replay-apply_all unset e es s t

  restore_into_synced :
      (pre : List (LogEntry K V)) (s : LogEntry K V) (es : List (LogEntry K V))
      (buff : LogEntry K V) (t : BinaryTree K V)
      → NoSync es
      → is_sync s.act ≡ true
      → (restore_into unset (pre ++ s ∷ es) buff t).root ≡ apply_all unset es t.root
  restore_into_synced pre s es buff t h g =
      ap (λ (x : BinaryTree K V). x.root)
        (restore_into-rewind pre s es buff t
          ∙ ap (λ r. replay unset r.0 r.1 t) (rewind_found pre s es buff h g))
      ∙ replay_from_sync es s t g

  pub from_file-restore :
      (log : List (LogEntry K V)) (buff : LogEntry K V) (t : BinaryTree K V)
      → from_file unset log buff t
        ≡ some (
            restore_into unset log buff
              (record t { size = 0; traversal_started = false; stk = []; root = leaf }))
  unfolding from_file
  from_file-restore log buff t = let (freed, e, _) = free-perm t in rw (e, from_file)

  -- What `fromFile` makes of a log depends only on what stands after its last sync entry: from the whole
  -- log and from that part alone it returns, with the same nodes, and what it makes of the whole log is a
  -- valid table.
  pub from_file_synced :
      (pre : List (LogEntry K V)) (s : LogEntry K V) (es : List (LogEntry K V))
      (buff : LogEntry K V) (t : BinaryTree K V)
      → NoSync es
      → is_sync s.act ≡ true
      → (a b : BinaryTree K V) × (from_file unset (pre ++ s ∷ es) buff t ≡ some a)
        × (from_file unset es buff t ≡ some b)
        × (a.root ≡ b.root)
        × IsValid a
  from_file_synced pre s es buff t h g =
      let fresh : BinaryTree K V = record t {
        size = 0;
        traversal_started = false;
        stk = [];
        root = leaf;
      } in
      (
        restore_into unset (pre ++ s ∷ es) buff fresh,
        restore_into unset es buff fresh,
        from_file-restore (pre ++ s ∷ es) buff t,
        from_file-restore es buff t,
        restore_into_synced pre s es buff fresh h g ∙ sym (restore_into-root es buff fresh h),
        restore_into-IsValid (pre ++ s ∷ es) buff fresh (record { ordered = tt; counted = refl }),
      )

  -- From `t` a call led to `u`, with the log `log`: what the calls `ops` then add to the log makes
  -- their nodes out of those of `t`.
  abbrev Logged :
      List (Op K V) → BinaryTree K V → BinaryTree K V → List (LogEntry K V) → Type (ℓ ⊔ κ)
  Logged ops t u log =
      (es : List (LogEntry K V)) × NoSync es
      × ((run ops u).logfile ≡ some (log ++ es))
      × (apply_all unset es t.root ≡ (run ops u).root)

  Logged-cons :
      (e : LogEntry K V) (ops : List (Op K V)) (t u : BinaryTree K V) (log : List (LogEntry K V))
      → is_sync e.act ≡ false
      → u.root ≡ apply_root unset e t.root
      → Logged ops u u (log ++ e ∷ [])
      → Logged ops t u log
  Logged-cons e ops t u log g h (es, quiet, logged, same_root) = (
    e ∷ es,
    (g, quiet),
    logged ∙ ap some (append_assoc log (e ∷ []) es),
    ap (apply_all unset es) (sym h) ∙ same_root,
  )

  appended :
      (t u : BinaryTree K V) (e : LogEntry K V) (log : List (LogEntry K V))
      → t.logfile ≡ some log
      → u.logfile ≡ append_log t.logfile e
      → u.logfile ≡ some (log ++ e ∷ [])
  unfolding append_log
  appended t u e log h g = g ∙ rw (h, append_log)

  run-Logged :
      (ops : List (Op K V)) (t : BinaryTree K V) (log : List (LogEntry K V))
      → t.logfile ≡ some log
      → Logged ops t t log
  unfolding run is_sync
  run-Logged [] t log h = ([], tt, h ∙ ap some (sym (append-nil log)), refl)
  run-Logged (put k v ∷ ops) t log h =
      let e : LogEntry K V = record { act = write; key = k; value = v } in
      let u = insert t k v in
      Logged-cons e ops t u log refl (insert-root t k v)
        (run-Logged ops u (log ++ e ∷ []) (appended t u e log h (insert-log t k v)))
  run-Logged (remove k ∷ ops) t log h = elim (Option-cases (get k t)) [
    | inl miss ↦
        subst (λ x. Logged ops t x.0 log) (sym (delete_missing unset t k miss))
          (run-Logged ops t log h)
    | inr (v, hit) ↦
        let e : LogEntry K V = record { act = del; key = k; value = unset } in
        let u = (delete unset t k).0 in
        Logged-cons e ops t u log refl (delete-root unset t k)
          (run-Logged ops u (log ++ e ∷ []) (appended t u e log h (delete_present unset t k hit).2))
  ]

  -- Recovery: after any calls of `insert` and `del` on a new table with a log, and of no other operation
  -- (`dump` writes a sync entry, `_free` takes the nodes and leaves the log), the log exists, `fromFile` of
  -- it into any other table returns, and the result is a valid table with the very nodes of the one that
  -- was lost, deletions included.
  pub from_file-run :
      (ops : List (Op K V)) (buff : LogEntry K V) (other : BinaryTree K V)
      → (log : List (LogEntry K V)) × (t : BinaryTree K V) × ((run ops (new_tree (some []))).logfile
          ≡ some log)
        × (from_file unset log buff other ≡ some t)
        × (t.root ≡ (run ops (new_tree (some []))).root)
        × IsValid t
  from_file-run ops buff other =
      let fresh : BinaryTree K V = record other {
        size = 0;
        traversal_started = false;
        stk = [];
        root = leaf;
      } in
      let (es, quiet, logged, same_root) = run-Logged ops (new_tree (some [])) [] refl in
      (
        es,
        restore_into unset es buff fresh,
        logged,
        from_file-restore es buff other,
        restore_into-root es buff fresh quiet ∙ same_root,
        restore_into-IsValid es buff fresh (record { ordered = tt; counted = refl }),
      )
