-- ===== src/BinaryTree/Log.antt =====
-- `fromFile` of include/RBTree/rbtree.hpp: the table built again from the log of an earlier run.
-- The log has whole entries, which the check of the file's length asks for, and another name than
-- the open log of the tree (the master gives it `tempfile`).
pub mod Replay
pub mod Recovery
pub mod Words
use cs.Prelude.{Bool, true, false, List, [], ◌∷◌, Option, none, some, reverse, if◌then◌else◌}
use cs.Order.{Ord}
use cs.Layout.{Layout}
use cs.BinaryTree.{BinaryTree, Action, write, del, sync, LogEntry, insert, delete, free}

unfoldable pub is_sync : Action → Bool
is_sync sync = true
is_sync write = false
is_sync del = false

-- The loop that steps back from the end of the log to the last sync entry. The position is kept as
-- the entries before it, the nearest first, and those after it; `buff` is the entry read last. After
-- a sync entry the code steps over it again.
unfoldable pub rewind {ℓ κ} :
    {K : Type ℓ} {V : Type κ}
    → List (LogEntry K V)
    → List (LogEntry K V)
    → LogEntry K V
    → List (LogEntry K V) × LogEntry K V
unfolding is_sync
rewind [] after buff = (after, buff)
rewind (e ∷ before) after buff = if is_sync e.act then (after, e) else rewind before (e ∷ after) e

module _ {ℓ κ} {K : Type ℓ} {V : Type κ} ⦃o : Ord K⦄ ⦃w : Layout V⦄ (unset : V) where
  unfoldable pub dispatch : Action → K → V → BinaryTree K V → BinaryTree K V
  dispatch write k v t = insert t k v
  dispatch del k v t = (delete unset t k).0
  dispatch sync k v t = t

  -- One entry of the log, done again.
  abbrev pub apply : LogEntry K V → BinaryTree K V → BinaryTree K V
  apply e t = dispatch e.act e.key e.value t

  -- `while(!feof(backup))`: the end of the file shows only in a read that fails, and that read leaves
  -- the last entry in `buff`, which is done once more.
  unfoldable pub replay : List (LogEntry K V) → LogEntry K V → BinaryTree K V → BinaryTree K V
  unfolding dispatch
  replay [] buff t = apply buff t
  replay (e ∷ es) buff t = replay es e (apply e t)

  -- The body after `_free`; an empty log is not read at all.
  unfoldable pub restore_into : List (LogEntry K V) → LogEntry K V → BinaryTree K V → BinaryTree K V
  unfolding rewind replay
  restore_into [] buff t = t
  restore_into (e ∷ es) buff t =
      let (after, last_read) = rewind (reverse (e ∷ es)) [] buff in replay after last_read t

  -- `fromFile`; `buff` is the fresh buffer.
  unfoldable pub from_file :
      List (LogEntry K V) → LogEntry K V → BinaryTree K V → Option (BinaryTree K V)
  unfolding free restore_into
  from_file log buff t = elim (free t) [
    | none ↦ none
    | some (emptied, _) ↦ some (restore_into log buff emptied)
  ]
