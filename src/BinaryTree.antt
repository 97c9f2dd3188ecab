-- ===== src/BinaryTree.antt =====
-- `BinaryTree` of include/RBTree/rbtree.hpp: the in-memory table, an unbalanced search tree with a
-- log of its writes. `int size` counts nodes and is a number: the master hands a tree over at
-- `MAX_TREE_SIZE`.
pub mod Log
pub mod Methods
pub mod Traversal
pub mod LogFile
pub mod Sizes
mod Tests
use cs.Prelude.{
  ℕ, zero, suc, ◌+◌, Bool, true, false, List, [], ◌∷◌, ◌++◌, Option, none, some, if◌then◌else◌,
}
use cs.Order.{Ord, ◌<?◌}
use cs.Layout.{Layout, tomb}
use cs.Level.{Level, level, stamp_block}
use cs.Tree.{
  Tree, leaf, node, new_node, Ptr, deref, modify, descend, differs, search_node, attach, bury,
}
use cs.Tree.Insert.{count}
use cs.Tree.Walk.{push_left, dump_loop, push_child, free_loop}

-- `_write_`, `_del_` and `_sync_`, the first byte of a log entry.
pub data Action : Type 0 where
  write del sync : Action

-- One entry of the log file.
pub record LogEntry {ℓ κ} (K : Type ℓ) (V : Type κ) : Type (ℓ ⊔ κ) where
  pub act : Action
  pub key : K
  pub value : V

-- `logfile` is the content of the open log, or `none` for NULL.
pub record BinaryTree {ℓ κ} (K : Type ℓ) (V : Type κ) : Type (ℓ ⊔ κ) where
  pub size : ℕ
  pub traversal_started : Bool
  pub logfile : Option (List (LogEntry K V))
  pub stk : List (Tree K V)
  pub root : Tree K V

module _ {ℓ κ} {K : Type ℓ} {V : Type κ} where
  -- The constructors without a first node; `log` is what `setLogFile` opened.
  abbrev pub new_tree : Option (List (LogEntry K V)) → BinaryTree K V
  new_tree log = record {
    size = 0;
    traversal_started = false;
    logfile = log;
    stk = [];
    root = leaf;
  }

  -- `log_action`: an append to the log if there is one, flushed.
  unfoldable pub append_log :
      Option (List (LogEntry K V)) → LogEntry K V → Option (List (LogEntry K V))
  append_log none e = none
  append_log (some log) e = some (log ++ e ∷ [])

  unfoldable pub log_action : BinaryTree K V → K → V → Action → BinaryTree K V
  unfolding append_log
  log_action t k v act = record t {
    logfile = append_log t.logfile (record { act = act; key = k; value = v });
  }

  -- `dump(f)`: the in-order walk after a first block with the time, and a sync entry in the log.
  -- `time` is what `strftime` wrote, `dummy` the unset node whose bytes go into the sync entry, and
  -- `size_of` is `sz_k + sz_v`.
  unfoldable pub dump : ℕ → List ℕ → K × V → BinaryTree K V → Option (BinaryTree K V × Level K V)
  unfolding log_action push_left dump_loop
  dump size_of time dummy t = elim (dump_loop (suc (count t.root)) (push_left t.root []) []) [
    | none ↦ none
    | some es ↦ some (
      log_action (record t { traversal_started = false; stk = [] }) dummy.0 dummy.1 sync,
      level (stamp_block size_of time) es,
    )
  ]

  -- `_free`: the nodes that it deletes, and the empty tree.
  unfoldable pub free : BinaryTree K V → Option (BinaryTree K V × List (K × V))
  unfolding free_loop
  free t = elim (free_loop (suc (count t.root)) (push_child t.root []) []) [
    | none ↦ none
    | some freed ↦
        some (record t { size = 0; traversal_started = false; stk = []; root = leaf }, freed)
  ]

  -- The first `if` of `_inorder`: a walk that is not under way starts at the leftmost node.
  unfoldable pub start_walk : BinaryTree K V → BinaryTree K V
  unfolding push_left
  start_walk t =
      if t.traversal_started
      then t
      else record t { traversal_started = true; stk = push_left t.root [] }

  -- The rest of `_inorder`, on the stack: NULL at the end of the walk, and else the next node.
  unfoldable pub advance : BinaryTree K V → List (Tree K V) → BinaryTree K V × Option (K × V)
  unfolding push_left
  advance t [] = (record t { traversal_started = false; stk = [] }, none)
  advance t (leaf ∷ stk) = (t, none)
  advance t (node k v d l r ∷ stk) = (record t { stk = push_left r stk }, some (k, v))

  -- `_inorder`; of the node that it returns, the key and the value.
  unfoldable pub inorder : BinaryTree K V → BinaryTree K V × Option (K × V)
  unfolding start_walk advance
  inorder t = let s = start_walk t in advance s s.stk

module _ {ℓ κ} {K : Type ℓ} {V : Type κ} ⦃o : Ord K⦄ where
  -- 1 where `insert` hangs a new node below `p`.
  abbrev pub grows : K → Tree K V → ℕ
  grows k leaf = 0
  grows k (node c w d l r) = if c <? k then 1 else if k <? c then 1 else 0

  -- `insert(k, v)`; it returns 0 on every path.
  unfoldable pub insert : BinaryTree K V → K → V → BinaryTree K V
  unfolding log_action descend modify attach deref
  insert t k v = elim (descend k t.root) [
    | none ↦ log_action (record t { root = new_node k v; size = t.size + 1 }) k v write
    | some p ↦
        log_action
          (record t {
            root = modify p (attach k v) t.root;
            size = t.size + grows k (deref p t.root);
          })
          k v write
  ]

  -- `del(k)`: whether it returned 0; `false` stands for its -1. `unset` is the value of the local
  -- node `dummy`, which no one sets and which goes into the log.
  unfoldable pub delete : ⦃w : Layout V⦄ → V → BinaryTree K V → K → BinaryTree K V × Bool
  unfolding log_action search_node descend modify bury deref differs
  delete unset t k = elim (search_node k t.root) [
    | none ↦ (t, false)
    | some p ↦ (log_action (record t { root = modify p (bury tomb) t.root }) k unset del, true)
  ]
