-- ===== src/Master.antt =====
-- `Master` of include/master.hpp and src/master.cpp: the store. A call of a method stands here for
-- its run with the locks that it takes, one call after the other.
pub mod Rounds
pub mod View
pub mod Reads
pub mod Kept
pub mod Adjusted
pub mod Merges
pub mod Steps
pub mod Boot
pub mod Serve
pub mod Recent
pub mod Stamps
pub mod Recovery
pub mod Race
pub mod Samples
mod Tests
use mathlib.Core.Option
use cs.Prelude.{
  ◌>>=◌, ℕ, zero, suc, ◌+◌, ◌-◌, ◌%◌, Bool, true, false, List, [], ◌∷◌, Option, none, some,
  if◌then◌else◌, ◌==◌, leb, length, ◌&&◌,
}
use cs.Key.{Key, Value}
use cs.Key.Laws.{words_ord}
use cs.Key.Bytes.{value_layout}
use cs.Level.{Level, blank, level, entries_of}
use cs.BinaryTree.{BinaryTree, LogEntry, new_tree, insert, dump}
use cs.BinaryTree.Methods.{get}
use cs.Bloom.{BloomFile, set_key, get_key}
use cs.Merge.{merge_files}
use cs.Read.Searcher.{Searcher}

-- `NUMFILES` and `MAX_TREE_SIZE`
abbrev pub num_files : ℕ
num_files = 10

abbrev pub max_tree_size : ℕ
max_tree_size = 1024

abbrev pub Table : Type 0
Table = BinaryTree Key Value

-- `filesys` holds the content of `file<i>`, `backups` that of `backup<i>`. The log of `bintree` is
-- the file `backups[current]` and is kept with the table until the table is handed over.
pub record Master : Type 0 where
  pub bintree : Table
  pub reserve : Option Table
  pub bloom : BloomFile
  pub recent : ℕ
  pub current : ℕ
  pub filesys : ℕ → Level Key Value
  pub backups : ℕ → List (LogEntry Key Value)
  pub tempfile : Level Key Value

abbrev pub update {ℓ} : {A : Type ℓ} → (ℕ → A) → ℕ → A → ℕ → A
update f i a j = if i == j then a else f j

-- The search of `reserve`, if there is one.
abbrev pub get_reserve : Key → Option Table → Option Value
get_reserve k none = none
get_reserve k (some t) = get k t

module _ (searcher : Searcher) where
  -- The two `for` loops of `dbread`: from file `i` downwards to before file `stop`. The outer `none`
  -- is a fault of a search or the end of the fuel.
  unfoldable pub read_files :
      ℕ
      → (ℕ → Level Key Value)
      → ℕ
      → ℕ
      → Key
      → searcher.State
      → Option (Option Value × searcher.State)
  read_files zero files i stop k s = none
  read_files (suc f) files i stop k s =
      let body : Option (Option Value × searcher.State) = (do
        (found, s') ← searcher.find_in (files i) k s
        elim found [
          | some v ↦ some (some v, s')
          | none ↦ read_files f files ((i + num_files - 1) % num_files) stop k s'
        ]) in
      if i == stop then some (none, s) else body

  -- The traversal of the file system in `dbread`, after the memory was searched.
  unfoldable pub read_levels :
      (ℕ → Level Key Value) → ℕ → Key → searcher.State → Option (Option Value × searcher.State)
  unfolding read_files
  read_levels files r k s = do
    (found, s') ← read_files (suc num_files) files r ((r + 2) % num_files) k s
    elim found [
      | some v ↦ some (some v, s')
      | none ↦ read_files (suc num_files) files ((r + 2) % num_files) r k s'
    ]

  -- `dbread(k, v)`: the value, or `false`; and the state of the buffers.
  unfoldable pub dbread : Key → Master → searcher.State → Option (Option Value × searcher.State)
  unfolding read_levels
  dbread k m s = do
    maybe ← get_key k m.bloom
    elim maybe [
      | false ↦ some (none, s)
      | true ↦ elim (get k m.bintree) [
        | some v ↦ some (some v, s)
        | none ↦ elim (get_reserve k m.reserve) [
          | some v ↦ some (some v, s)
          | none ↦ read_levels m.filesys m.recent k s
        ]
      ]
    ]

-- `dbwrite(k, v)`
unfoldable pub dbwrite : Key → Value → Master → Option Master
dbwrite k v m = do
  bloom' ← set_key k m.bloom
  let m' : Master = record m { bintree = insert m.bintree k v; bloom = bloom' }
  some m'

-- The content of the log of a table.
abbrev pub log_of : Table → List (LogEntry Key Value)
log_of t = elim t.logfile [ none ↦ [] | some log ↦ log ]

-- The test that `serve` makes after each line. The source writes `this-reserve->size == 0`, a
-- difference of a pointer and a number, where it means `this->reserve->size`; that pointer is not
-- NULL, so the test is whether there is a reserve.
unfoldable pub must_swap : Master → Bool
must_swap m = leb max_tree_size m.bintree.size && elim m.reserve [ none ↦ true | some _ ↦ false ]

-- What `serve` does then: the table becomes the reserve, and a new table logs to the other backup,
-- which is emptied.
unfoldable pub swap : Master → Master
swap m =
    let current' = (m.current + 1) % 2 in
    record m {
      reserve = some m.bintree;
      current = current';
      bintree = new_tree (some []);
      backups = update (update m.backups m.current (log_of m.bintree)) current' [];
    }

-- `adjust()`: the two oldest files are merged, the reserve is dumped over the oldest, which becomes
-- the most recent, and its backup is emptied. `time` and `dummy` are those of `dump`, `unset` and
-- `unset_entry` those of `merge_files`; NULL for the reserve is a fault.
unfoldable pub adjust : List ℕ → Key × Value → List ℕ → Key × Value → Master → Option Master
adjust time dummy unset unset_entry m = do
  table ← m.reserve
  let second = (m.recent + 2) % num_files
  let oldest = (m.recent + 1) % num_files
  let copied = m.filesys second
  merged ←
      merge_files (suc (length (entries_of (m.filesys oldest)) + length (entries_of copied))) unset
        unset_entry copied (m.filesys oldest)
  (_, dumped) ← dump 128 time dummy table
  let m' : Master = record m {
    filesys = update (update m.filesys second merged) oldest dumped;
    tempfile = blank;
    recent = oldest;
    backups = update m.backups ((m.current + 1) % 2) [];
    reserve = none;
  }
  some m'
