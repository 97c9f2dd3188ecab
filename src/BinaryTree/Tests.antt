-- ===== src/BinaryTree/Tests.antt =====
-- The table of rbtree.hpp on sample calls.
use mathlib.Core.Option
use mathlib.Core.List.{Perm}
use cs.Prelude.{◌≢◌, suc, false, ◌≡◌, refl, List, [], ◌∷◌, ◌++◌, none, some, if◌then◌else◌}
use cs.Order.{same}
use cs.Assoc.{find, IsSorted}
use cs.Key.{Key, Value, lt_words}
use cs.Key.Laws.{words_ord}
use cs.Key.Bytes.{value_layout}
use cs.Layout.{tomb}
use cs.Level.{Level, entries_of}
use cs.Tree.{leaf, entries, search_node, descend, deref, value_of, differs, modify, attach}
use cs.Tree.Lookup.{read}
use cs.Tree.Insert.{count}
use cs.BinaryTree.{BinaryTree, LogEntry, new_tree, write, sync, insert, delete, dump, free}
use cs.BinaryTree.Methods.{IsValid, get, insert-IsValid, get-insert, get-delete}
use cs.BinaryTree.Traversal.{dump-find, free-perm, walk, walk-entries}
use cs.BinaryTree.Log.{is_sync, from_file}
use cs.BinaryTree.Log.Recovery.{Op, put, remove, run, from_file-run, from_file_synced}
use cs.Prelude.{◌+◌, ◌*◌, ◌%◌, ◌≤◌, arith}
use cs.FileIo.{blk_size}
use cs.BinaryTree.Sizes.{check, check-fits, of_entry, of_node-short}
use cs.BinaryTree.{append_log}
use cs.BinaryTree.LogFile.{
  Name, Log, opened, same_name, Holds, logged, write_log, set_log_file, read_backup,
}
use cs.BinaryTree.LogFile.Streams.{write_log-append_log, set_log_file_closed, read_backup-Holds}
use cs.Samples.{word_key, gone}

abbrev Table : Type 0
Table = BinaryTree Key Value

abbrev empty : Table
empty = new_tree (some [])

abbrev table : Table
table = insert (insert empty (word_key 2) (word_key 20)) (word_key 1) (word_key 10)

empty-IsValid : IsValid empty
empty-IsValid = record { ordered = tt; counted = refl }

table-IsValid : IsValid table
table-IsValid =
    insert-IsValid (insert empty (word_key 2) (word_key 20)) (word_key 1) (word_key 10)
      (insert-IsValid empty (word_key 2) (word_key 20) empty-IsValid)

get_table : get (word_key 2) table ≡ some (word_key 20)
unfolding insert lt_words read search_node descend deref value_of differs modify attach
get_table = refl

get_other : get (word_key 3) table ≡ none
unfolding insert lt_words read search_node descend deref value_of differs modify attach
get_other = refl

get-insert_example :
    get (word_key 1) (insert table (word_key 1) (word_key 11))
    ≡ (if same (word_key 1) (word_key 1) then some (word_key 11) else get (word_key 1) table)
get-insert_example = get-insert table (word_key 1) (word_key 1) (word_key 11)

insert-IsValid_example : IsValid (insert table (word_key 3) (word_key 30))
insert-IsValid_example = insert-IsValid table (word_key 3) (word_key 30) table-IsValid

get-delete_example : get (word_key 2) (delete gone table (word_key 2)).0 ≡ (
    if same (word_key 2) (word_key 2)
    then Option.map (λ _. tomb) (get (word_key 2) table)
    else get (word_key 2) table)
get-delete_example = get-delete gone table (word_key 2) (word_key 2)

dump-find_example :
    (t' : Table) × (file : Level Key Value) × (dump 128 (50 ∷ []) (word_key 0, word_key 0) table
      ≡ some (t', file))
    × IsSorted (entries_of file)
    × ((k : Key) → find k (entries_of file) ≡ get k table)
    × (t'.root ≡ table.root)
dump-find_example = dump-find 128 (50 ∷ []) (word_key 0, word_key 0) table table-IsValid

free-perm_example :
    (freed : List (Key × Value)) × (free table
      ≡ some (record table { size = 0; traversal_started = false; stk = []; root = leaf }, freed))
    × Perm freed (entries table.root)
free-perm_example = free-perm table

table_idle : table.traversal_started ≡ false
unfolding insert modify attach descend deref lt_words
table_idle = refl

walk-entries_example :
    walk (suc (count table.root)) table
    ≡ some (entries table.root, record table { traversal_started = false; stk = [] })
walk-entries_example = walk-entries table table_idle

abbrev written : LogEntry Key Value
written = record { act = write; key = word_key 4; value = word_key 40 }

abbrev synced : LogEntry Key Value
synced = record { act = sync; key = word_key 0; value = word_key 0 }

from_file_synced_example :
    (a b : Table) × (from_file gone (written ∷ [] ++ synced ∷ written ∷ []) synced table ≡ some a)
    × (from_file gone (written ∷ []) synced table ≡ some b)
    × (a.root ≡ b.root)
    × IsValid a
unfolding is_sync
from_file_synced_example =
    from_file_synced gone (written ∷ []) synced (written ∷ []) synced table (refl, tt) refl

abbrev calls : List (Op Key Value)
calls = put (word_key 1) (word_key 10) ∷ put (word_key 2) (word_key 20) ∷ remove (word_key 1) ∷ []

from_file-run_example :
    (log : List (LogEntry Key Value)) × (t : Table) × ((run gone calls empty).logfile ≡ some log)
    × (from_file gone log synced table ≡ some t)
    × (t.root ≡ (run gone calls empty).root)
    × IsValid t
from_file-run_example = from_file-run gone calls synced table

abbrev entry_log : List (LogEntry Key Value)
entry_log = record { act = write; key = word_key 2; value = word_key 20 } ∷ []

-- A log that is open, and a file of the name [2].
abbrev log : Log Key Value
log = record {
  logfilename = 1 ∷ [];
  logfile = opened (1 ∷ []);
  disk = λ n.
      if same_name n (1 ∷ [])
      then some entry_log
      else if same_name n (2 ∷ [])
      then some []
      else none;
}

abbrev entry : LogEntry Key Value
entry = record { act = write; key = word_key 1; value = word_key 10 }

log-Holds : Holds log (some entry_log)
log-Holds = logged refl refl

write_log-append_log_example :
    (s' : Log Key Value) × (write_log entry log ≡ some s')
    × Holds s' (append_log (some entry_log) entry)
    × ((m : Name) → log.logfile ≢ opened m → s'.disk m ≡ log.disk m)
write_log-append_log_example = write_log-append_log entry log log-Holds

set_log_file_closed_example :
    (s' : Log Key Value) × (set_log_file [] log ≡ some s')
    × (s'.disk ≡ log.disk)
    × ((e : LogEntry Key Value) → write_log e s' ≡ none)
    × ((name : Name) → set_log_file name s' ≡ none)
set_log_file_closed_example = set_log_file_closed log entry_log log-Holds

-- `fromFile` on the log that is open.
read_backup-Holds_example :
    (s' : Log Key Value) × (read_backup (1 ∷ []) (3 ∷ []) log ≡ some (s', entry_log))
    × Holds s' (some [])
    × (s'.logfile ≢ opened (1 ∷ []))
read_backup-Holds_example = read_backup-Holds (1 ∷ []) (3 ∷ []) log refl refl log-Holds refl

check-fits_example : ((64 + 64) * 65) % blk_size + (64 + 64) ≤ blk_size
unfolding check
check-fits_example = check-fits 64 64 65 (omega arith) refl

of_node-short_example :
    (run
        (word_key 0)
        (put (word_key 1) (word_key 10) ∷ [])
        (of_entry (word_key 2) (word_key 20))).size
      + count (of_entry (word_key 2) (word_key 20)).root
    ≡ count
        (run
          (word_key 0)
          (put (word_key 1) (word_key 10) ∷ [])
          (of_entry (word_key 2) (word_key 20))).root
of_node-short_example =
    of_node-short (word_key 0) (of_entry (word_key 2) (word_key 20)).root
      (put (word_key 1) (word_key 10) ∷ [])
