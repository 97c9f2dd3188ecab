-- ===== src/Master/Boot.antt =====
-- The constructor of `Master` in master.cpp: which level file is the most recent, and what the logs of
-- an earlier run had not yet reached the level files.
use cs.Prelude.{
  ◌>>=◌, ℕ, zero, suc, ◌+◌, ◌%◌, true, List, [], Option, none, some, ltb, if◌then◌else◌,
}
use cs.Key.{Key, Value}
use cs.Key.Laws.{words_ord}
use cs.Key.Bytes.{value_layout}
use cs.Level.{Level, blank}
use cs.Merge.{read_stamp}
use cs.BinaryTree.{LogEntry, new_tree}
use cs.BinaryTree.Log.{from_file}
use cs.Bloom.{fresh, load}
use cs.Master.{Master, num_files, update, adjust}

-- What the earlier run left on disk.
pub record Disk : Type 0 where
  pub files : ℕ → Level Key Value
  pub logs : ℕ → List (LogEntry Key Value)
  pub bloomdump : List ℕ

-- What the run takes from outside: the text of the time at each dump, and what stands in variables that
-- no one sets. `time_of` is `mktime` after `strptime`.
pub record Outside : Type 0 where
  pub time_of : List ℕ → ℕ
  pub clock : ℕ → List ℕ
  pub dummy : Key × Value
  pub block : List ℕ
  pub entry : Key × Value
  pub value : Value
  pub buff : LogEntry Key Value

-- The time in the first block of a file.
abbrev pub time_at : Outside → (ℕ → Level Key Value) → ℕ → ℕ
time_at a files i = a.time_of (read_stamp a.block (files i)).0

-- The second `for` loop: the first file whose successor is older, and 9 if there is none.
unfoldable pub find_recent : ℕ → ℕ → (ℕ → ℕ) → ℕ
find_recent zero i time = 9
find_recent (suc f) i time =
    let rest = find_recent f (i + 1) time in
    if ltb (time ((i + 1) % num_files)) (time i) then i else rest

-- One turn of the loop over the backups.
unfoldable pub restore : Outside → ℕ → Master → Option Master
restore a i m = do
  t ← from_file a.value (m.backups i) a.buff (new_tree (some []))
  adjust (a.clock i) a.dummy a.block a.entry (record m { reserve = some t; current = (i + 1) % 2 })

-- The state before that loop. The table and the filter are made behind it and are not looked at before;
-- what stands for them here is a table without a log and a filter that says yes.
abbrev pub unbooted : Outside → Disk → Master
unbooted a disk = record {
  bintree = new_tree none;
  reserve = none;
  bloom = fresh true;
  recent = find_recent num_files 0 (time_at a disk.files);
  current = 0;
  filesys = disk.files;
  backups = disk.logs;
  tempfile = blank;
}

-- `Master()`; `none` is an exit or a fault.
unfoldable pub boot : Outside → Disk → Option Master
unfolding restore
boot a disk = do
  m1 ← restore a 0 (unbooted a disk)
  m2 ← restore a 1 m1
  bloom ← load disk.bloomdump
  let m : Master = record m2 {
    current = 0;
    bintree = new_tree (some []);
    backups = update m2.backups 0 [];
    bloom = bloom;
  }
  some m
