-- ===== src/Setup.antt =====
-- The set-up program, scratch/src/fs.cpp: an empty filter, ten level files from dumps of an empty tree, and
-- two empty backups. It runs in an empty directory.
pub mod Empty
pub mod Run
mod Tests
use cs.Prelude.{◌>>=◌, ℕ, zero, suc, ◌+◌, false, List, [], ◌∷◌, Option, none, some, if◌then◌else◌}
use cs.Key.{Key, Value}
use cs.Key.Laws.{words_ord}
use cs.Key.Bytes.{value_layout}
use cs.Level.{Level, blank}
use cs.BinaryTree.{LogEntry, new_tree, dump}
use cs.BinaryTree.LogFile.{Name, Log, no_log, set_log_file}
use cs.Bloom.{fresh}
use cs.Master.{Table, num_files, update}
use cs.Master.Boot.{Disk}

-- The loop over the level files, `n` of them from number `i` on. `clock` is the text of the time at each
-- dump, `dummy` the unset node of `dump`.
unfoldable pub dump_all :
    (ℕ → List ℕ)
    → Key × Value
    → ℕ
    → ℕ
    → Table
    → (ℕ → Level Key Value)
    → Option (Table × (ℕ → Level Key Value))
dump_all clock dummy zero i bt files = some (bt, files)
dump_all clock dummy (suc n) i bt files = do
  (bt', file) ← dump 128 (clock i) dummy bt
  dump_all clock dummy n (i + 1) bt' (update files i file)

-- "backup0" and "backup1".
abbrev pub backup_name : ℕ → Name
backup_name i = b'b' ∷ b'a' ∷ b'c' ∷ b'k' ∷ b'u' ∷ b'p' ∷ (b'0' + i) ∷ []

-- The two calls of `setLogFile`, and the one in the destructor.
unfoldable pub make_backups : Log Key Value → Option (Log Key Value)
unfolding set_log_file
make_backups s = do
  s1 ← set_log_file (backup_name 0) s
  s2 ← set_log_file (backup_name 1) s1
  set_log_file [] s2

abbrev pub log_at : Log Key Value → ℕ → List (LogEntry Key Value)
log_at s i = elim (s.disk (backup_name i)) [ none ↦ [] | some log ↦ log ]

-- `main`
unfoldable pub set_up : (ℕ → List ℕ) → Key × Value → Option Disk
unfolding dump_all make_backups
set_up clock dummy = do
  (bt, files) ← dump_all clock dummy num_files 0 (new_tree none) (λ i. blank)
  logs ← make_backups (no_log (λ n. none))
  let disk : Disk = record { files = files; logs = log_at logs; bloomdump = (fresh false).file }
  some disk
