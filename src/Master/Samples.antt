-- ===== src/Master/Samples.antt =====
-- A sample state of the store and its buffers.
use cs.Prelude.{
  ℕ, true, ◌≡◌, refl, sym, [], none, some, some_inj, if◌then◌else◌, arith, ◌==◌, Bool-cases, inl,
  inr,
}
use mathlib.Core.Path.{subst}
use cs.Key.{Key, Value}
use cs.Key.Laws.{words_ord}
use cs.Key.Bytes.{value_layout}
use cs.Level.{Level, level}
use cs.BinaryTree.{new_tree, insert}
use cs.BinaryTree.Methods.{insert-IsValid}
use cs.Bloom.{fresh}
use cs.Bloom.Disk.{fresh-IsValid}
use cs.Prelude.{length-replicate}
use cs.Assoc.Each.{put-EachNode}
use cs.BinaryTree.Methods.{insert-root}
use cs.FileIo.{Buffer, initial}
use cs.FileIo.Close.{initial-IsValid, initial-NoneOf}
use cs.Read.Paged.{EntryInRange}
use cs.Read.Searcher.{Searcher, IsStored, IsIdle, file_searcher}
use cs.Master.{Master, Table}
use cs.Master.View.{IsValid, IsValidTable}
use cs.Samples.{
  word_key, older_file, newer_file, older-IsSorted, newer-IsSorted, older-AllInRange,
  newer-AllInRange, word_key-InRange,
}

-- The search through two buffers, under handle 3.
abbrev pub paged : Searcher
paged = file_searcher 3

abbrev pub unused : Buffer
unused = initial 2

pub unused-IsIdle : IsIdle 3 unused
unused-IsIdle = (initial-IsValid (λ _. []) 2 (omega arith), initial-NoneOf 3 2)

abbrev pub files : ℕ → Level Key Value
files i = if i == 0 then newer_file else older_file

pub files-IsStored : (i : ℕ) → IsStored (files i)
files-IsStored i = elim (Bool-cases (i == 0)) [
  | inl e ↦
      subst (λ b. IsStored (if b then newer_file else older_file)) (sym e)
        (length-replicate {A = ℕ} 128 48, newer-IsSorted, newer-AllInRange)
  | inr e ↦
      subst (λ b. IsStored (if b then newer_file else older_file)) (sym e)
        (length-replicate {A = ℕ} 128 48, older-IsSorted, older-AllInRange)
]

abbrev pub empty : Table
empty = new_tree (some [])

pub empty-IsValid : IsValidTable empty
empty-IsValid = (record { ordered = tt; counted = refl }, tt)

abbrev pub table : Table
table = insert empty (word_key 2) (word_key 22)

pub table-IsValid : IsValidTable table
table-IsValid = (
  insert-IsValid empty (word_key 2) (word_key 22) empty-IsValid.0,
  rw (insert-root empty (word_key 2) (word_key 22)) (
      put-EachNode EntryInRange (word_key 2) (word_key 22) empty.root
        (word_key-InRange 2 (omega arith), word_key-InRange 22 (omega arith)) empty-IsValid.1),
)

-- A filter that says yes of every key, a table and a reserve.
abbrev pub store : Master
store = record {
  bintree = table;
  reserve = some empty;
  bloom = fresh true;
  recent = 9;
  current = 0;
  filesys = files;
  backups = λ _. [];
  tempfile = level [] [];
}

abbrev pub idle : Master
idle = record store { reserve = none }

pub reserve-IsValid : (t : Table) → some empty ≡ some t → IsValidTable t
reserve-IsValid t e = subst IsValidTable (some_inj e) empty-IsValid

pub store-IsValid : IsValid store
store-IsValid = record {
  table = table-IsValid;
  handed_over = reserve-IsValid;
  files = files-IsStored;
  in_ring = omega arith;
  filter = (fresh-IsValid true).0;
  known = λ k e. (fresh-IsValid true).1 k;
}

pub idle-IsValid : IsValid idle
idle-IsValid = record {
  table = table-IsValid;
  handed_over = λ t e. cc;
  files = files-IsStored;
  in_ring = omega arith;
  filter = (fresh-IsValid true).0;
  known = λ k e. (fresh-IsValid true).1 k;
}
