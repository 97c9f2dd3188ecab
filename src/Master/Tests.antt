-- ===== src/Master/Tests.antt =====
-- The store of master.cpp on sample states.
use cs.Prelude.{
  ℕ, true, ◌≡◌, refl, [], ◌∷◌, Option, none, some, if◌then◌else◌, arith, ◌==◌, Bool-cases, inl, inr,
}
use cs.Assoc.{find, or_else}
use cs.Key.{Key, Value}
use cs.Key.Laws.{words_ord}
use cs.Key.Bytes.{value_layout}
use cs.Bloom.{fresh}
use cs.Bloom.Disk.{fresh-IsValid}
use cs.Merge.Reference.{live_value}
use cs.Prelude.{length-replicate}
use cs.FileIo.{Buffer}
use cs.Read.Paged.{EntryInRange}
use cs.Read.Searcher.{IsStored, IsIdle}
use cs.Prelude.{◌<◌, length}
use cs.BinaryTree.{write, sync, new_tree}
use cs.BinaryTree.Methods.{get}
use cs.BinaryTree.Log.Words.{EachLogged}
use cs.Bloom.{BloomFile}
use cs.Bloom.Disk.{load-file}
use cs.Master.Boot.{Disk, Outside, time_at, find_recent, boot}
use cs.Master.Recovery.{IsReadable, table_of, boot-stored}
use cs.Master.{Master, num_files, dbread, dbwrite, adjust}
use cs.Master.Rounds.{down, chain}
use cs.Master.View.{stored, IsValid}
use cs.Master.Reads.{dbread-stored, dbwrite-stored}
use cs.Master.Merges.{Untouched, adjust-stored}
use cs.Master.Kept.{IsKept}
use cs.Master.Steps.{Reach, start, writes, adjusts, dbread-Reach}
use cs.Prelude.{get_or}
use cs.Level.{level, stamp_block}
use cs.Merge.{read_stamp}
use cs.Merge.Files.{merge_files-merged}
use cs.BinaryTree.Traversal.{dump-entries}
use cs.Master.Adjusted.{adjust_run}
use cs.Master.Stamps.{IsRing, adjust-IsRing}
use cs.Master.Samples.{empty}
use cs.Samples.{word_key, word_key-InRange, stamp}
use cs.Master.Samples.{paged, unused, unused-IsIdle, files, files-IsStored, store, store-IsValid}

dbread-stored_example :
    (s' : Buffer) × (dbread paged (word_key 5) store unused ≡ some (stored (word_key 5) store, s'))
    × IsIdle 3 s'
dbread-stored_example = dbread-stored paged (word_key 5) store unused store-IsValid unused-IsIdle

adjust-stored_example :
    (m' : Master) × (adjust (50 ∷ []) (word_key 0, word_key 0) stamp (word_key 0, word_key 0) store
      ≡ some m')
    × IsValid m'
    × Untouched store m'
    × ((k : Key) → IsKept (stored k store) (stored k m'))
adjust-stored_example =
    adjust-stored (50 ∷ []) (word_key 0, word_key 0) stamp (word_key 0, word_key 0) store
      (omega arith) (length-replicate {A = ℕ} 128 48) store-IsValid refl

-- A merge, then a write.
abbrev merged_store :
    (m : Master) × (adjust (50 ∷ []) (word_key 0, word_key 0) stamp (word_key 0, word_key 0) store
      ≡ some m)
    × IsValid m
merged_store =
    let (m, ran, valid, _, _) =
      adjust-stored (50 ∷ []) (word_key 0, word_key 0) stamp (word_key 0, word_key 0) store
        (omega arith) (length-replicate {A = ℕ} 128 48) store-IsValid refl in
    (m, ran, valid)

abbrev written_store : (m : Master) × (dbwrite (word_key 7) (word_key 70) merged_store.0 ≡ some m)
written_store =
    let (m, ran, _, _) =
      dbwrite-stored (word_key 7) (word_key 70) merged_store.0 (word_key-InRange 7 (omega arith))
        (word_key-InRange 70 (omega arith)) merged_store.2 in
    (m, ran)

reached : Reach store ((word_key 7, word_key 70) ∷ []) written_store.0
reached =
    writes (word_key 7) (word_key 70) (word_key-InRange 7 (omega arith))
      (word_key-InRange 70 (omega arith))
      (adjusts (50 ∷ []) (word_key 0, word_key 0) stamp (word_key 0, word_key 0) (omega arith)
        (length-replicate {A = ℕ} 128 48) start merged_store.1)
      written_store.1

dbread-Reach_example :
    (answer : Option Value) × (s' : Buffer) × (dbread paged (word_key 7) written_store.0 unused
      ≡ some (answer, s'))
    × IsIdle 3 s'
    × (live_value answer
        ≡ live_value (
            or_else
              (find (word_key 7) ((word_key 7, word_key 70) ∷ []))
              (stored (word_key 7) store)))
dbread-Reach_example = dbread-Reach paged (word_key 7) unused store-IsValid reached unused-IsIdle

abbrev outside : Outside
outside = record {
  time_of = length;
  clock = λ _. 50 ∷ [];
  dummy = (word_key 0, word_key 0);
  block = stamp;
  entry = (word_key 0, word_key 0);
  value = word_key 0;
  buff = record { act = sync; key = word_key 0; value = word_key 0 };
}

abbrev filter : BloomFile
filter = fresh true

-- A write in `backup0` that had not reached the level files.
abbrev disk : Disk
disk = record {
  files = files;
  logs = λ i.
      if i == 0 then record { act = write; key = word_key 4; value = word_key 40 } ∷ [] else [];
  bloomdump = filter.file;
}

disk-logs : (i : ℕ) → EachLogged EntryInRange (disk.logs i)
disk-logs i = elim (Bool-cases (i == 0)) [
  | inl e ↦ rw e ((word_key-InRange 4 (omega arith), word_key-InRange 40 (omega arith)), tt)
  | inr e ↦ rw e tt
]

disk-IsReadable : IsReadable outside disk
disk-IsReadable = record {
  short = λ i. omega arith;
  whole = length-replicate {A = ℕ} 128 48;
  buffer = (word_key-InRange 0 (omega arith), word_key-InRange 0 (omega arith));
  files = files-IsStored;
  logs = disk-logs;
}

boot-stored_example :
    (m : Master) × (boot outside disk ≡ some m)
    × (m.reserve ≡ none)
    × ((m.backups 0 ≡ []) × (m.backups 1 ≡ []))
    × ((m.bintree ≡ new_tree (some [])) × (m.bloom ≡ filter))
    × ((i : ℕ) → IsStored (m.filesys i))
    × (m.recent < num_files)
    × ((k : Key)
        → IsKept
            (or_else (get k (table_of outside (disk.logs 1))) (
              or_else
                (get k (table_of outside (disk.logs 0)))
                (chain files (down num_files (find_recent num_files 0 (time_at outside files))) k)))
            (stored k m))
boot-stored_example =
    boot-stored outside disk disk-IsReadable (load-file filter (fresh-IsValid true).0).0

-- Ten files with the times 0 to 9, and a merge at time 10.
abbrev clocked : Outside
clocked = record outside { time_of = λ bytes. get_or bytes 0 0 }

abbrev stamped : Master
stamped = record store { filesys = λ i. level (stamp_block 128 (i ∷ [])) [] }

stamped-IsRing : IsRing (time_at clocked stamped.filesys) 9
unfolding read_stamp
stamped-IsRing = record { up = λ j l ne. omega arith; drop = omega arith }

abbrev restamped :
    (m : Master) × (adjust (10 ∷ []) (word_key 0, word_key 0) stamp (word_key 0, word_key 0) stamped
      ≡ some m)
restamped = (
  _,
  adjust_run (10 ∷ []) (word_key 0, word_key 0) stamp (word_key 0, word_key 0) stamped refl
      (merge_files-merged 1 stamp (word_key 0, word_key 0) (stamped.filesys 1) (stamped.filesys 0)
        (omega arith))
      (dump-entries 128 (10 ∷ []) (word_key 0, word_key 0) empty),
)

adjust-IsRing_example :
    IsRing (time_at clocked restamped.0.filesys) restamped.0.recent
    × (find_recent num_files 0 (time_at clocked restamped.0.filesys) ≡ restamped.0.recent)
unfolding read_stamp
adjust-IsRing_example =
    adjust-IsRing clocked (10 ∷ []) (word_key 0, word_key 0) (word_key 0, word_key 0) stamped
      (omega arith) stamped-IsRing (omega arith) (omega arith) restamped.1
