-- ===== src/Setup/Empty.antt =====
-- The level files and the logs that fs.cpp makes, as the store that `Master` starts from.
use cs.Prelude.{
  ltb, ◌>>=◌, ℕ, zero, suc, ◌+◌, true, false, ◌≡◌, refl, ap, sym, ◌∙◌, List, [], Option, none, some,
  arith, ◌==◌, if◌then◌else◌, Bool-cases, inl, inr,
}
use mathlib.Core.Path.{subst}
use cs.Key.{Key, Value}
use cs.Key.Laws.{words_ord}
use cs.Key.Bytes.{value_layout}
use cs.Level.{Level, blank, level, stamp_block}
use cs.Tree.{leaf, entries}
use cs.BinaryTree.{LogEntry, new_tree, log_action, sync}
use cs.BinaryTree.LogFile.{Name, Log, no_log, unlogged, Holds, set_log_file, same_name}
use cs.BinaryTree.LogFile.Streams.{set_log_file-Holds, set_log_file_closed, name_of_same}
use cs.BinaryTree.Traversal.{dump-entries}
use cs.Bloom.{fresh}
use cs.Master.{Table, num_files, update}
use cs.Master.Boot.{Disk}
use cs.Setup.{dump_all, backup_name, make_backups, log_at, set_up}

-- The file that a dump of an empty tree makes.
abbrev pub empty_level : List ℕ → Level Key Value
empty_level time = level (stamp_block 128 time) []

module _ (clock : ℕ → List ℕ) (dummy : Key × Value) where
  -- Files from number `i` on are as they were, and the `n` before are empty.
  abbrev pub AreEmpty : ℕ → (ℕ → Level Key Value) → Type 0
  AreEmpty i files = (j : ℕ) → files j ≡ (if ltb j i then empty_level (clock j) else blank)

  one_empty :
      (i : ℕ) (files : ℕ → Level Key Value) (file : Level Key Value)
      → file ≡ empty_level (clock i)
      → AreEmpty i files
      → AreEmpty (i + 1) (update files i file)
  one_empty i files file is_empty h j = elim (Bool-cases (i == j)) [
    | inl e ↦
        let at : j ≡ i = ground arith in
        let lower : ltb j (i + 1) ≡ true = ground arith in
        ap (λ b. if b then file else files j) e
        ∙ is_empty
        ∙ ap (λ n. empty_level (clock n)) (sym at)
        ∙ sym (ap (λ b. if b then empty_level (clock j) else blank) lower)
    | inr ne ↦
        let same_side : ltb j i ≡ ltb j (i + 1) = ground arith in
        ap (λ b. if b then file else files j) ne
        ∙ h j
        ∙ ap (λ b. if b then empty_level (clock j) else blank) same_side
  ]

  dump_all_run :
      (n i : ℕ) (bt : Table) (files : ℕ → Level Key Value)
      → bt.root ≡ leaf
      → AreEmpty i files
      → (bt' : Table) × (files' : ℕ → Level Key Value) × (dump_all clock dummy n i bt files
          ≡ some (bt', files'))
        × AreEmpty (i + n) files'
  unfolding dump_all entries log_action
  dump_all_run zero i bt files e h = (
    bt,
    files,
    refl,
    λ j. h j ∙ ap (λ b. if b then empty_level (clock j) else blank) (ground arith),
  )
  dump_all_run (suc n) i bt files e h =
      let file = level (stamp_block 128 (clock i)) (entries bt.root) in
      let is_empty : file ≡ empty_level (clock i) =
        ap (λ t. level (stamp_block 128 (clock i)) (entries t)) e in
      let one_more : i + 1 + n ≡ i + suc n = omega arith in
      let (bt', files', ran, h') =
        dump_all_run n (i + 1)
          (log_action (record bt { traversal_started = false; stk = [] }) dummy.0 dummy.1 sync)
          (update files i file) e (one_empty i files file is_empty h) in
      (
        bt',
        files',
        rw (dump-entries 128 (clock i) dummy bt, dump_all) ran,
        subst (λ m. AreEmpty m files') one_more h',
      )

no_log-Holds : (disk : Name → Option (List (LogEntry Key Value))) → Holds (no_log disk) none
no_log-Holds disk = unlogged refl

abbrev log_of_content : Option (List (LogEntry Key Value)) → List (LogEntry Key Value)
log_of_content content = elim content [ none ↦ [] | some log ↦ log ]

make_backups_runs :
    (s : Log Key Value) {s1 s2 s3 : Log Key Value}
    → set_log_file (backup_name 0) s ≡ some s1
    → set_log_file (backup_name 1) s1 ≡ some s2
    → set_log_file [] s2 ≡ some s3
    → make_backups s ≡ some s3
unfolding make_backups
make_backups_runs s ran1 ran2 ran3 = rw (ran1, make_backups) (rw ran2 ran3)

make_backups_run :
    (s' : Log Key Value) × (make_backups (no_log (λ n. none)) ≡ some s')
    × ((i : ℕ) → log_at s' i ≡ [])
make_backups_run =
    let (s1, ran1, holds1, at1, here1, kept1) =
      set_log_file-Holds (backup_name 0) (no_log (λ n. none)) refl (no_log-Holds (λ n. none)) in
    let (s2, ran2, holds2, at2, here2, kept2) = set_log_file-Holds (backup_name 1) s1 refl holds1 in
    let (s3, ran3, disk3, _, _) = set_log_file_closed s2 [] holds2 in
    (
      s3,
      make_backups_runs (no_log (λ n. none)) ran1 ran2 ran3,
      λ i.
          ap (λ f. log_of_content (f (backup_name i))) disk3
          ∙ elim (Bool-cases (same_name (backup_name i) (backup_name 1))) [
            | inl e ↦
                ap (λ n. log_of_content (s2.disk n))
                  (name_of_same (backup_name i) (backup_name 1) e)
                ∙ ap log_of_content here2
            | inr ne ↦
                ap log_of_content (kept2 (backup_name i) ne)
                ∙ elim (Bool-cases (same_name (backup_name i) (backup_name 0))) [
                  | inl e ↦
                      ap (λ n. log_of_content (s1.disk n))
                        (name_of_same (backup_name i) (backup_name 0) e)
                      ∙ ap log_of_content here1
                  | inr ne0 ↦ ap log_of_content (kept1 (backup_name i) ne0)
                ]
          ],
    )

set_up_runs :
    (clock : ℕ → List ℕ) (dummy : Key × Value) {bt : Table} {files : ℕ → Level Key Value}
    {logs : Log Key Value}
    → dump_all clock dummy num_files 0 (new_tree none) (λ i. blank) ≡ some (bt, files)
    → make_backups (no_log (λ n. none)) ≡ some logs
    → set_up clock dummy
      ≡ some (record { files = files; logs = log_at logs; bloomdump = (fresh false).file })
unfolding set_up
set_up_runs clock dummy {files = files} ran1 ran2 =
    rw (ran1, set_up)
      (ap
        (λ x. x >>= λ logs.
          some (record { files = files; logs = log_at logs; bloomdump = (fresh false).file }))
        ran2)

-- The set-up ends, with ten level files that hold a time and no entry, two empty backups and the file of
-- an empty filter.
pub set_up_run :
    (clock : ℕ → List ℕ) (dummy : Key × Value)
    → (disk : Disk) × (set_up clock dummy ≡ some disk)
      × AreEmpty clock dummy num_files disk.files
      × ((i : ℕ) → disk.logs i ≡ [])
      × (disk.bloomdump ≡ (fresh false).file)
set_up_run clock dummy =
    let (bt, files, ran1, empty) =
      dump_all_run clock dummy num_files 0 (new_tree none) (λ i. blank) refl (λ j. ground arith) in
    let (logs, ran2, no_entry) = make_backups_run in
    (
      record { files = files; logs = log_at logs; bloomdump = (fresh false).file },
      set_up_runs clock dummy ran1 ran2,
      empty,
      no_entry,
      refl,
    )
