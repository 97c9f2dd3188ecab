-- ===== src/Master/Recovery.antt =====
-- What the constructor of `Master` in master.cpp promises: what it makes of the files and the logs.
use cs.Prelude.{
  ℕ, ◌+◌, ◌%◌, ◌<◌, ◌≤◌, true, ◌≡◌, refl, ap, ap₂, sym, ◌∙◌, List, [], none, some, length, arith,
  some_inj,
}
use mathlib.Core.Path.{subst}
use cs.Assoc.{or_else}
use cs.Key.{Key, Value}
use cs.Key.Laws.{words_ord}
use cs.Key.Bytes.{value_layout, InRange, fill}
use cs.BinaryTree.{LogEntry, new_tree}
use cs.BinaryTree.Methods.{get}
use cs.BinaryTree.Log.{restore_into}
use cs.BinaryTree.Log.Recovery.{from_file-restore, restore_into-IsValid}
use cs.BinaryTree.Log.Words.{EachLogged, restore_into-EachNode}
use cs.Bloom.{BloomFile, get_key, load}
use cs.Bloom.Disk.{fresh-IsValid}
use cs.Read.Paged.{EntryInRange}
use cs.Read.Searcher.{IsStored}
use cs.Master.{Master, Table, num_files, update, get_reserve}
use cs.Master.Rounds.{down, chain}
use cs.Master.View.{stored, IsValid, IsValidTable}
use cs.Master.Reads.{get_new}
use cs.Master.Merges.{Untouched, adjust-stored}
use cs.Master.Kept.{IsKept, IsKept-or_else, IsKept-trans}
use cs.Master.Recent.{find_recent-lt}
use cs.Master.Boot.{Disk, Outside, time_at, find_recent, restore, unbooted, boot}

-- What the constructor relies on: blocks and texts of the length that they have in the code, and words of
-- 64 bits in the files and the logs.
pub record IsReadable (a : Outside) (disk : Disk) : Type 0 where
  pub short : (i : ℕ) → length (a.clock i) ≤ 128
  pub whole : length a.block ≡ 128
  pub buffer : EntryInRange (a.buff.key, a.buff.value)
  pub files : (i : ℕ) → IsStored (disk.files i)
  pub logs : (i : ℕ) → EachLogged EntryInRange (disk.logs i)

tomb-InRange : InRange 8 (fill 8 255)
tomb-InRange = (
  omega arith,
  (
    omega arith,
    (omega arith, (omega arith, (omega arith, (omega arith, (omega arith, (omega arith, tt)))))),
  ),
)

-- The table that `fromFile` makes of a backup.
abbrev pub table_of : Outside → List (LogEntry Key Value) → Table
table_of a log = restore_into a.value log a.buff (new_tree (some []))

table_of-IsValidTable :
    (a : Outside) (log : List (LogEntry Key Value))
    → EntryInRange (a.buff.key, a.buff.value)
    → EachLogged EntryInRange log
    → IsValidTable (table_of a log)
table_of-IsValidTable a log b h = (
  restore_into-IsValid a.value log a.buff (new_tree (some []))
      (record { ordered = tt; counted = refl }),
  restore_into-EachNode EntryInRange a.value (λ j v p. (p.0, tomb-InRange)) log a.buff
      (new_tree (some [])) h b tt,
)

abbrev AlwaysYes : Master → Type 0
AlwaysYes m = (k : Key) → get_key k m.bloom ≡ some true

-- The state in which `adjust` begins.
abbrev filled : Outside → ℕ → Master → Master
filled a i m = record m { reserve = some (table_of a (m.backups i)); current = (i + 1) % 2 }

filled-IsValid :
    (a : Outside) (i : ℕ) (m : Master)
    → EntryInRange (a.buff.key, a.buff.value)
    → EachLogged EntryInRange (m.backups i)
    → AlwaysYes m
    → IsValid m
    → IsValid (filled a i m)
filled-IsValid a i m b h always v = record {
  table = v.table;
  handed_over = λ t e. subst IsValidTable (some_inj e) (table_of-IsValidTable a (m.backups i) b h);
  files = v.files;
  in_ring = v.in_ring;
  filter = v.filter;
  known = λ k e. always k;
}

restore-stored :
    (a : Outside) (i : ℕ) (m : Master) {log : List (LogEntry Key Value)}
    → length (a.clock i) ≤ 128
    → length a.block ≡ 128
    → EntryInRange (a.buff.key, a.buff.value)
    → m.backups i ≡ log
    → EachLogged EntryInRange log
    → AlwaysYes m
    → IsValid m
    → (m' : Master) × (restore a i m ≡ some m')
      × IsValid m'
      × Untouched (filled a i m) m'
      × ((k : Key) → IsKept (stored k (filled a i m)) (stored k m'))
unfolding restore
restore-stored a i m short whole b at h always v =
    let h' = subst (EachLogged EntryInRange) (sym at) h in
    let (m', ran, valid, rest, kept) =
      adjust-stored (a.clock i) a.dummy a.block a.entry (filled a i m) short whole
        (filled-IsValid a i m b h' always v) refl in
    (
      m',
      rw (from_file-restore a.value (m.backups i) a.buff (new_tree (some [])), restore) ran,
      valid,
      rest,
      kept,
    )

filled-stored :
    (a : Outside) (i : ℕ) (m : Master) {log : List (LogEntry Key Value)} (k : Key)
    → m.backups i ≡ log
    → m.bintree ≡ new_tree none
    → m.reserve ≡ none
    → stored k (filled a i m) ≡ or_else (get k (table_of a log)) (stored k m)
filled-stored a i m k at fresh_tree no_reserve =
    let c = chain m.filesys (down num_files m.recent) k in
    let absent : get k m.bintree ≡ none = ap (get k) fresh_tree ∙ get_new k none in
    let files_only : stored k m ≡ c =
      ap (λ g. or_else g (or_else (get_reserve k m.reserve) c)) absent
      ∙ ap (λ r. or_else (get_reserve k r) c) no_reserve in
    ap (λ g. or_else g (or_else (get k (table_of a (m.backups i))) c)) absent
    ∙ ap₂ (λ l x. or_else (get k (table_of a l)) x) at (sym files_only)

unbooted-IsValid : (a : Outside) (disk : Disk) → IsReadable a disk → IsValid (unbooted a disk)
unbooted-IsValid a disk h = record {
  table = (record { ordered = tt; counted = refl }, tt);
  handed_over = λ t e. cc;
  files = h.files;
  in_ring = find_recent-lt num_files 0 (time_at a disk.files) (omega arith);
  filter = (fresh-IsValid true).0;
  known = λ k e. (fresh-IsValid true).1 k;
}

boot_run :
    (a : Outside) (disk : Disk) {m1 m2 : Master} {b : BloomFile}
    → restore a 0 (unbooted a disk) ≡ some m1
    → restore a 1 m1 ≡ some m2
    → load disk.bloomdump ≡ some b
    → boot a disk
      ≡ some (record m2 {
        current = 0;
        bintree = new_tree (some []);
        backups = update m2.backups 0 [];
        bloom = b;
      })
unfolding boot
boot_run a disk e1 e2 e3 = rw (e1, boot) (rw e2 (rw e3))

-- The constructor of `Master` on readable files and a whole filter ends without a fault. There is no
-- reserve, both backups and the table are empty, the filter is the loaded one, the level files are as a search needs them, and every
-- key has the value that the table of `backup1` gives, or else that of `backup0`, or else the level
-- files from the most recent one on, but for a tombstone, whose key may have none.
pub boot-stored :
    (a : Outside) (disk : Disk) {b : BloomFile}
    → IsReadable a disk
    → load disk.bloomdump ≡ some b
    → (m : Master) × (boot a disk ≡ some m)
      × (m.reserve ≡ none)
      × ((m.backups 0 ≡ []) × (m.backups 1 ≡ []))
      × ((m.bintree ≡ new_tree (some [])) × (m.bloom ≡ b))
      × ((i : ℕ) → IsStored (m.filesys i))
      × (m.recent < num_files)
      × ((k : Key)
          → IsKept
              (or_else (get k (table_of a (disk.logs 1))) (
                or_else (get k (table_of a (disk.logs 0))) (
                  chain disk.files
                    (down num_files (find_recent num_files 0 (time_at a disk.files)))
                    k)))
              (stored k m))
boot-stored a disk {b} h loaded =
    let m0 = unbooted a disk in
    let (m1, ran1, valid1, (no_reserve1, bloom1, tree1, backups1), kept1) =
      restore-stored a 0 m0 (h.short 0) h.whole h.buffer refl (h.logs 0) (fresh-IsValid true).1
        (unbooted-IsValid a disk h) in
    let always1 : AlwaysYes m1 = λ k. ap (get_key k) bloom1 ∙ (fresh-IsValid true).1 k in
    let log1 : m1.backups 1 ≡ disk.logs 1 = ap (λ f. f 1) backups1 in
    let (m2, ran2, valid2, (no_reserve2, bloom2, tree2, backups2), kept2) =
      restore-stored a 1 m1 (h.short 1) h.whole h.buffer log1 (h.logs 1) always1 valid1 in
    let c2 = λ (k : Key).
      or_else (get_reserve k m2.reserve) (chain m2.filesys (down num_files m2.recent) k) in
    let same_map = λ (k : Key).
      ap (λ g. or_else g (c2 k))
        (get_new k (some []) ∙ sym (ap (get k) (tree2 ∙ tree1) ∙ get_new k none)) in
    let old = λ (k : Key).
      filled-stored a 0 m0 k refl refl refl
      ∙ ap (or_else (get k (table_of a (disk.logs 0)))) (files_only a disk k) in
    (
      record m2 {
        current = 0;
        bintree = new_tree (some []);
        backups = update m2.backups 0 [];
        bloom = b;
      },
      boot_run a disk ran1 ran2 loaded,
      no_reserve2,
      (refl, ap (λ f. f 1) backups2),
      (refl, refl),
      valid2.files,
      valid2.in_ring,
      λ k. subst (IsKept _) (sym (same_map k)) (
          IsKept-trans
            (IsKept-or_else (get k (table_of a (disk.logs 1)))
              (subst (λ x. IsKept x (stored k m1)) (old k) (kept1 k)))
            (subst (λ x. IsKept x (stored k m2)) (filled-stored a 1 m1 k log1 tree1 no_reserve1)
              (kept2 k))),
    )
  where
    files_only :
        (a : Outside) (disk : Disk) (k : Key)
        → stored k (unbooted a disk)
          ≡ chain disk.files (down num_files (find_recent num_files 0 (time_at a disk.files))) k
    files_only a disk k =
        ap
          (λ g.
            or_else g (
              chain disk.files (down num_files (find_recent num_files 0 (time_at a disk.files))) k))
          (get_new k none)
