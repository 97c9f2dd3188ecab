-- ===== src/Master/Merges.antt =====
-- What `adjust` of master.cpp promises: the reserve reaches the level files, and no value is lost.
use cs.Prelude.{
  ℕ, suc, ◌+◌, ◌-◌, ◌%◌, ◌≡◌, ◌==◌, refl, ap, sym, ◌∙◌, List, [], none, some, length, arith,
  Bool-cases, inl, inr,
}
use cs.Key.{Key, Value}
use cs.Key.Laws.{words_ord}
use cs.Key.Bytes.{value_layout}
use cs.Level.{Level, blank, entries_of}
use cs.Prelude.{◌≤◌, replicate, length-append, length-replicate}
use cs.Tree.{entries}
use cs.Tree.Order.{entries-IsSorted}
use cs.Tree.Lookup.{read-lookup, lookup-find}
use cs.Assoc.Each.{Each-merged, Each-entries}
use cs.Level.{level, stamp_block}
use cs.Merge.Reference.{merged, IsSorted-merged, find-merged}
use cs.Merge.Files.{merge_files-merged, stamp_of}
use cs.BinaryTree.Traversal.{dump-entries}
use cs.Read.Paged.{EntryInRange}
use cs.Read.Searcher.{IsStored, IsStored-IsSorted, IsStored-AllInRange}
use cs.Master.{Master, Table, num_files, update, get_reserve, adjust}
use cs.Master.View.{IsValidTable, stored, IsValid}
use cs.Master.Kept.{IsKept, IsKept-some}
use cs.Master.Adjusted.{adjusted, adjust_run, adjusted-IsKept}

update-IsStored :
    (files : ℕ → Level Key Value) (i : ℕ) (f : Level Key Value)
    → IsStored f
    → ((j : ℕ) → IsStored (files j))
    → (j : ℕ) → IsStored (update files i f j)
update-IsStored files i f s h j = elim (Bool-cases (i == j)) [
  | inl e ↦ rw (e, update) s
  | inr ne ↦ rw (ne, update) (h j)
]

stamp_of-length :
    (unset : List ℕ) (file : Level Key Value)
    → length unset ≡ 128
    → IsStored file
    → length (stamp_of unset file) ≡ 128
stamp_of-length unset blank u h = u
stamp_of-length unset (level stamp es) u h = h.0

-- The two new files of `adjust`.
pub merged-IsStored :
    (unset : List ℕ) (file2 file1 : Level Key Value)
    → length unset ≡ 128
    → IsStored file2
    → IsStored file1
    → IsStored (level (stamp_of unset file2) (merged (entries_of file1) (entries_of file2)))
merged-IsStored unset file2 file1 u h2 h1 = (
  stamp_of-length unset file2 u h2,
  IsSorted-merged (entries_of file1) (entries_of file2) (IsStored-IsSorted file1 h1)
      (IsStored-IsSorted file2 h2),
  Each-merged EntryInRange (entries_of file1) (entries_of file2) (IsStored-AllInRange file1 h1)
      (IsStored-AllInRange file2 h2),
)

pub dumped-IsStored :
    (time : List ℕ) (t : Table)
    → length time ≤ 128
    → IsValidTable t
    → IsStored (level (stamp_block 128 time) (entries t.root))
dumped-IsStored time t l h = (
  omega (
    arith,
    length-append time (replicate (128 - length time) b'0'),
    length-replicate {A = ℕ} (128 - length time) b'0',
  ),
  entries-IsSorted t.root h.0.ordered,
  Each-entries EntryInRange t.root h.1,
)

-- What `adjust` does beside the level files: the reserve and the log of it are gone, the table and the
-- filter are as they were.
abbrev pub Untouched : Master → Master → Type 0
Untouched m m' =
    (m'.reserve ≡ none)
    × (m'.bloom ≡ m.bloom)
    × (m'.bintree ≡ m.bintree)
    × (m'.backups ≡ update m.backups ((m.current + 1) % 2) [])

-- From a valid state with a reserve `adjust` ends, without a fault, in a valid state with no reserve,
-- an empty backup of it, and the same table and filter. Every key has the value that it had, but for a
-- tombstone, whose key may have none. The text of the time is not longer than the first block of a file.
pub adjust-stored :
    (time : List ℕ) (dummy : Key × Value) (unset : List ℕ) (e : Key × Value) (m : Master)
    {t : Table}
    → length time ≤ 128
    → length unset ≡ 128
    → IsValid m
    → m.reserve ≡ some t
    → (m' : Master) × (adjust time dummy unset e m ≡ some m')
      × IsValid m'
      × Untouched m m'
      × ((k : Key) → IsKept (stored k m) (stored k m'))
adjust-stored time dummy unset e m {t} short whole h held =
    let file1 = m.filesys ((m.recent + 1) % num_files) in
    let file2 = m.filesys ((m.recent + 2) % num_files) in
    let h1 : IsStored file1 = h.files _ in
    let h2 : IsStored file2 = h.files _ in
    let new = level (stamp_of unset file2) (merged (entries_of file1) (entries_of file2)) in
    let dumped = level (stamp_block 128 time) (entries t.root) in
    let merge =
      merge_files-merged (suc (length (entries_of file1) + length (entries_of file2))) unset e file2
        file1 (omega arith) in
    let valid = h.handed_over t held in
    let m' = adjusted new dumped m in
    let kept : (k : Key) → IsKept (stored k m) (stored k m') = λ k.
      adjusted-IsKept m new dumped k h.in_ring
        (sym (read-lookup k t.root ∙ lookup-find k t.root valid.0.ordered)
          ∙ ap (get_reserve k) (sym held))
        (find-merged k (entries_of file1) (entries_of file2) (IsStored-IsSorted file1 h1)
          (IsStored-IsSorted file2 h2)) in
    (
      m',
      adjust_run time dummy unset e m held merge (dump-entries 128 time dummy t),
      record {
        table = h.table;
        handed_over = λ s none_left. cc;
        files =
            update-IsStored (update m.filesys ((m.recent + 2) % num_files) new)
              ((m.recent + 1) % num_files) dumped (dumped-IsStored time t short valid)
              (update-IsStored m.filesys ((m.recent + 2) % num_files) new
                (merged-IsStored unset file2 file1 whole h2 h1) h.files);
        in_ring = omega arith;
        filter = h.filter;
        known = λ k there. h.known k (IsKept-some (kept k) there);
      },
      (refl, refl, refl, refl),
      kept,
    )
