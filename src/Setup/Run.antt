-- ===== src/Setup/Run.antt =====
-- The set-up program, then the constructor of `Master`, then any run of the store.
use cs.Prelude.{
  ℕ, ◌-◌, ◌≤◌, false, ltb, ◌≡◌, refl, ap, ap₂, sym, ◌∙◌, List, [], ◌∷◌, Option, none, some, length,
  replicate, length-append, length-replicate, arith, if◌then◌else◌, Bool-cases, inl, inr, some_inj,
}
use mathlib.Core.Path.{subst}
use cs.Assoc.{find, or_else}
use cs.Key.{Key, Value}
use cs.Key.Laws.{words_ord}
use cs.Key.Bytes.{value_layout}
use cs.Level.{Level, blank, entries_of}
use cs.BinaryTree.Methods.{get}
use cs.BinaryTree.Log.{restore_into}
use cs.BinaryTree.Log.Words.{EachLogged}
use cs.Bloom.{fresh, load}
use cs.Bloom.Membership
use cs.Bloom.Disk.{fresh-IsValid, load-file}
use cs.Merge.Reference.{live_value}
use cs.Read.Paged.{EntryInRange}
use cs.Read.Searcher.{Searcher, IsStored}
use cs.Master.{Master, num_files, dbread}
use cs.Master.Boot.{Disk, Outside, boot}
use cs.Master.Kept.{IsKept, or_else-none}
use cs.Master.Reads.{get_new}
use cs.Master.Recovery.{IsReadable, table_of, boot-stored}
use cs.Master.Rounds.{chain}
use cs.Master.Steps.{Reach, dbread-Reach}
use cs.Master.View.{IsValidTable, IsValid, stored}
use cs.Master.Serve.{get_lines}
use cs.Master.Serve.Threads.{Program, run, main, Serial}
use cs.Master.Serve.Outputs.{Spec, AllGood}
use cs.Master.Serve.Run.{run-Spec}
use cs.Setup.{set_up}
use cs.Setup.Empty.{empty_level, AreEmpty, set_up_run}

chain_empty :
    (files : ℕ → Level Key Value) (is : List ℕ) (k : Key)
    → ((i : ℕ) → entries_of (files i) ≡ [])
    → chain files is k ≡ none
unfolding chain
chain_empty files [] k h = refl
chain_empty files (i ∷ is) k h = ap₂ or_else (ap (find k) (h i)) (chain_empty files is k h)

-- What the constructor takes from outside has the lengths and the words that it has in the code.
pub record IsSized (a : Outside) : Type 0 where
  pub short : (i : ℕ) → length (a.clock i) ≤ 128
  pub whole : length a.block ≡ 128
  pub buffer : EntryInRange (a.buff.key, a.buff.value)

module _ (clock : ℕ → List ℕ) (dummy : Key × Value) (short : (i : ℕ) → length (clock i) ≤ 128) where
  no_entries :
      (files : ℕ → Level Key Value)
      → AreEmpty clock dummy num_files files
      → (i : ℕ) → entries_of (files i) ≡ []
  no_entries files h i = ap (λ f. entries_of f) (h i) ∙ elim (Bool-cases (ltb i num_files)) [
    | inl e ↦ ap (λ b. entries_of (if b then empty_level (clock i) else blank)) e
    | inr ne ↦ ap (λ b. entries_of (if b then empty_level (clock i) else blank)) ne
  ]

  files-IsStored :
      (files : ℕ → Level Key Value)
      → AreEmpty clock dummy num_files files
      → (i : ℕ) → IsStored (files i)
  files-IsStored files h i = subst IsStored (sym (h i)) (elim (Bool-cases (ltb i num_files)) [
    | inl e ↦
        subst (λ b. IsStored (if b then empty_level (clock i) else blank)) (sym e)
          (
            omega (
              arith,
              short i,
              length-append (clock i) (replicate (128 - length (clock i)) 48),
              length-replicate {A = ℕ} (128 - length (clock i)) 48,
            ),
            tt,
            tt,
          )
    | inr ne ↦ subst (λ b. IsStored (if b then empty_level (clock i) else blank)) (sym ne) tt
  ])

  booted_empty :
      (a : Outside) (k : Key) (disk : Disk) (is : List ℕ) (m : Master)
      → AreEmpty clock dummy num_files disk.files
      → ((i : ℕ) → disk.logs i ≡ [])
      → IsKept
          (or_else
            (get k (table_of a (disk.logs 1)))
            (or_else (get k (table_of a (disk.logs 0))) (chain disk.files is k)))
          (stored k m)
      → stored k m ≡ none
  unfolding restore_into
  booted_empty a k disk is m empty no_entry kept =
      let nothing =
        λ (i : ℕ). ap (λ log. get k (table_of a log)) (no_entry i) ∙ get_new k (some []) in
      let before : or_else (get k (table_of a (disk.logs 1)))
            (or_else (get k (table_of a (disk.logs 0))) (chain disk.files is k))
          ≡ none =
        ap₂ or_else (nothing 1)
          (ap₂ or_else (nothing 0) (chain_empty disk.files is k (no_entries disk.files empty))) in
      elim kept [ inl e ↦ e ∙ before | inr (gone, _, _, _) ↦ gone ]

  -- After the set-up the constructor of `Master` ends in a valid state with no reserve, in which no key has
  -- a value. The texts of the times and what stands in unset variables are as long as in the code.
  pub set_up-boot :
      (a : Outside)
      → IsSized a
      → (disk : Disk) × (m : Master) × (set_up clock dummy ≡ some disk)
        × (boot a disk ≡ some m)
        × IsValid m
        × (m.reserve ≡ none)
        × ((k : Key) → stored k m ≡ none)
  set_up-boot a sized =
      let (disk, ran, empty, no_entry, filter) = set_up_run clock dummy in
      let b = fresh false in
      let readable : IsReadable a disk = record {
        short = sized.short;
        whole = sized.whole;
        buffer = sized.buffer;
        files = files-IsStored disk.files empty;
        logs = λ i. subst (EachLogged EntryInRange) (sym (no_entry i)) tt;
      } in
      let loaded : load disk.bloomdump ≡ some b =
        ap load filter ∙ (load-file b (fresh-IsValid false).0).0 in
      let (m, booted, no_reserve, no_logs, (new_table, loaded_filter), files, in_ring, kept) =
        boot-stored a disk readable loaded in
      let nothing : (k : Key) → stored k m ≡ none =
        λ k. booted_empty a k disk _ m empty no_entry (kept k) in
      (
        disk,
        m,
        ran,
        booted,
        record {
          table = subst IsValidTable (sym new_table) (record { ordered = tt; counted = refl }, tt);
          handed_over = λ t e. let clash : none ≡ some t = sym no_reserve ∙ e in cc;
          files = files;
          in_ring = in_ring;
          filter = subst Membership.IsValid (sym loaded_filter) (fresh-IsValid false).0;
          known = λ k {v} e. let clash : none ≡ some v = sym (nothing k) ∙ e in cc;
        },
        no_reserve,
        nothing,
      )

-- A store that the set-up program made and the constructor opened is a map: after any run of writes,
-- hand-overs and merges a read ends, and what it answers is the value that was written last for the key,
-- where a tombstone is as good as no value.
pub fresh_store-Reach :
    (clock : ℕ → List ℕ) (dummy : Key × Value) (a : Outside) (searcher : Searcher) (k : Key)
    (s : searcher.State) {disk : Disk} {m0 m : Master} {h : List (Key × Value)}
    → ((i : ℕ) → length (clock i) ≤ 128)
    → IsSized a
    → set_up clock dummy ≡ some disk
    → boot a disk ≡ some m0
    → Reach m0 h m
    → searcher.IsSound s
    → (answer : Option Value) × (s' : searcher.State) × (dbread searcher k m s ≡ some (answer, s'))
      × (live_value answer ≡ live_value (find k h))
fresh_store-Reach clock dummy a searcher k s {m0 = m0} {h = h} short sized made booted run sound =
    let (disk1, m1, made1, booted1, valid, no_reserve, nothing) =
      set_up-boot clock dummy short a sized in
    let same_disk = some_inj (sym made1 ∙ made) in
    let same_store : m1 ≡ m0 = some_inj (sym booted1 ∙ ap (boot a) same_disk ∙ booted) in
    let (answer, s', ran, sound', live) =
      dbread-Reach searcher k s (subst IsValid same_store valid) run sound in
    let none_before : stored k m0 ≡ none = ap (stored k) (sym same_store) ∙ nothing k in
    (
      answer,
      s',
      ran,
      live
          ∙ ap (λ x. live_value (or_else (find k h) x)) none_before
          ∙ ap (λ x. live_value x) (or_else-none (find k h)),
    )

-- The whole program after the set-up, in its serial runs: those in which a line of a batch file is done,
-- and so is a merge, with no step of another thread between its own, while the lines of the files and the
-- merges come in any order. What the threads have written is what one map, empty at first, answers to the
-- lines that they have done, in some order that keeps the order of each file; and the store has the values
-- of that map. The files have bytes, no line writes a tombstone, the buffers are sound at the start, the
-- texts of the times and what stands in unset variables are as long as in the code, and a line whose cuts
-- fault is not done.
pub main-Spec :
    (clock : ℕ → List ℕ) (dummy : Key × Value) (a : Outside) (searcher : Searcher)
    (s : searcher.State) (files : ℕ → List ℕ) {disk : Disk} {p0 p : Program searcher}
    → ((i : ℕ) → length (clock i) ≤ 128)
    → IsSized a
    → searcher.IsSound s
    → ((i : ℕ) → AllGood (get_lines (files i)))
    → set_up clock dummy ≡ some disk
    → main searcher a disk s files ≡ some p0
    → Serial searcher p0 p
    → (h : List (Key × Value)) × Spec (λ i. get_lines (files i)) h p.rest p.outs
      × ((k : Key) → stored k p.store ≡ find k h)
unfolding main
main-Spec clock dummy a searcher s files {p0 = p0} {p = p} short sized sound good made began
      serial =
    let (disk1, m1, made1, booted1, valid, no_reserve, nothing) =
      set_up-boot clock dummy short a sized in
    let same_disk = some_inj (sym made1 ∙ made) in
    let starts : main searcher a disk1 s files ≡ some (run searcher m1 s files) =
      rw (booted1, main) refl in
    let same_start : p0 ≡ run searcher m1 s files =
      some_inj (sym began ∙ ap (λ d. main searcher a d s files) (sym same_disk) ∙ starts) in
    run-Spec searcher m1 s files valid nothing sound good
      (subst (λ x. Serial searcher x p) same_start serial)
