-- ===== src/Master/Race/Tests.antt =====
-- A read of the one key that is only in the oldest file, while a merge begins and ends.
use cs.Prelude.{ℕ, true, ◌≡◌, ◌⊎◌, refl, [], some, arith, length-replicate}
use cs.Layout.{is_tomb, all_tomb}
use cs.Assoc.{find, or_else}
use cs.Key.{Key, Value, lt_words}
use cs.Key.Laws.{words_ord}
use cs.Key.Bytes.{value_layout}
use cs.Level.{Level, level, entries_of}
use cs.BinaryTree.Traversal.{dump-entries}
use cs.Bloom.{fresh, fresh_sized, short_at, test_slot, get_key}
use cs.Tree.{search_node, descend, differs}
use cs.Tree.Lookup.{read}
use cs.Tree.{entries}
use cs.BinaryTree.{insert}
use cs.Level.{stamp_block}
use cs.Merge.Files.{merge_files-merged, stamp_of}
use cs.Merge.Reference.{live_value, merged}
use cs.Read.Searcher.{Searcher}
use cs.Master.{Master}
use cs.Master.Race.{
  Job, merging, dumping, World, put_file, close_job, Pc, first, done, advance_reader, enter,
  is_timely, begins, merges, finishes, Race, start, moves, shares,
}
use cs.Master.Race.Moves.{with}
use cs.Master.Race.View.{value_in, IsSound}
use cs.Master.Race.Place.{Wrote}
use cs.Master.Race.Turns.{run_turns, run_turns-Race}
use cs.Master.Race.Answers.{IsValid-IsSound, read_answer, read_total}
use cs.Master.{adjust}
use cs.Master.View.{stored}
use cs.Master.Kept.{IsKept}
use cs.Master.Reads.{dbread-stored}
use cs.Master.Merges.{adjust-stored}
use cs.Master.Race.{Move}
use cs.Master.Race.Steps.{Move-Follows}
use cs.Master.Race.Alone.{dbread_alone, adjust_alone}
use cs.Master.Samples
use cs.Samples.{word_key, stamp}
use cs.Master.Samples.{idle-IsValid, store, store-IsValid, empty, paged, unused, unused-IsIdle}

-- The search that reads the entries themselves.
abbrev plain : Searcher
plain = record {
  State = Unit {0};
  IsSound = λ s. Unit {0};
  find_in = λ file k s. some (find k (entries_of file), s);
  finds = λ file k s stored sound. (s, refl, tt);
}

abbrev w0 : World
w0 = record { store = store; job = Job.idle }

w0-IsSound : IsSound w0
w0-IsSound = IsValid-IsSound store store-IsValid

abbrev key : Key
key = word_key 3

entered : enter plain key store tt ≡ some (first 9 9 tt)
unfolding enter get_key short_at test_slot fresh fresh_sized read search_node descend insert
    lt_words differs
entered = refl

half_way : Race plain (is_timely plain) key w0 (first 9 9 tt) [] w0 (first 9 5 tt)
unfolding run_turns advance_reader lt_words
half_way = run_turns-Race plain 4 key (first 9 9 tt) refl start

-- Another read searches file 7 in between.
shared_way : Race plain (is_timely plain) key w0 (first 9 9 tt) [] w0 (first 9 5 tt)
shared_way = shares (store.filesys 7) (word_key 1) half_way (store-IsValid.files 7) refl refl

-- A merge of file 1 with the oldest file, 0; then the reserve, an empty table, is dumped over file 0.
abbrev copied : World
copied = record {
  store = record store { tempfile = store.filesys 1 };
  job = merging (store.filesys 1);
}

abbrev new_file : Level Key Value
new_file =
    level (stamp_of stamp (store.filesys 1))
      (merged (entries_of (store.filesys 0)) (entries_of (store.filesys 1)))

abbrev half_merged : World
half_merged = record { store = put_file 1 new_file copied.store; job = dumping }

abbrev dumped_file : Level Key Value
dumped_file = level (stamp_block 128 []) (entries empty.root)

abbrev closed : World
closed = record { store = close_job (put_file 0 dumped_file half_merged.store); job = Job.idle }

merge_way : Race plain (is_timely plain) key w0 (first 9 9 tt) [] half_merged (first 9 5 tt)
merge_way = moves (moves half_way (begins refl refl refl)) (
    merges stamp (word_key 0, word_key 0) (length-replicate {A = ℕ} 128 48) refl
      (merge_files-merged 7 stamp (word_key 0, word_key 0) (store.filesys 1) (store.filesys 0)
        (omega arith)))

whole_way : Race plain (is_timely plain) key w0 (first 9 9 tt) [] closed (done (some (word_key 31)))
unfolding run_turns advance_reader lt_words is_tomb all_tomb
whole_way = run_turns-Race plain 7 key (first 9 5 tt) refl (
    moves merge_way (
      finishes [] (word_key 0, word_key 0) (omega arith) refl refl
        (dump-entries 128 [] (word_key 0, word_key 0) empty)))

read_answer_example :
    (live_value (some (word_key 31)) ≡ live_value (value_in key w0))
    ⊎ ((v : Value) × (some (word_key 31) ≡ some v) × Wrote key v [])
read_answer_example = read_answer plain key tt w0-IsSound tt entered whole_way

read_total_example :
    IsSound half_merged
    × (pc' : Pc plain) × (advance_reader plain key half_merged (first 9 5 tt) ≡ some pc')
read_total_example = read_total plain key tt w0-IsSound tt entered merge_way

-- With the block buffers.
dbread_alone_example :
    (pc : Pc paged) × (enter paged key Samples.idle unused ≡ some pc)
    × (n : ℕ) × (run_turns paged n key (with Samples.idle Job.idle) pc
        ≡ some (done (stored key Samples.idle)))
dbread_alone_example =
    dbread_alone paged key (with Samples.idle Job.idle) unused refl
      (dbread-stored paged key Samples.idle unused idle-IsValid unused-IsIdle).1

abbrev after_adjust :
    (m : Master) × (adjust [] (word_key 0, word_key 0) stamp (word_key 0, word_key 0) store
      ≡ some m)
after_adjust =
    let (m, ran, _, _, _) =
      adjust-stored [] (word_key 0, word_key 0) stamp (word_key 0, word_key 0) store (omega arith)
        (length-replicate {A = ℕ} 128 48) store-IsValid refl in
    (m, ran)

adjust_alone_example :
    (w1 w2 : World) × Move true (with store Job.idle) [] w1
    × Move true w1 [] w2
    × Move true w2 [] (with (after_adjust.0) Job.idle)
adjust_alone_example =
    adjust_alone [] (word_key 0, word_key 0) stamp (word_key 0, word_key 0) (omega arith)
      (length-replicate {A = ℕ} 128 48) after_adjust.1

Move-Follows_example :
    IsSound copied × ((k : Key) → IsKept (or_else (find k []) (value_in k w0)) (value_in k copied))
Move-Follows_example = Move-Follows {free = true} (begins refl refl refl) w0-IsSound
