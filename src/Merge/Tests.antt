-- ===== src/Merge/Tests.antt =====
-- `merge_files` on two sample files: a key of both files, and a tombstone.
use cs.Prelude.{◌≡◌, refl, [], ◌∷◌, some, arith}
use cs.Assoc.{find, IsSorted, or_else}
use cs.Key.{Key, Value, lt_words}
use cs.Key.Laws.{words_ord}
use cs.Key.Bytes.{value_layout}
use cs.Layout.{is_tomb, all_tomb}
use cs.Level.{Level, entries_of}
use cs.Merge.{merge_files}
use cs.Merge.Reference.{live_value, merged}
use cs.Merge.Files.{merge_files-find}
use cs.Samples.{word_key, older, newer, older_file, newer_file, older-IsSorted, newer-IsSorted}

merged_sample :
    merged older newer
    ≡ (word_key 1, word_key 10) ∷ (word_key 3, word_key 31) ∷ (word_key 5, word_key 51) ∷ []
unfolding is_tomb all_tomb lt_words
merged_sample = refl

merge_files-find_example :
    (file : Level Key Value) × (merge_files 7
        (0 ∷ [])
        (word_key 0, word_key 0)
        newer_file
        older_file
      ≡ some file)
    × IsSorted (entries_of file)
    × ((q : Key) → find q (entries_of file) ≡ live_value (or_else (find q newer) (find q older)))
merge_files-find_example =
    merge_files-find 7 (0 ∷ []) (word_key 0, word_key 0) newer_file older_file (omega arith)
      newer-IsSorted older-IsSorted
