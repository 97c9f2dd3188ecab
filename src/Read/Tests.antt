-- ===== src/Read/Tests.antt =====
-- `findEntry` on a sample file of three entries.
use cs.Prelude.{ℕ, ◌≡◌, refl, List, [], ◌++◌, some, arith, length-replicate, if◌then◌else◌, ◌==◌}
use cs.Assoc.{find}
use cs.Key.Laws.{words_ord}
use cs.FileIo.{Buffer, initial}
use cs.FileIo.Reads.{IsValid}
use cs.FileIo.Close.{initial-IsValid}
use cs.Read.{find_entry}
use cs.Read.Slots.{IsImage}
use cs.Read.Paged.{file_pager, words_image, entries_bytes, written-IsImage, find_entry-written}
use cs.Samples.{word_key, older, older-IsSorted, older-AllInRange, stamp}

abbrev files : ℕ → List ℕ
files h = if h == 3 then stamp ++ entries_bytes older else []

start-IsValid : IsValid files (initial 2)
start-IsValid = initial-IsValid files 2 (omega arith)

find_entry-written_example :
    (b' : Buffer) × (find_entry
        (file_pager files)
        words_image
        words_image
        3
        (word_key 2)
        (initial 2)
      ≡ some (find (word_key 2) older, b'))
    × IsValid files b'
find_entry-written_example =
    find_entry-written files 3 stamp older (word_key 2) (initial 2) refl
      (length-replicate {A = ℕ} 128 48) older-AllInRange older-IsSorted start-IsValid

image : IsImage (file_pager files) words_image words_image 3 older
image = written-IsImage files 3 stamp older refl (length-replicate {A = ℕ} 128 48) older-AllInRange
