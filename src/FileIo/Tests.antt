-- ===== src/FileIo/Tests.antt =====
-- The buffers of FileIO.cpp on a sample file.
use cs.Prelude.{refl, none, ◌≤◌, ℕ, ◌*◌, ◌≡◌, List, [], ◌∷◌, some, arith, if◌then◌else◌, ◌==◌}
use cs.FileIo.{
  Frame, Buffer, first_index, is_free, holds, pop_back, clear_at, evict_lru, allocate_block, memcpy,
  read_block, copy, fread, close_file, initial, empty_frame,
}
use cs.FileIo.Recency.{since}
use cs.FileIo.Evict.{front, Uses, begun, reads, evicts_oldest_use}
use cs.FileIo.Reads.{at_byte, IsValid, fread-bytes}
use cs.FileIo.Close.{NoneOf, AgreeBut, close_file-reuse, initial-IsValid}

abbrev files : ℕ → List ℕ
files h = if h == 3 then 7 ∷ 8 ∷ 9 ∷ [] else []

abbrev closed : ℕ → List ℕ
closed h = []

agree : AgreeBut 3 files closed
agree h ne = ground arith

fread-bytes_example :
    (returned : ℕ) × (b' : Buffer) × (fread files 1 2 1 3 (initial 2)
      ≡ some (copy (at_byte (files 3)) 1 (2 * 1), returned, b'))
    × IsValid files b'
fread-bytes_example =
    fread-bytes files 1 2 1 3 (initial 2) (initial-IsValid files 2 (omega arith)) (omega arith)
      (omega arith)

close_file-reuse_example :
    (b' : Buffer) × (close_file 3 (initial 2) ≡ some b') × NoneOf 3 b'.frames × IsValid closed b'
close_file-reuse_example =
    close_file-reuse 3 files closed agree (initial 2) (initial-IsValid files 2 (omega arith))

-- Two frames: reads of the files 3 and 4, and then of 5, whose block goes to the frame of file 3.
abbrev same_files : ℕ → List ℕ
same_files h = 7 ∷ 8 ∷ []

abbrev frame_of : ℕ → Frame
frame_of fd = record { handle = some fd; offset = 0; block = read_block (same_files fd) 0 (λ _. 0) }

abbrev after_one : Buffer
after_one = record { frames = frame_of 3 ∷ empty_frame ∷ []; queue = 0 ∷ [] }

abbrev after_two : Buffer
after_two = record { frames = frame_of 3 ∷ frame_of 4 ∷ []; queue = 1 ∷ 0 ∷ [] }

abbrev after_three : Buffer
after_three = record {
  frames =
      record {
        handle = some 5;
        offset = 0;
        block = read_block (same_files 5) 0 (read_block (same_files 3) 0 (λ _. 0));
      }
      ∷ frame_of 4
      ∷ [];
  queue = 0 ∷ 1 ∷ [];
}

read_one : fread same_files 1 1 0 3 (initial 2) ≡ some (7 ∷ [], 2, after_one)
unfolding fread first_index holds initial allocate_block memcpy copy read_block
read_one = refl

read_two : fread same_files 1 1 0 4 after_one ≡ some (7 ∷ [], 2, after_two)
unfolding fread first_index holds allocate_block memcpy copy read_block
read_two = refl

read_three : fread same_files 1 1 0 5 after_two ≡ some (7 ∷ [], 2, after_three)
unfolding fread first_index holds allocate_block evict_lru pop_back clear_at memcpy copy read_block
read_three = refl

two_reads : Uses same_files 2 (1 ∷ 0 ∷ []) after_two
two_reads =
    reads 1 1 0 4 (omega arith) (omega arith)
      (reads 1 1 0 3 (omega arith) (omega arith) begun read_one) read_two

not_held : first_index (holds 5 0) after_two.frames ≡ none
unfolding first_index holds
not_held = refl

none_free : first_index is_free after_two.frames ≡ none
unfolding first_index
none_free = refl

evicts_oldest_use_example : since 1 (1 ∷ 0 ∷ []) ≤ since (front after_three.queue) (1 ∷ 0 ∷ [])
evicts_oldest_use_example =
    evicts_oldest_use same_files 2 (omega arith) 1 1 0 5 1 two_reads not_held none_free read_three
      (omega arith)
