-- ===== src/FileIo.antt =====
-- `FileIO` of include/BufferManager/FileIO.hpp and src/BufferManager/FileIO.cpp: blocks of read-only
-- files in a fixed set of frames, the least recently used one evicted. What the operating system
-- holds is the parameter `contents`, the bytes of the file behind each handle. `openFile` opens for
-- reading alone, so the `write` of `evictLRU` and `flushFile` is refused and changes no file.
pub mod Queue
pub mod Frames
pub mod Reads
pub mod Close
pub mod Recency
pub mod Source
pub mod Evict
mod Tests
use Prim.Native.Nat.{min}
use mathlib.Core.Option
use cs.Prelude.{
  ◌>>=◌, ℕ, zero, suc, ◌+◌, ◌-◌, ◌*◌, ◌%◌, Bool, true, false, not, List, [], ◌∷◌, Option, none,
  some, ◌&&◌, if◌then◌else◌, ◌==◌, ltb, leb, length, get_elem?, get_or, set, replicate,
}

-- `BLK_SIZE` and `MAX_BLK`
abbrev pub blk_size : ℕ
blk_size = 8 * 1024

abbrev pub max_blk : ℕ
max_blk = 1024

-- `Blk` with its `BlkMetaData`; the handle -1 is `none`.
pub record Frame : Type 0 where
  pub handle : Option ℕ
  pub offset : ℕ
  pub block : ℕ → ℕ

-- `buffer` and `bufferMetaData`, and `lruIndexQ`, the most recent first. `lruIndexMap` holds for each
-- number of the queue the place where it stands.
pub record Buffer : Type 0 where
  pub frames : List Frame
  pub queue : List ℕ

-- The first place where a test holds.
unfoldable pub first_index {ℓ} : {A : Type ℓ} → (A → Bool) → List A → Option ℕ
first_index p [] = none
first_index p (x ∷ xs) = if p x then some 0 else Option.map suc (first_index p xs)

abbrev pub is_free : Frame → Bool
is_free f = elim f.handle [ none ↦ true | some _ ↦ false ]

abbrev pub has_handle : ℕ → Frame → Bool
has_handle fd f = elim f.handle [ none ↦ false | some h ↦ h == fd ]

-- The test of the loop of `fread`, with the two `continue`s.
unfoldable pub holds : ℕ → ℕ → Frame → Bool
holds fd offset f = has_handle fd f && (leb f.offset offset && ltb offset (f.offset + blk_size))

-- `lruIndexQ.erase(lruIndexMap[i])`; `none` where the map has no place for `i`.
unfoldable pub erase_index : ℕ → List ℕ → Option (List ℕ)
erase_index i [] = none
erase_index i (j ∷ q) = if j == i then some q else Option.map (◌∷◌ j) (erase_index i q)

-- `back()` and `pop_back()`; `none` on an empty queue.
unfoldable pub pop_back : List ℕ → Option (ℕ × List ℕ)
pop_back [] = none
pop_back (i ∷ []) = some (i, [])
pop_back (i ∷ j ∷ q) = Option.map (λ r. (r.0, i ∷ r.1)) (pop_back (j ∷ q))

-- A frame whose metadata are cleared: the block stays as it is.
abbrev pub cleared : Frame → Frame
cleared f = record f { handle = none; offset = 0 }

unfoldable pub clear_at : List Frame → ℕ → List Frame
clear_at [] i = []
clear_at (f ∷ fs) zero = cleared f ∷ fs
clear_at (f ∷ fs) (suc i) = f ∷ clear_at fs i

-- `evictLRU`
unfoldable pub evict_lru : Buffer → Option (ℕ × Buffer)
evict_lru b = do
  (i, q) ← pop_back b.queue
  some (i, record { frames = clear_at b.frames i; queue = q })

-- `allocateBlock`
unfoldable pub allocate_block : Buffer → Option (ℕ × Buffer)
allocate_block b = elim (first_index is_free b.frames) [
  | some i ↦ some (i, record b { queue = i ∷ b.queue })
  | none ↦ do (i, b') ← evict_lru b; some (i, record b' { queue = i ∷ b'.queue })
]

-- `memcpy(ptr, block + off, n)`; `none` is a read behind the block.
unfoldable pub copy : (ℕ → ℕ) → ℕ → ℕ → List ℕ
copy m off zero = []
copy m off (suc n) = m off ∷ copy m (off + 1) n

unfoldable pub memcpy : Frame → ℕ → ℕ → Option (List ℕ)
memcpy f off n = if ltb blk_size (off + n) then none else some (copy f.block off n)

-- `read(fd, block, BLK_SIZE)` after `lseek(fd, at)`: what the file has from there on, and the old
-- bytes of the block behind the end of the file.
unfoldable pub read_block : List ℕ → ℕ → (ℕ → ℕ) → ℕ → ℕ
read_block bytes at old j =
    if ltb j blk_size && ltb (at + j) (length bytes) then get_or bytes (at + j) 0 else old j

-- The number of bytes that `read` returns.
abbrev pub bytes_read : List ℕ → ℕ → ℕ
bytes_read bytes at = min blk_size (length bytes - at)

-- The branch of `fread` for a block that is in frame `i`.
unfoldable pub fread_hit : ℕ → ℕ → ℕ → Buffer → Option (List ℕ × ℕ × Buffer)
fread_hit n offset i b = do
  f ← get_elem? b.frames i
  bytes ← memcpy f (offset - f.offset) n
  q ← erase_index i b.queue
  some (bytes, n, record b { queue = i ∷ q })

module _ (contents : ℕ → List ℕ) where
  -- The rest of `fread`: the block is read into a frame.
  unfoldable pub fread_miss : ℕ → ℕ → ℕ → Buffer → Option (List ℕ × ℕ × Buffer)
  fread_miss n offset fd b = do
    (i, b') ← allocate_block b
    let at = offset - offset % blk_size
    f ← get_elem? b'.frames i
    let f' : Frame = record {
      handle = some fd;
      offset = at;
      block = read_block (contents fd) at f.block;
    }
    bytes ← memcpy f' (offset - at) n
    some (bytes, bytes_read (contents fd) at, record b' { frames = set b'.frames i f' })

  -- `fread(ptr, size, count, offset, fileHandle)`: the bytes at `ptr`, the value returned, and the
  -- buffer.
  unfoldable pub fread : ℕ → ℕ → ℕ → ℕ → Buffer → Option (List ℕ × ℕ × Buffer)
  unfolding fread_hit fread_miss
  fread size count offset fd b = elim (first_index (holds fd offset) b.frames) [
    | some i ↦ fread_hit (count * size) offset i b
    | none ↦ fread_miss (count * size) offset fd b
  ]

  -- `fsize`
  abbrev pub fsize : ℕ → ℕ
  fsize fd = length (contents fd)

-- The loop of `closeFile`, over the frames from number `i` on.
unfoldable pub close_loop : ℕ → ℕ → List Frame → List ℕ → Option (List Frame × List ℕ)
close_loop fd i [] q = some ([], q)
close_loop fd i (f ∷ fs) q = elim (has_handle fd f) [
  | true ↦ do
    q' ← erase_index i q
    (fs', q'') ← close_loop fd (i + 1) fs q'
    some (cleared f ∷ fs', q'')
  | false ↦ do (fs', q') ← close_loop fd (i + 1) fs q; some (f ∷ fs', q')
]

unfoldable pub close_file : ℕ → Buffer → Option Buffer
close_file fd b = do
  (fs, q) ← close_loop fd 0 b.frames b.queue
  some (record { frames = fs; queue = q })

-- The static initialisers: no frame in use.
abbrev pub empty_frame : Frame
empty_frame = record { handle = none; offset = 0; block = λ _. 0 }

unfoldable pub initial : ℕ → Buffer
initial n = record { frames = replicate n empty_frame; queue = [] }
