-- ===== src/Read/Searcher.antt =====
-- The search of a level file as `dbread` of master.cpp makes it: `openFile`, `findEntry`, `closeFile`.
use cs.Prelude.{
  ◌>>=◌, ℕ, ◌≡◌, List, [], ◌++◌, Option, none, some, if◌then◌else◌, ◌==◌, length, arith,
}
use cs.Assoc.{find, IsSorted}
use cs.Key.{Key, Value}
use cs.Key.Laws.{words_ord}
use cs.Level.{Level, blank, level, entries_of}
use cs.FileIo.{Buffer, close_file}
use cs.FileIo.Reads.{IsValid}
use cs.FileIo.Close.{NoneOf, AgreeBut, close_file-reuse, open-IsValid}
use cs.Read.{find_entry, search_loop}
use cs.Read.Paged.{file_pager, words_image, entries_bytes, AllInRange, find_entry-written}

-- What stands in a level file: nothing, or a first block of 128 bytes and a sorted run of entries.
abbrev pub IsStored : Level Key Value → Type 0
IsStored blank = Unit {0}
IsStored (level stamp es) = (length stamp ≡ 128) × IsSorted es × AllInRange es

pub IsStored-IsSorted : (file : Level Key Value) → IsStored file → IsSorted (entries_of file)
IsStored-IsSorted blank h = tt
IsStored-IsSorted (level stamp es) h = h.1

pub IsStored-AllInRange : (file : Level Key Value) → IsStored file → AllInRange (entries_of file)
IsStored-AllInRange blank h = tt
IsStored-AllInRange (level stamp es) h = h.2

-- What `dbread` uses of the search: an answer and the next state, and that on a level file the answer
-- is that of its entries.
pub record Searcher : Type 1 where
  pub State : Type 0
  pub IsSound : State → Type 0
  pub find_in : Level Key Value → Key → State → Option (Option Value × State)
  pub finds :
      (file : Level Key Value) (k : Key) (s : State)
      → IsStored file
      → IsSound s
      → (s' : State) × (find_in file k s ≡ some (find k (entries_of file), s')) × IsSound s'

-- The bytes of a level file.
abbrev pub file_bytes : Level Key Value → List ℕ
file_bytes blank = []
file_bytes (level stamp es) = stamp ++ entries_bytes es

-- `fd` is the handle that `openFile` gives: the same one each time, since it was closed before. No
-- other handle is open.
module _ (fd : ℕ) where
  abbrev opened : Level Key Value → ℕ → List ℕ
  opened file h = if h == fd then file_bytes file else []

  abbrev closed : ℕ → List ℕ
  closed h = []

  unfoldable pub search_file : Level Key Value → Key → Buffer → Option (Option Value × Buffer)
  search_file file k b = do
    (found, b') ← find_entry (file_pager (opened file)) words_image words_image fd k b
    b'' ← close_file fd b'
    let answer : Option Value × Buffer = (found, b'')
    some answer

  -- Between two searches the buffer holds no frame of the handle.
  abbrev pub IsIdle : Buffer → Type 0
  IsIdle b = IsValid closed b × NoneOf fd b.frames

  opened_at : (file : Level Key Value) → opened file fd ≡ file_bytes file
  opened_at file = ground arith

  agree : (file : Level Key Value) → AgreeBut fd (opened file) closed
  agree file h ne = ground arith

  agree_back : (file : Level Key Value) → AgreeBut fd closed (opened file)
  agree_back file h ne = ground arith

  find_entry_empty :
      (contents : ℕ → List ℕ) (k : Key) (b : Buffer)
      → contents fd ≡ []
      → find_entry (file_pager contents) words_image words_image fd k b ≡ some (none, b)
  unfolding find_entry search_loop
  find_entry_empty contents k b h = rw (h, find_entry)

  find_entry-file :
      (file : Level Key Value) (k : Key) (b : Buffer)
      → IsStored file
      → IsValid (opened file) b
      → (b' : Buffer) × (find_entry (file_pager (opened file)) words_image words_image fd k b
          ≡ some (find k (entries_of file), b'))
        × IsValid (opened file) b'
  find_entry-file blank k b stored sound =
      (b, find_entry_empty (opened blank) k b (opened_at blank), sound)
  find_entry-file (level stamp es) k b (len, sorted, range) sound =
      find_entry-written (opened (level stamp es)) fd stamp es k b (opened_at (level stamp es)) len
        range sorted sound

  -- From a buffer that is idle and sound, the search of a level file ends without a fault, answers from
  -- its entries, and leaves such a buffer, whatever file was searched before under the same handle.
  pub search_file-find :
      (file : Level Key Value) (k : Key) (b : Buffer)
      → IsStored file
      → IsIdle b
      → (b' : Buffer) × (search_file file k b ≡ some (find k (entries_of file), b')) × IsIdle b'
  unfolding search_file
  search_file-find file k b stored (sound, absent) =
      let (b1, ran, sound1) =
        find_entry-file file k b stored
          (open-IsValid fd closed (opened file) b (agree_back file) absent sound) in
      let (b2, shut, absent2, sound2) =
        close_file-reuse fd (opened file) closed (agree file) b1 sound1 in
      (b2, rw (ran, search_file) (rw shut), (sound2, absent2))

  abbrev pub file_searcher : Searcher
  file_searcher = record {
    State = Buffer;
    IsSound = IsIdle;
    find_in = search_file;
    finds = search_file-find;
  }
