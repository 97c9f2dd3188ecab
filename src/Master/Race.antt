-- ===== src/Master/Race.antt =====
-- `dbread` and `adjust` of master.cpp at once, with other threads that write: each step is what a
-- thread does between two points where another may come in. What holds `memlock` is one step; what
-- holds `fslock` is not.
pub mod View
pub mod Moves
pub mod Closes
pub mod Steps
pub mod Place
pub mod Keeps
pub mod Reader
pub mod Second
pub mod Arrives
pub mod Answers
pub mod Turns
pub mod Ends
pub mod Alone
mod Tests
use cs.Prelude.{
  ◌>>=◌, ℕ, zero, suc, ◌+◌, ◌-◌, ◌%◌, ◌≤◌, Bool, true, false, ◌≡◌, List, [], ◌∷◌, ◌++◌, Option,
  none, some, ◌==◌, ◌&&◌, if◌then◌else◌, length,
}
use cs.Order.{Ord}
use cs.Assoc.{find, or_else}
use cs.Key.{Key, Value}
use cs.Key.Laws.{words_ord}
use cs.Key.Bytes.{value_layout, InRange}
use cs.Level.{Level, blank, entries_of}
use cs.BinaryTree.{dump}
use cs.BinaryTree.Methods.{get}
use cs.Bloom.{get_key}
use cs.Merge.{merge_files}
use cs.Read.Searcher.{Searcher, IsStored}
use cs.Master.{Master, Table, num_files, update, get_reserve, dbwrite, must_swap, swap}

-- Where `adjust` stands: it has not the lock; it has copied the second oldest file and overwrites it; it
-- overwrites the oldest.
pub data Job : Type 0 where
  idle : Job
  merging : Level Key Value → Job
  dumping : Job

pub record World : Type 0 where
  pub store : Master
  pub job : Job

abbrev pub second_oldest : Master → ℕ
second_oldest m = (m.recent + 2) % num_files

abbrev pub oldest : Master → ℕ
oldest m = (m.recent + 1) % num_files

abbrev pub put_file : ℕ → Level Key Value → Master → Master
put_file i f m = record m { filesys = update m.filesys i f }

-- The last critical section of `adjust`.
abbrev pub close_job : Master → Master
close_job m = record m {
  recent = oldest m;
  backups = update m.backups ((m.current + 1) % 2) [];
  tempfile = blank;
  reserve = none;
}

-- The steps of the other threads, with the writes that a step makes; `free` says whether `fslock` can be
-- taken. While a file is overwritten it may have any content.
pub data Move (free : Bool) (w : World) : List (Key × Value) → World → Type 0 where
  writes :
      {m : Master} (k : Key) (v : Value)
      → InRange 8 k
      → InRange 8 v
      → dbwrite k v w.store ≡ some m
      → Move free w ((k, v) ∷ []) (record w { store = m })
  hands_over : must_swap w.store ≡ true → Move free w [] (record w { store = swap w.store })
  begins :
      {t : Table}
      → free ≡ true
      → w.job ≡ idle
      → w.store.reserve ≡ some t
      → Move free w [] (record {
        store = record w.store { tempfile = w.store.filesys (second_oldest w.store) };
        job = merging (w.store.filesys (second_oldest w.store));
      })
  overwrites_second :
      {copied : Level Key Value} (f : Level Key Value)
      → w.job ≡ merging copied
      → Move free w [] (record w { store = put_file (second_oldest w.store) f w.store })
  merges :
      {copied merged : Level Key Value} (unset : List ℕ) (unset_entry : Key × Value)
      → length unset ≡ 128
      → w.job ≡ merging copied
      → merge_files
          (suc
            (length (entries_of (w.store.filesys (oldest w.store))) + length (entries_of copied)))
          unset
          unset_entry
          copied
          (w.store.filesys (oldest w.store))
        ≡ some merged
      → Move free w []
          (record { store = put_file (second_oldest w.store) merged w.store; job = dumping })
  overwrites_oldest :
      (f : Level Key Value)
      → w.job ≡ dumping
      → Move free w [] (record w { store = put_file (oldest w.store) f w.store })
  finishes :
      {t t' : Table} {dumped : Level Key Value} (time : List ℕ) (dummy : Key × Value)
      → length time ≤ 128
      → w.job ≡ dumping
      → w.store.reserve ≡ some t
      → dump 128 time dummy t ≡ some (t', dumped)
      → Move free w []
          (record { store = close_job (put_file (oldest w.store) dumped w.store); job = idle })

abbrev pub is_idle : Job → Bool
is_idle idle = true
is_idle (merging copied) = false
is_idle dumping = false

module _ (searcher : Searcher) where
  -- Where `dbread` stands: in the first loop, before the lock, in the second loop, at its end. `r` is what
  -- it took for the most recent file.
  pub data Pc : Type 0 where
    first : (r i : ℕ) → searcher.State → Pc
    waiting : (r : ℕ) → searcher.State → Pc
    second : (r i : ℕ) → searcher.State → Pc
    done : Option Value → Pc

  -- The part of `dbread` that holds `memlock`; `none` is a fault.
  unfoldable pub enter : Key → Master → searcher.State → Option Pc
  enter k m s = do
    maybe ← get_key k m.bloom
    elim maybe [
      | false ↦ some (done none)
      | true ↦ elim (get k m.bintree) [
        | some v ↦ some (done (some v))
        | none ↦ elim (get_reserve k m.reserve) [
          | some v ↦ some (done (some v))
          | none ↦ some (first m.recent m.recent s)
        ]
      ]
    ]

  -- A turn of a loop that goes on at `next`.
  abbrev pub turn_of : Option (Option Value × searcher.State) → (searcher.State → Pc) → Option Pc
  turn_of searched next =
      searched >>= λ r. elim r.0 [ none ↦ some (next r.1) | some v ↦ some (done (some v)) ]

  -- The rest, a file at a time; it waits where `adjust` has the lock.
  unfoldable pub advance_reader : Key → World → Pc → Option Pc
  advance_reader k w (first r i s) =
      if i == (r + 2) % num_files
      then some (waiting r s)
      else turn_of (searcher.find_in (w.store.filesys i) k s)
          (λ s'. first r ((i + num_files - 1) % num_files) s')
  advance_reader k w (waiting r s) =
      if is_idle w.job then some (second r ((r + 2) % num_files) s) else some (waiting r s)
  advance_reader k w (second r i s) =
      if i == r
      then some (done none)
      else turn_of (searcher.find_in (w.store.filesys i) k s)
          (λ s'. second r ((i + num_files - 1) % num_files) s')
  advance_reader k w (done a) = some (done a)

  -- `dbread` has `fslock` in its second loop.
  abbrev pub leaves_lock : Pc → Bool
  leaves_lock (first r i s) = true
  leaves_lock (waiting r s) = true
  leaves_lock (second r i s) = false
  leaves_lock (done a) = true

  -- No merge has ended since `dbread` looked for the most recent file.
  abbrev pub is_timely : Pc → World → Bool
  is_timely (first r i s) w = w.store.recent == r
  is_timely (waiting r s) w = w.store.recent == r
  is_timely (second r i s) w = true
  is_timely (done a) w = true

  -- The frames of `FileIO`, which all reads share, as another read left them.
  abbrev pub with_buffers : searcher.State → Pc → Pc
  with_buffers s' (first r i s) = first r i s'
  with_buffers s' (waiting r s) = waiting r s'
  with_buffers s' (second r i s) = second r i s'
  with_buffers s' (done a) = done a

  abbrev pub buffers_of : Pc → Option searcher.State
  buffers_of (first r i s) = some s
  buffers_of (waiting r s) = some s
  buffers_of (second r i s) = some s
  buffers_of (done a) = none

  -- What is reached while a read is on its way from `w0` and `pc0`, with the writes since, the last one
  -- first. `rule` restricts when a merge may begin. Between two steps another read may have searched a file
  -- that is not being overwritten.
  pub data Race (rule : Pc → World → Bool) (k : Key) (w0 : World) (pc0 : Pc)
      : List (Key × Value) → World → Pc → Type 0 where
    start : Race rule k w0 pc0 [] w0 pc0
    moves :
        {h e : List (Key × Value)} {w w' : World} {pc : Pc}
        → Race rule k w0 pc0 h w pc
        → Move (leaves_lock pc && rule pc w) w e w'
        → Race rule k w0 pc0 (e ++ h) w' pc
    reads :
        {h : List (Key × Value)} {w : World} {pc pc' : Pc}
        → Race rule k w0 pc0 h w pc
        → advance_reader k w pc ≡ some pc'
        → Race rule k w0 pc0 h w pc'
    shares :
        {h : List (Key × Value)} {w : World} {pc : Pc} {s s' : searcher.State} {a : Option Value}
        (file : Level Key Value) (j : Key)
        → Race rule k w0 pc0 h w pc
        → IsStored file
        → buffers_of pc ≡ some s
        → searcher.find_in file j s ≡ some (a, s')
        → Race rule k w0 pc0 h w (with_buffers s' pc)
