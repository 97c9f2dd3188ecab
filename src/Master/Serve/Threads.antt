-- ===== src/Master/Serve/Threads.antt =====
-- `run` of master.cpp, which scratch/src/main.cpp calls: a thread for each batch file, which
-- goes through its lines by `serve`, and the threads that merge. These are the serial runs: a
-- line is done, and so is a merge, with no step of another thread between its own. Master.Race
-- has the steps of other threads within a read and within a merge.
use cs.Prelude.{◌>>=◌, ℕ, ◌≤◌, ◌≡◌, List, [], ◌∷◌, ◌++◌, Option, some, length}
use cs.Key.{Key, Value}
use cs.Read.Searcher.{Searcher}
use cs.Master.{Master, update, adjust}
use cs.Master.Boot.{Disk, Outside, boot}
use cs.Master.Serve.{get_lines, serve_line}

module _ (searcher : Searcher) where
  -- The store and the buffers, which the threads share; and of each thread the lines that it has still to
  -- read and what it has written.
  pub record Program : Type 0 where
    pub store : Master
    pub buffers : searcher.State
    pub rest : ℕ → List (List ℕ)
    pub outs : ℕ → List ℕ

  -- The threads at their start.
  abbrev pub run : Master → searcher.State → (ℕ → List ℕ) → Program
  run m s files = record { store = m; buffers = s; rest = λ i. get_lines (files i); outs = λ i. [] }

  -- `main` of main.cpp: the constructor, then the threads; `files` has the bytes of each batch file.
  unfoldable pub main : Outside → Disk → searcher.State → (ℕ → List ℕ) → Option Program
  main a disk s files = do master ← boot a disk; some (run master s files)

  -- Thread `i` has done its next line.
  abbrev pub served : ℕ → List (List ℕ) → List ℕ × Master × searcher.State → Program → Program
  served i more done p = record {
    store = done.1;
    buffers = done.2;
    rest = update p.rest i more;
    outs = update p.outs i (p.outs i ++ done.0);
  }

  -- What a serial run reaches from `p0`.
  pub data Serial (p0 : Program) : Program → Type 0 where
    start : Serial p0 p0
    serves :
        {p : Program} (i : ℕ) {a : List ℕ} {more : List (List ℕ)}
        {done : List ℕ × Master × searcher.State}
        → Serial p0 p
        → p.rest i ≡ a ∷ more
        → serve_line searcher a p.store p.buffers ≡ some done
        → Serial p0 (served i more done p)
    adjusts :
        {p : Program} {m : Master} (time : List ℕ) (dummy : Key × Value) (unset : List ℕ)
        (unset_entry : Key × Value)
        → length time ≤ 128
        → length unset ≡ 128
        → Serial p0 p
        → adjust time dummy unset unset_entry p.store ≡ some m
        → Serial p0 (record p { store = m })
