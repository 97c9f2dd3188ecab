-- ===== src/Master/Recent.antt =====
-- Which level file the constructor of `Master` in master.cpp takes for the most recent.
use cs.Prelude.{
  ℕ, zero, suc, ◌+◌, ◌%◌, ◌<◌, ◌≤◌, true, false, ◌≡◌, ◌≢◌, ltb, arith, Bool-cases, inl, inr,
}
use cs.Key.Laws.{words_ord}
use cs.Key.Bytes.{value_layout}
use cs.Master.{num_files}
use cs.Master.Boot.{find_recent}

pub find_recent-lt : (f i : ℕ) (time : ℕ → ℕ) → i + f ≤ num_files → find_recent f i time < num_files
unfolding find_recent
find_recent-lt zero i time h = omega arith
find_recent-lt (suc f) i time h = ground (arith, find_recent-lt f (i + 1) time (omega arith))

find_recent_from :
    (f i r : ℕ) (time : ℕ → ℕ)
    → i ≤ r
    → r < i + f
    → r < num_files
    → ((j : ℕ) → j < r → time j ≤ time ((j + 1) % num_files))
    → time ((r + 1) % num_files) < time r
    → find_recent f i time ≡ r
unfolding find_recent
find_recent_from zero i r time le lt h up drop = absurd (omega arith)
find_recent_from (suc f) i r time le lt h up drop =
    elim (Bool-cases (ltb (time ((i + 1) % num_files)) (time i))) [
      | inl e ↦ rw (e, find_recent) (here e)
      | inr ne ↦
          rw (ne, find_recent)
            (find_recent_from f (i + 1) r time (later ne) (omega arith) h up drop)
    ]
  where
    here : ltb (time ((i + 1) % num_files)) (time i) ≡ true → i ≡ r
    here e = ground (arith, up i)

    later : ltb (time ((i + 1) % num_files)) (time i) ≡ false → i + 1 ≤ r
    later ne = ground arith

-- Where the time of a file is not after that of the next one, around the ring, but for file `r`, whose
-- next one is older, the constructor takes `r` for the most recent.
pub find_recent-ring :
    (r : ℕ) (time : ℕ → ℕ)
    → r < num_files
    → ((j : ℕ) → j < num_files → j ≢ r → time j ≤ time ((j + 1) % num_files))
    → time ((r + 1) % num_files) < time r
    → find_recent num_files 0 time ≡ r
find_recent-ring r time h up drop =
    find_recent_from num_files 0 r time (omega arith) (omega arith) h
      (λ j l. up j (omega arith) (λ e. absurd (omega (arith, e)))) drop
