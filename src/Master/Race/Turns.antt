-- ===== src/Master/Race/Turns.antt =====
-- The turns of a read that no other thread disturbs, and how many it has left.
use cs.Prelude.{
  ◌>>=◌, ℕ, zero, suc, ◌+◌, ◌-◌, ◌%◌, ◌<◌, ◌≤◌, Bool, ◌≡◌, ◌⊎◌, refl, ap, sym, ◌∙◌, List, Option,
  none, some, arith, ◌==◌, Bool-cases, inl, inr, some_inj, Option-cases,
}
use mathlib.Core.Path.{subst}
use cs.Key.{Key, Value}
use cs.Key.Laws.{words_ord}
use cs.Key.Bytes.{value_layout}
use cs.Read.Searcher.{Searcher}
use cs.Master.{num_files}
use cs.Master.Race.{
  idle, World, Pc, first, waiting, second, done, turn_of, advance_reader, is_idle, Race, reads,
}

module _ (searcher : Searcher) where
  -- The turns that a read has still to make, once it need not wait.
  abbrev pub left : Pc searcher → ℕ
  left (first r i s) = (i + num_files - (r + 2) % num_files) % num_files + 5
  left (waiting r s) = 4
  left (second r i s) = (i + num_files - r) % num_files + 1
  left (done a) = 0

  turn_less :
      (searched : Option (Option Value × searcher.State)) (next : searcher.State → Pc searcher)
      (b : ℕ) {pc' : Pc searcher}
      → 0 < b
      → ((s : searcher.State) → left (next s) < b)
      → turn_of searcher searched next ≡ some pc'
      → left pc' < b
  turn_less none next b {pc'} pos less ran = let clash : none ≡ some pc' = ran in cc
  turn_less (some (none, s)) next b pos less ran = subst (λ pc. left pc < b) (some_inj ran) (less s)
  turn_less (some (some v, s)) next b pos less ran = subst (λ pc. left pc < b) (some_inj ran) pos

  abbrev pub IsInRing : Pc searcher → Type 0
  IsInRing (first r i s) = (r < num_files) × (i < num_files)
  IsInRing (waiting r s) = r < num_files
  IsInRing (second r i s) = (r < num_files) × (i < num_files)
  IsInRing (done a) = Unit {0}

  -- With no merge on its way each step of a read leaves fewer turns.
  pub advance-less :
      (k : Key) (w : World) (n : ℕ) (pc : Pc searcher) {pc' : Pc searcher}
      → w.job ≡ idle
      → IsInRing pc
      → left pc ≡ suc n
      → advance_reader searcher k w pc ≡ some pc'
      → left pc' ≤ n
  unfolding advance_reader
  advance-less k w n (first r i s) e (lr, li) full ran =
      elim (Bool-cases (i == (r + 2) % num_files)) [
        | inl stop ↦
            let stepped : advance_reader searcher k w (first r i s) ≡ some (waiting r s) =
              rw (stop, advance_reader) refl in
            subst (λ pc. left pc ≤ n) (some_inj (sym stepped ∙ ran)) (omega arith)
        | inr ne ↦
            let next = λ (s' : searcher.State). first r ((i + num_files - 1) % num_files) s' in
            let stepped : advance_reader searcher k w (first r i s)
                ≡ turn_of searcher (searcher.find_in (w.store.filesys i) k s) next =
              rw (ne, advance_reader) refl in
            let l =
              turn_less (searcher.find_in (w.store.filesys i) k s) next (suc n) (omega arith)
                (λ s'. ground arith) (sym stepped ∙ ran) in
            omega arith
      ]
  advance-less k w n (waiting r s) e lr full ran =
      let stepped : advance_reader searcher k w (waiting r s)
          ≡ some (second r ((r + 2) % num_files) s) =
        rw (ap is_idle e, advance_reader) refl in
      subst (λ pc. left pc ≤ n) (some_inj (sym stepped ∙ ran)) (omega arith)
  advance-less k w n (second r i s) e (lr, li) full ran = elim (Bool-cases (i == r)) [
    | inl stop ↦
        let stepped : advance_reader searcher k w (second r i s) ≡ some (done none) =
          rw (stop, advance_reader) refl in
        subst (λ pc. left pc ≤ n) (some_inj (sym stepped ∙ ran)) (omega arith)
    | inr ne ↦
        let next = λ (s' : searcher.State). second r ((i + num_files - 1) % num_files) s' in
        let stepped : advance_reader searcher k w (second r i s)
            ≡ turn_of searcher (searcher.find_in (w.store.filesys i) k s) next =
          rw (ne, advance_reader) refl in
        let l =
          turn_less (searcher.find_in (w.store.filesys i) k s) next (suc n) (omega arith)
            (λ s'. ground arith) (sym stepped ∙ ran) in
        omega arith
  ]
  advance-less k w n (done a) e u full ran = absurd (omega (arith, full))

  -- Turns of a read while no other thread has a step.
  unfoldable pub run_turns : ℕ → Key → World → Pc searcher → Option (Pc searcher)
  run_turns zero k w pc = some pc
  run_turns (suc n) k w pc = advance_reader searcher k w pc >>= run_turns n k w

  -- Turns are steps of the race, whatever its rule.
  pub run_turns-Race :
      (n : ℕ) (k : Key) {rule : Pc searcher → World → Bool} {w0 w : World} {pc0 : Pc searcher}
      (pc : Pc searcher) {pc' : Pc searcher} {h : List (Key × Value)}
      → run_turns n k w pc ≡ some pc'
      → Race searcher rule k w0 pc0 h w pc
      → Race searcher rule k w0 pc0 h w pc'
  unfolding run_turns
  run_turns-Race zero k {rule} {w0} {w} {pc0} pc {h = h} e race =
      subst (Race searcher rule k w0 pc0 h w) (some_inj e) race
  run_turns-Race (suc n) k {w = w} pc {pc'} e race =
      elim (Option-cases (advance_reader searcher k w pc)) [
        | inl fault ↦ let clash : none ≡ some pc' = sym (rw (fault, run_turns) refl) ∙ e in cc
        | inr (next, ran) ↦
            let rest : run_turns n k w next ≡ some pc' = sym (rw (ran, run_turns) refl) ∙ e in
            run_turns-Race n k next rest (reads race ran)
      ]

  pub run_done :
      (n : ℕ) (k : Key) (w : World) (a : Option Value) → run_turns n k w (done a) ≡ some (done a)
  unfolding run_turns advance_reader
  run_done zero k w a = refl
  run_done (suc n) k w a = run_done n k w a

  pub left_zero : (pc : Pc searcher) → left pc ≤ 0 → (a : Option Value) × (pc ≡ done a)
  left_zero (first r i s) l = absurd (omega arith)
  left_zero (waiting r s) l = absurd (omega arith)
  left_zero (second r i s) l = absurd (omega arith)
  left_zero (done a) l = (a, refl)

  pub left-cases :
      (pc : Pc searcher) → ((a : Option Value) × (pc ≡ done a)) ⊎ ((m : ℕ) × (left pc ≡ suc m))
  left-cases (first r i s) =
      inr ((i + num_files - (r + 2) % num_files) % num_files + 4, omega arith)
  left-cases (waiting r s) = inr (3, refl)
  left-cases (second r i s) = inr ((i + num_files - r) % num_files, omega arith)
  left-cases (done a) = inl (a, refl)
