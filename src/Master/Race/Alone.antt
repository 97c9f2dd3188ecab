-- ===== src/Master/Race/Alone.antt =====
-- `dbread` and `adjust` as they stand in the source, beside their steps one after the other.
use cs.Prelude.{
  ℕ, zero, suc, ◌+◌, ◌-◌, ◌%◌, true, false, ◌≡◌, refl, ap, sym, ◌∙◌, List, [], Option, none, some,
  arith, ◌==◌, Bool-cases, inl, inr, some_inj, Option-cases, length, ◌≤◌,
}
use mathlib.Core.Path.{subst}
use cs.Key.{Key, Value}
use cs.Key.Laws.{words_ord}
use cs.Key.Bytes.{value_layout}
use cs.Level.{entries_of}
use cs.BinaryTree.{dump}
use cs.BinaryTree.Methods.{get}
use cs.Bloom.{get_key}
use cs.Merge.{merge_files}
use cs.Read.Searcher.{Searcher}
use cs.Master.{Master, num_files, get_reserve, read_files, read_levels, dbread, adjust}
use cs.Master.Race.{
  idle, dumping, World, second_oldest, oldest, put_file, Move, begins, merges, finishes, Pc, first,
  waiting, second, done, turn_of, advance_reader, enter, is_idle,
}
use cs.Master.Race.Moves.{with}
use cs.Master.Race.Turns.{run_turns}

-- What is `none` is no result.
faulty : {A C : Type 0} {x : Option A} {a : A} → x ≡ none → x ≡ some a → C
faulty {A} {C} {x} {a} gone ran = let clash : none ≡ some a = sym gone ∙ ran in cc

module _ (searcher : Searcher) (k : Key) (w : World) where
  abbrev Pos : Type 0
  Pos = Pc searcher

  -- A run of turns.
  abbrev Leads : Pos → Pos → Type 0
  Leads pc pc' = (n : ℕ) × (run_turns searcher n k w pc ≡ some pc')

  Leads-on :
      (pc : Pos) {pc1 pc2 : Pos}
      → advance_reader searcher k w pc ≡ some pc1
      → Leads pc1 pc2
      → Leads pc pc2
  unfolding run_turns
  Leads-on pc ran (n, more) = (suc n, rw (ran, run_turns) more)

  runs_on :
      (n m : ℕ) (pc : Pos) {pc1 pc2 : Pos}
      → run_turns searcher n k w pc ≡ some pc1
      → run_turns searcher m k w pc1 ≡ some pc2
      → Leads pc pc2
  unfolding run_turns
  runs_on zero m pc {pc2 = pc2} e more = (m, ap (run_turns searcher m k w) (some_inj e) ∙ more)
  runs_on (suc n) m pc {pc1} e more = elim (Option-cases (advance_reader searcher k w pc)) [
    | inl fault ↦ faulty (rw (fault, run_turns) refl) e
    | inr (next, ran) ↦
        let rest : run_turns searcher n k w next ≡ some pc1 = sym (rw (ran, run_turns) refl) ∙ e in
        Leads-on pc ran (runs_on n m next rest more)
  ]

  -- A loop of `dbread`: what its turns do, and where it leads when no file has the key.
  module _ (stop : ℕ) (place : ℕ → searcher.State → Pos) (last : searcher.State → Pos)
      (ends : (i : ℕ) (s : searcher.State)
        → (i == stop) ≡ true
        → advance_reader searcher k w (place i s) ≡ some (last s))
      (turns : (i : ℕ) (s : searcher.State)
        → (i == stop) ≡ false
        → advance_reader searcher k w (place i s)
          ≡ turn_of searcher
              (searcher.find_in (w.store.filesys i) k s)
              (λ s'. place ((i + num_files - 1) % num_files) s')) where
    abbrev after : Option Value × searcher.State → Pos
    after (none, s1) = last s1
    after (some v, s1) = done (some v)

    loop_turns :
        (f i : ℕ) (s : searcher.State) (a : Option Value × searcher.State)
        → read_files searcher f w.store.filesys i stop k s ≡ some a
        → Leads (place i s) (after a)
    unfolding read_files run_turns
    loop_turns zero i s a ran = let clash : none ≡ some a = ran in cc
    loop_turns (suc f) i s a ran = elim (Bool-cases (i == stop)) [
      | inl e ↦
          let here : some (none, s) ≡ some a = sym (rw (e, read_files) refl) ∙ ran in
          Leads-on (place i s) (ends i s e) (0, ap (λ x. some (after x)) (some_inj here))
      | inr ne ↦ elim (Option-cases (searcher.find_in (w.store.filesys i) k s)) [
        | inl fault ↦ faulty (rw (ne, read_files) (rw fault refl)) ran
        | inr ((none, s'), e) ↦
            let i' = (i + num_files - 1) % num_files in
            let rest : read_files searcher f w.store.filesys i' stop k s' ≡ some a =
              sym (rw (ne, read_files) (rw e refl)) ∙ ran in
            Leads-on (place i s) (turns i s ne ∙ rw e refl) (loop_turns f i' s' a rest)
        | inr ((some v, s'), e) ↦
            let here : some (some v, s') ≡ some a = sym (rw (ne, read_files) (rw e refl)) ∙ ran in
            Leads-on (place i s) (turns i s ne ∙ rw e refl)
              (0, ap (λ x. some (after x)) (some_inj here))
      ]
    ]

  first_turns :
      (r : ℕ) (s : searcher.State) (a : Option Value) {s' : searcher.State}
      → read_files searcher (suc num_files) w.store.filesys r ((r + 2) % num_files) k s
        ≡ some (a, s')
      → Leads (first r r s) (elim a [ none ↦ waiting r s' | some v ↦ done (some v) ])
  unfolding advance_reader
  first_turns r s none {s'} ran =
      loop_turns ((r + 2) % num_files) (λ i s'. first r i s') (λ s'. waiting r s')
        (λ i s' at. rw (at, advance_reader) refl) (λ i s' ne. rw (ne, advance_reader) refl)
        (suc num_files) r s (none, s') ran
  first_turns r s (some v) {s'} ran =
      loop_turns ((r + 2) % num_files) (λ i s'. first r i s') (λ s'. waiting r s')
        (λ i s' at. rw (at, advance_reader) refl) (λ i s' ne. rw (ne, advance_reader) refl)
        (suc num_files) r s (some v, s') ran

  second_turns :
      (r i : ℕ) (s : searcher.State) (a : Option Value) {s' : searcher.State}
      → read_files searcher (suc num_files) w.store.filesys i r k s ≡ some (a, s')
      → Leads (second r i s) (done a)
  unfolding advance_reader
  second_turns r i s none {s'} ran =
      loop_turns r (λ i s'. second r i s') (λ s'. done none)
        (λ i s' at. rw (at, advance_reader) refl) (λ i s' ne. rw (ne, advance_reader) refl)
        (suc num_files) i s (none, s') ran
  second_turns r i s (some v) {s'} ran =
      loop_turns r (λ i s'. second r i s') (λ s'. done none)
        (λ i s' at. rw (at, advance_reader) refl) (λ i s' ne. rw (ne, advance_reader) refl)
        (suc num_files) i s (some v, s') ran

  module _ (e : w.job ≡ idle) where
    levels_turns :
        (r : ℕ) (s : searcher.State) {a : Option Value} {s' : searcher.State}
        → read_levels searcher w.store.filesys r k s ≡ some (a, s')
        → Leads (first r r s) (done a)
    unfolding read_levels advance_reader
    levels_turns r s {a} {s'} ran =
        let files = w.store.filesys in
        let stop = (r + 2) % num_files in
        elim (Option-cases (read_files searcher (suc num_files) files r stop k s)) [
          | inl fault ↦ faulty (rw (fault, read_levels) refl) ran
          | inr ((some v, s1), first_ran) ↦
              let here : some (some v, s1) ≡ some (a, s') =
                sym (rw (first_ran, read_levels) refl) ∙ ran in
              let (n, turns1) = first_turns r s (some v) first_ran in
              (
                n,
                turns1
                    ∙ ap (λ (x : Option Value × searcher.State). some (done x.0)) (some_inj here),
              )
          | inr ((none, s1), first_ran) ↦
              let rest : read_files searcher (suc num_files) files stop r k s1 ≡ some (a, s') =
                sym (rw (first_ran, read_levels) refl) ∙ ran in
              let (n, turns1) = first_turns r s none first_ran in
              let locked : advance_reader searcher k w (waiting r s1) ≡ some (second r stop s1) =
                rw (ap is_idle e, advance_reader) refl in
              let (m, turns2) = Leads-on (waiting r s1) locked (second_turns r stop s1 a rest) in
              runs_on n m (first r r s) turns1 turns2
        ]

-- A read with no merge on its way and no other thread: where `dbread` gives an answer, so do its steps,
-- and the same.
pub dbread_alone :
    (searcher : Searcher) (k : Key) (w : World) (s : searcher.State) {a : Option Value}
    {s' : searcher.State}
    → w.job ≡ idle
    → dbread searcher k w.store s ≡ some (a, s')
    → (pc : Pc searcher) × (enter searcher k w.store s ≡ some pc)
      × (n : ℕ) × (run_turns searcher n k w pc ≡ some (done a))
unfolding dbread enter run_turns
dbread_alone searcher k w s {a} {s'} e ran =
    let m = w.store in
    let Answer = Option Value × searcher.State in
    let answered : Option Value → Pc searcher = λ b. done b in
    let ended = λ (x : Answer). some (answered x.0) in
    elim (Option-cases (get_key k m.bloom)) [
      | inl fault ↦ faulty (rw (fault, dbread) refl) ran
      | inr (false, no_key) ↦
          let here : some (none, s) ≡ some (a, s') = sym (rw (no_key, dbread) refl) ∙ ran in
          (done none, rw (no_key, enter) refl, 0, ap ended (some_inj here))
      | inr (true, says_yes) ↦ elim (Option-cases (get k m.bintree)) [
        | inr (v, t) ↦
            let here : dbread searcher k m s ≡ some (some v, s) =
              rw (says_yes, dbread) (ground arith) in
            (
              done (some v),
              rw (says_yes, enter) (ground arith),
              0,
              ap ended (some_inj (sym here ∙ ran)),
            )
        | inl no_table ↦ elim (Option-cases (get_reserve k m.reserve)) [
          | inr (v, t) ↦
              let here : dbread searcher k m s ≡ some (some v, s) =
                rw (says_yes, dbread) (ground arith) in
              (
                done (some v),
                rw (says_yes, enter) (ground arith),
                0,
                ap ended (some_inj (sym here ∙ ran)),
              )
          | inl no_reserve ↦
              let rest : read_levels searcher m.filesys m.recent k s ≡ some (a, s') =
                sym (rw (says_yes, dbread) (ground arith)) ∙ ran in
              let (n, turns) = levels_turns searcher k w e m.recent s rest in
              (first m.recent m.recent s, rw (says_yes, enter) (ground arith), n, turns)
        ]
      ]
    ]

-- Where `adjust` succeeds, its three steps, one after the other, lead to the state that it leaves.
pub adjust_alone :
    (time : List ℕ) (dummy : Key × Value) (unset : List ℕ) (unset_entry : Key × Value)
    {m m' : Master}
    → length time ≤ 128
    → length unset ≡ 128
    → adjust time dummy unset unset_entry m ≡ some m'
    → (w1 w2 : World) × Move true (with m idle) [] w1
      × Move true w1 [] w2
      × Move true w2 [] (with m' idle)
unfolding adjust
adjust_alone time dummy unset unset_entry {m} {m'} short whole ran =
    let copied = m.filesys (second_oldest m) in
    let file1 = m.filesys (oldest m) in
    let fuel = suc (length (entries_of file1) + length (entries_of copied)) in
    elim (Option-cases m.reserve) [
      | inl gone ↦ faulty (rw (gone, adjust) refl) ran
      | inr (t, held) ↦ elim (Option-cases (merge_files fuel unset unset_entry copied file1)) [
        | inl fault ↦ faulty (rw (held, fault, adjust) refl) ran
        | inr (merged, merge) ↦ elim (Option-cases (dump 128 time dummy t)) [
          | inl fault ↦ faulty (rw (held, merge, fault, adjust) refl) ran
          | inr ((t', dumped), dump_ran) ↦
              let end = some_inj (sym (rw (held, merge, dump_ran, adjust) refl) ∙ ran) in
              (
                _,
                _,
                begins refl refl held,
                merges unset unset_entry whole refl merge,
                subst
                    (λ x.
                      Move true
                        (with (put_file (second_oldest m) merged (record m { tempfile = copied }))
                          dumping)
                        [] (with x idle))
                    end (finishes time dummy short refl held dump_ran),
              )
        ]
      ]
    ]
