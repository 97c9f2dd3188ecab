-- ===== src/Master/Race/Reader.antt =====
-- What `dbread` knows at each point on its way, and its own steps from one point to the next.
use cs.Prelude.{
  ℕ, suc, ◌+◌, ◌-◌, ◌%◌, ◌<◌, ◌≤◌, false, ◌≡◌, ◌⊎◌, refl, ap, ap₂, sym, ◌∙◌, List, [], ◌∷◌, Option,
  none, some, arith, ◌==◌, Bool-cases, inl, inr, Option-cases,
}
use mathlib.Core.Path.{subst}
use cs.Assoc.{or_else}
use cs.Key.{Key, Value}
use cs.Key.Laws.{words_ord}
use cs.Key.Bytes.{value_layout}
use cs.Level.{Level}
use cs.Merge.Reference.{live_value}
use cs.Read.Searcher.{Searcher, IsStored}
use cs.Master.{Master, num_files}
use cs.Master.Rounds.{down, below, down-add, chain, chain-append}
use cs.Master.Kept.{or_else-none}
use cs.Master.Race.{
  Job, idle, merging, dumping, World, Pc, first, waiting, second, done, is_idle, turn_of,
  advance_reader,
}
use cs.Master.Race.View.{found, tail_value, eight_value, value_in, IsSound}
use cs.Master.Race.Place.{InPlace, Wrote}

pub chain-below :
    (files : ℕ → Level Key Value) (k : Key) (n r : ℕ)
    → r < num_files
    → chain files (down (suc n) r) k
      ≡ or_else (chain files (down n r) k) (found k (files (below n r)))
unfolding chain down
chain-below files k n r h =
    let one_more : suc n ≡ n + 1 = omega arith in
    ap (λ m. chain files (down m r) k) one_more
    ∙ ap (λ is. chain files is k) (down-add n 1 r h)
    ∙ chain-append files (down n r) (below n r ∷ []) k
    ∙ ap (or_else (chain files (down n r) k)) (or_else-none (found k (files (below n r))))

-- What is found in the first files is found in all eight.
pub chain_first :
    (files : ℕ → Level Key Value) (k : Key) (n r : ℕ) {v : Value}
    → r < num_files
    → n ≤ 8
    → chain files (down n r) k ≡ some v
    → chain files (down 8 r) k ≡ some v
chain_first files k n r h l e =
    let parts : n + (8 - n) ≡ 8 = omega arith in
    ap (λ m. chain files (down m r) k) (sym parts)
    ∙ ap (λ is. chain files is k) (down-add n (8 - n) r h)
    ∙ chain-append files (down n r) (down (8 - n) (below n r)) k
    ∙ ap (λ c. or_else c (chain files (down (8 - n) (below n r)) k)) e

is_idle-cases : (j : Job) → (j ≡ idle) ⊎ (is_idle j ≡ false)
is_idle-cases idle = inl refl
is_idle-cases (merging c) = inr refl
is_idle-cases dumping = inr refl

module _ (searcher : Searcher) (k : Key) (w0 : World) (start_sound : IsSound w0) where
  -- What a read may answer: the value from its start, where a tombstone counts as none, or one that was
  -- written since.
  abbrev pub IsAnswer : List (Key × Value) → Option Value → Type 0
  IsAnswer h a =
      (live_value a ≡ live_value (value_in k w0)) ⊎ ((v : Value) × (a ≡ some v) × Wrote k v h)

  abbrev pub seen : Option Value
  seen = live_value (tail_value k w0.job w0.store)

  abbrev pub Placed : List (Key × Value) → World → Type 0
  Placed h w = InPlace k w0.store.filesys seen w0.store.recent h w

  -- The memory had not the key, so its value is that of the files.
  abbrev pub Missed : Type 0
  Missed = value_in k w0 ≡ or_else (eight_value k w0.store) (tail_value k w0.job w0.store)

  -- The second loop.
  abbrev pub Turn : ℕ → Master → Type 0
  Turn i m =
      let r = w0.store.recent in
      (i ≡ (r + 2) % num_files)
      ⊎ ((i ≡ (r + 1) % num_files) × (found k (m.filesys ((r + 2) % num_files)) ≡ none))
      ⊎ ((i ≡ r)
          × (found k (m.filesys ((r + 2) % num_files)) ≡ none)
          × (found k (m.filesys ((r + 1) % num_files)) ≡ none))

  abbrev pub Reading : List (Key × Value) → World → Pc searcher → Type 0
  Reading h w (first r i s) =
      (r ≡ w0.store.recent)
      × Missed
      × searcher.IsSound s
      × Placed h w
      × (n : ℕ) × (n ≤ 8)
      × (i ≡ below n w0.store.recent)
      × (chain w0.store.filesys (down n w0.store.recent) k ≡ none)
  Reading h w (waiting r s) =
      (r ≡ w0.store.recent)
      × Missed
      × searcher.IsSound s
      × Placed h w
      × (eight_value k w0.store ≡ none)
  Reading h w (second r i s) =
      (r ≡ w0.store.recent)
      × Missed
      × searcher.IsSound s
      × Placed h w
      × (eight_value k w0.store ≡ none)
      × (w.job ≡ idle)
      × Turn i w.store
  Reading h w (done a) = IsAnswer h a

  -- The end of a turn of a loop.
  abbrev pub Steps : List (Key × Value) → World → Option (Pc searcher) → Type 0
  Steps h w ran = (pc : Pc searcher) × (ran ≡ some pc) × Reading h w pc

  pub turn-Steps :
      (h : List (Key × Value)) (w : World) (i : ℕ) (s : searcher.State)
      (next : searcher.State → Pc searcher)
      → IsStored (w.store.filesys i)
      → searcher.IsSound s
      → ((v : Value) → found k (w.store.filesys i) ≡ some v → IsAnswer h (some v))
      → ((s' : searcher.State)
          → searcher.IsSound s'
          → found k (w.store.filesys i) ≡ none
          → Reading h w (next s'))
      → Steps h w (turn_of searcher (searcher.find_in (w.store.filesys i) k s) next)
  turn-Steps h w i s next stored sound present absent =
      let (s', ran, sound') = searcher.finds (w.store.filesys i) k s stored sound in
      elim (Option-cases (found k (w.store.filesys i))) [
        | inl e ↦ (next s', rw (ran, e) refl, absent s' sound' e)
        | inr (v, e) ↦ (done (some v), rw (ran, e) refl, present v e)
      ]

  -- A value of the files is the value of the key.
  pub files-IsAnswer :
      (h : List (Key × Value)) {a : Option Value}
      → Missed
      → live_value a ≡ live_value (or_else (eight_value k w0.store) (tail_value k w0.job w0.store))
      → IsAnswer h a
  files-IsAnswer h missed e = inl (e ∙ ap (λ x. live_value x) (sym missed))

  pub first-Steps :
      (h : List (Key × Value)) (w : World) (s : searcher.State) (n : ℕ)
      → Missed
      → searcher.IsSound s
      → Placed h w
      → n ≤ 8
      → chain w0.store.filesys (down n w0.store.recent) k ≡ none
      → Steps h w (advance_reader searcher k w (first w0.store.recent (below n w0.store.recent) s))
  unfolding advance_reader
  first-Steps h w s n missed sound placed l none_yet =
      let r = w0.store.recent in
      let in_ring = start_sound.in_ring in
      let at = below n r in
      elim (Bool-cases (at == (r + 2) % num_files)) [
        | inl e ↦
            let last : n ≡ 8 = unfold below in ground arith in
            (
              waiting r s,
              rw (e, advance_reader) refl,
              (
                refl,
                missed,
                sound,
                placed,
                ap (λ m. chain w0.store.filesys (down m r) k) (sym last) ∙ none_yet,
              ),
            )
        | inr ne ↦
            let l' : n < 8 = unfold below in ground arith in
            let here = placed.eight n l' in
            let next : (at + num_files - 1) % num_files ≡ below (suc n) r =
              unfold below in omega arith in
            let (pc, ran, reading) =
              turn-Steps h w at s (λ s'. first r ((at + num_files - 1) % num_files) s')
                (subst IsStored (sym here) (start_sound.eight n l')) sound
                (λ v e. files-IsAnswer h missed (
                  ap (λ x. live_value (or_else x (tail_value k w0.job w0.store)))
                    (sym (
                      chain_first w0.store.filesys k (suc n) r in_ring (omega arith) (
                        chain-below w0.store.filesys k n r in_ring
                        ∙ ap₂ or_else none_yet (sym (ap (found k) here) ∙ e))))))
                (λ s' sound' e. (
                  refl,
                  missed,
                  sound',
                  placed,
                  suc n,
                  omega arith,
                  next,
                  chain-below w0.store.filesys k n r in_ring
                      ∙ ap₂ or_else none_yet (sym (ap (found k) here) ∙ e),
                )) in
            (pc, rw (ne, advance_reader) ran, reading)
      ]

  pub waiting-Steps :
      (h : List (Key × Value)) (w : World) (s : searcher.State)
      → Missed
      → searcher.IsSound s
      → Placed h w
      → eight_value k w0.store ≡ none
      → Steps h w (advance_reader searcher k w (waiting w0.store.recent s))
  unfolding advance_reader
  waiting-Steps h w s missed sound placed none_yet =
      let r = w0.store.recent in
      elim (is_idle-cases w.job) [
        | inl e ↦ (
          second r ((r + 2) % num_files) s,
          rw (ap is_idle e, advance_reader) refl,
          (refl, missed, sound, placed, none_yet, e, inl refl),
        )
        | inr busy ↦
            (waiting r s, rw (busy, advance_reader) refl, (refl, missed, sound, placed, none_yet))
      ]
