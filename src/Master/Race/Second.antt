-- ===== src/Master/Race/Second.antt =====
-- The second loop of `dbread`, in which it has the lock.
use cs.Prelude.{
  ℕ, ◌+◌, ◌-◌, ◌%◌, true, false, ◌≡◌, ◌⊎◌, refl, ap, ap₂, sym, ◌∙◌, List, Option, none, some, arith,
  ◌==◌, inl, inr,
}
use mathlib.Core.Path.{subst}
use cs.Assoc.{or_else}
use cs.Key.{Key, Value}
use cs.Key.Laws.{words_ord}
use cs.Key.Bytes.{value_layout}
use cs.Level.{Level}
use cs.Merge.Reference.{live_value}
use cs.Read.Searcher.{Searcher, IsStored}
use cs.Master.{num_files}
use cs.Master.Rounds.{below}
use cs.Master.Race.{idle, World, second, done, turn_of, advance_reader}
use cs.Master.Race.View.{found, tail_value, eight_value, IsTail, IsSound}
use cs.Master.Race.Place.{Wrote}
use cs.Master.Race.Reader.{
  IsAnswer, seen, Placed, Missed, Reading, Steps, turn-Steps, files-IsAnswer,
}

module _ (searcher : Searcher) (k : Key) (w0 : World) (start_sound : IsSound w0) where
  abbrev in_second : World → Level Key Value
  in_second w = w.store.filesys ((w0.store.recent + 2) % num_files)

  abbrev in_oldest : World → Level Key Value
  in_oldest w = w.store.filesys ((w0.store.recent + 1) % num_files)

  both_stored :
      (h : List (Key × Value)) (w : World)
      → IsSound w
      → Placed searcher k w0 start_sound h w
      → w.job ≡ idle
      → IsStored (in_second w) × IsStored (in_oldest w)
  both_stored h w sound placed e =
      let tail = subst (λ j. IsTail j w.store) e sound.tail in
      elim placed.stage [
        | inl (at, s) ↦
            subst
              (λ r.
                IsStored (w.store.filesys ((r + 2) % num_files))
                × IsStored (w.store.filesys ((r + 1) % num_files)))
              at tail
        | inr (at, d, s, new) ↦
            let r = w0.store.recent in
            let near : (w.store.recent + 1) % num_files ≡ (r + 2) % num_files = omega arith in
            let here : below 0 w.store.recent ≡ (r + 1) % num_files = unfold below in omega arith in
            (
              subst (λ i. IsStored (w.store.filesys i)) near tail.1,
              subst (λ i. IsStored (w.store.filesys i)) here (sound.eight 0 (omega arith)),
            )
      ]

  -- Before a merge ended both files count; after it the oldest has only what is new.
  both_values :
      (h : List (Key × Value)) (w : World)
      → Placed searcher k w0 start_sound h w
      → w.job ≡ idle
      → (live_value (or_else (found k (in_second w)) (found k (in_oldest w)))
          ≡ seen searcher k w0 start_sound)
        ⊎ ((live_value (found k (in_second w)) ≡ seen searcher k w0 start_sound)
            × ((v : Value) → found k (in_oldest w) ≡ some v → Wrote k v h))
  both_values h w placed e = elim placed.stage [
    | inl (at, s) ↦ inl (
        ap
          (λ r. live_value (
            or_else (found k (w.store.filesys ((r + 2) % num_files)))
              (found k (w.store.filesys ((r + 1) % num_files)))))
          (sym at)
        ∙ ap (λ j. live_value (tail_value k j w.store)) (sym e)
        ∙ s)
    | inr (at, d, s, new) ↦ inr (s, new)
  ]

  seen-IsAnswer :
      (h : List (Key × Value)) {a : Option Value}
      → Missed searcher k w0 start_sound
      → eight_value k w0.store ≡ none
      → live_value a ≡ seen searcher k w0 start_sound
      → IsAnswer searcher k w0 start_sound h a
  seen-IsAnswer h missed none_yet e =
      files-IsAnswer searcher k w0 start_sound h missed
        (e ∙ ap (λ x. live_value (or_else x (tail_value k w0.job w0.store))) (sym none_yet))

  second-IsAnswer :
      (h : List (Key × Value)) (w : World) {v : Value}
      → Missed searcher k w0 start_sound
      → eight_value k w0.store ≡ none
      → Placed searcher k w0 start_sound h w
      → w.job ≡ idle
      → found k (in_second w) ≡ some v
      → IsAnswer searcher k w0 start_sound h (some v)
  second-IsAnswer h w missed none_yet placed e f = elim (both_values h w placed e) [
    | inl s ↦
        seen-IsAnswer h missed none_yet
          (ap (λ x. live_value (or_else x (found k (in_oldest w)))) (sym f) ∙ s)
    | inr (s, new) ↦ seen-IsAnswer h missed none_yet (ap (λ x. live_value x) (sym f) ∙ s)
  ]

  oldest-IsAnswer :
      (h : List (Key × Value)) (w : World) {v : Value}
      → Missed searcher k w0 start_sound
      → eight_value k w0.store ≡ none
      → Placed searcher k w0 start_sound h w
      → w.job ≡ idle
      → found k (in_second w) ≡ none
      → found k (in_oldest w) ≡ some v
      → IsAnswer searcher k w0 start_sound h (some v)
  oldest-IsAnswer h w {v} missed none_yet placed e absent f = elim (both_values h w placed e) [
    | inl s ↦
        seen-IsAnswer h missed none_yet
          (ap₂ (λ x y. live_value (or_else x y)) (sym absent) (sym f) ∙ s)
    | inr (s, new) ↦ inr (v, refl, new v f)
  ]

  absent-IsAnswer :
      (h : List (Key × Value)) (w : World)
      → Missed searcher k w0 start_sound
      → eight_value k w0.store ≡ none
      → Placed searcher k w0 start_sound h w
      → w.job ≡ idle
      → found k (in_second w) ≡ none
      → found k (in_oldest w) ≡ none
      → IsAnswer searcher k w0 start_sound h none
  absent-IsAnswer h w missed none_yet placed e absent f = elim (both_values h w placed e) [
    | inl s ↦
        seen-IsAnswer h missed none_yet
          (ap₂ (λ x y. live_value (or_else x y)) (sym absent) (sym f) ∙ s)
    | inr (s, new) ↦ seen-IsAnswer h missed none_yet (ap (λ x. live_value x) (sym absent) ∙ s)
  ]

  -- A turn that searches a file.
  search-Steps :
      (h : List (Key × Value)) (w : World) (i : ℕ) (s : searcher.State)
      → (i == w0.store.recent) ≡ false
      → Steps searcher k w0 start_sound h w (
          turn_of searcher
            (searcher.find_in (w.store.filesys i) k s)
            (λ s'. second w0.store.recent ((i + num_files - 1) % num_files) s'))
      → Steps searcher k w0 start_sound h w
          (advance_reader searcher k w (second w0.store.recent i s))
  unfolding advance_reader
  search-Steps h w i s ne (pc, ran, reading) = (pc, rw (ne, advance_reader) ran, reading)

  is_at : (i r : ℕ) → i ≡ r → (i == r) ≡ true
  is_at i r e = ground arith

  pub second-Steps :
      (h : List (Key × Value)) (w : World) (i : ℕ) (s : searcher.State)
      → IsSound w
      → Reading searcher k w0 start_sound h w (second w0.store.recent i s)
      → Steps searcher k w0 start_sound h w
          (advance_reader searcher k w (second w0.store.recent i s))
  unfolding advance_reader
  second-Steps h w i s sound (at, missed, searching, placed, none_yet, e, turn) =
      let r = w0.store.recent in
      let in_ring = start_sound.in_ring in
      let files = both_stored h w sound placed e in
      elim turn [
        | inl here ↦ search-Steps h w i s (ground (arith, in_ring, here)) (
            turn-Steps searcher k w0 start_sound h w i s
              (λ s'. second r ((i + num_files - 1) % num_files) s')
              (subst (λ j. IsStored (w.store.filesys j)) (sym here) files.0) searching
              (λ v f.
                second-IsAnswer h w missed none_yet placed e
                  (ap (λ j. found k (w.store.filesys j)) (sym here) ∙ f))
              (λ s' searching' f. (
                refl,
                missed,
                searching',
                placed,
                none_yet,
                e,
                inr (
                    inl (
                      omega (arith, in_ring, here),
                      ap (λ j. found k (w.store.filesys j)) (sym here) ∙ f,
                    )),
              )))
        | inr (inl (here, absent)) ↦ search-Steps h w i s (ground (arith, in_ring, here)) (
            turn-Steps searcher k w0 start_sound h w i s
              (λ s'. second r ((i + num_files - 1) % num_files) s')
              (subst (λ j. IsStored (w.store.filesys j)) (sym here) files.1) searching
              (λ v f.
                oldest-IsAnswer h w missed none_yet placed e absent
                  (ap (λ j. found k (w.store.filesys j)) (sym here) ∙ f))
              (λ s' searching' f. (
                refl,
                missed,
                searching',
                placed,
                none_yet,
                e,
                inr (
                    inr (
                      omega (arith, in_ring, here),
                      absent,
                      ap (λ j. found k (w.store.filesys j)) (sym here) ∙ f,
                    )),
              )))
        | inr (inr (here, absent, gone)) ↦ (
          done none,
          rw (is_at i r here, advance_reader) refl,
          absent-IsAnswer h w missed none_yet placed e absent gone,
        )
      ]
