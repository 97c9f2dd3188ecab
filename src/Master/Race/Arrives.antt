-- ===== src/Master/Race/Arrives.antt =====
-- What a read knows, at its start and at every state that it can come to.
use cs.Prelude.{
  true, false, ◌≡◌, refl, ap, ap₂, sym, ◌∙◌, List, [], ◌++◌, Option, none, some, arith, ◌&&◌,
  Bool-cases, inl, inr, some_inj, Option-cases,
}
use mathlib.Core.Path.{subst}
use cs.Assoc.{or_else}
use cs.Key.{Key, Value}
use cs.Key.Laws.{words_ord}
use cs.Key.Bytes.{value_layout}
use cs.BinaryTree.Methods.{get}
use cs.Bloom.{set_key, get_key}
use cs.Bloom.Membership.{get_key_total}
use cs.Merge.Reference.{live_value}
use cs.Read.Searcher.{Searcher}
use cs.Master.{Master, get_reserve, swap, dbwrite}
use cs.Master.Rounds.{down, below, chain}
use cs.Master.Race.{
  idle, World, Pc, first, waiting, second, done, advance_reader, enter, leaves_lock, is_timely,
  with_buffers, buffers_of, Move, writes, hands_over, begins, overwrites_second, merges,
  overwrites_oldest, finishes, Race, start, moves, reads, shares,
}
use cs.Master.Race.View.{tail_value, eight_value, value_in, IsSound}
use cs.Master.Race.Steps.{Move-Follows, write_state}
use cs.Master.Race.Place.{Wrote-append, Move-idle}
use cs.Master.Race.Keeps.{Move-InPlace}
use cs.Master.Race.Reader.{seen, Placed, Turn, Reading, Steps, first-Steps, waiting-Steps}
use cs.Master.Race.Second.{second-Steps}

write_files :
    (j : Key) (v : Value) (m m' : Master) → dbwrite j v m ≡ some m' → m'.filesys ≡ m.filesys
unfolding dbwrite
write_files j v m m' ran = elim (Option-cases (set_key j m.bloom)) [
  | inl e ↦ let clash : none ≡ some m' = sym (rw (e, dbwrite) refl) ∙ ran in cc
  | inr (b, e) ↦ ap (λ (x : Master). x.filesys) (sym (write_state m j v e ran))
]

-- With the lock taken no file changes.
Move-files :
    {e : List (Key × Value)} {w w' : World}
    → Move false w e w'
    → w.job ≡ idle
    → w'.store.filesys ≡ w.store.filesys
Move-files {w = w} {w' = w'} (writes j v rj rv ran) d = write_files j v w.store w'.store ran
Move-files (hands_over due) d = unfold swap in refl
Move-files (begins free at held) d = cc
Move-files (overwrites_second f at) d = let clash = sym at ∙ d in cc
Move-files (merges unset entry whole at ran) d = let clash = sym at ∙ d in cc
Move-files (overwrites_oldest f at) d = let clash = sym at ∙ d in cc
Move-files (finishes time dummy short at held ran) d = let clash = sym at ∙ d in cc

module _ (searcher : Searcher) (k : Key) (w0 : World) (start_sound : IsSound w0) where
  abbrev IsAt : List (Key × Value) → World → Pc searcher → Type 0
  IsAt h w pc = Reading searcher k w0 start_sound h w pc

  pub reads-Reading :
      (h : List (Key × Value)) (w : World) (pc : Pc searcher)
      → IsSound w
      → IsAt h w pc
      → Steps searcher k w0 start_sound h w (advance_reader searcher k w pc)
  reads-Reading h w (first r i s) sound (at, missed, searching, placed, n, l, here, none_yet) =
      subst (λ pc. Steps searcher k w0 start_sound h w (advance_reader searcher k w pc))
        (sym (ap₂ (λ x y. first x y s) at here))
        (first-Steps searcher k w0 start_sound h w s n missed searching placed l none_yet)
  reads-Reading h w (waiting r s) sound (at, missed, searching, placed, none_yet) =
      subst (λ x. Steps searcher k w0 start_sound h w (advance_reader searcher k w (waiting x s)))
        (sym at) (waiting-Steps searcher k w0 start_sound h w s missed searching placed none_yet)
  reads-Reading h w (second r i s) sound (at, missed, searching, placed, none_yet, e, turn) =
      subst (λ x. Steps searcher k w0 start_sound h w (advance_reader searcher k w (second x i s)))
        (sym at)
        (second-Steps searcher k w0 start_sound h w i s sound
          (refl, missed, searching, placed, none_yet, e, turn))
  reads-Reading h w (done a) sound answer = unfold advance_reader in (done a, refl, answer)

  moves-Reading :
      (h : List (Key × Value)) {e : List (Key × Value)} {w w' : World} (pc : Pc searcher)
      → Move (leaves_lock searcher pc && is_timely searcher pc w) w e w'
      → IsSound w
      → IsAt h w pc
      → IsAt (e ++ h) w' pc
  moves-Reading h {w = w} (first r i s) move sound
        (at, missed, searching, placed, n, l, here, none_yet) =
      (
        at,
        missed,
        searching,
        Move-InPlace k w0.store.filesys (seen searcher k w0 start_sound) w0.store.recent h move
            sound (λ free. let e : w.store.recent ≡ r = ground arith in e ∙ at) placed,
        n,
        l,
        here,
        none_yet,
      )
  moves-Reading h {w = w} (waiting r s) move sound (at, missed, searching, placed, none_yet) = (
    at,
    missed,
    searching,
    Move-InPlace k w0.store.filesys (seen searcher k w0 start_sound) w0.store.recent h move sound
        (λ free. let e : w.store.recent ≡ r = ground arith in e ∙ at) placed,
    none_yet,
  )
  moves-Reading h {w = w} {w' = w'} (second r i s) move sound
        (at, missed, searching, placed, none_yet, e, turn) =
      (
        at,
        missed,
        searching,
        Move-InPlace k w0.store.filesys (seen searcher k w0 start_sound) w0.store.recent h move
            sound (λ free. cc) placed,
        none_yet,
        Move-idle move e,
        subst (λ g. Turn searcher k w0 start_sound i (record w.store { filesys = g }))
            (sym (Move-files move e)) turn,
      )
  moves-Reading h {e} (done a) move sound (inl same_value) = inl same_value
  moves-Reading h {e} (done a) move sound (inr (v, is_v, wrote)) =
      inr (v, is_v, Wrote-append k v e h wrote)

  Placed-start :
      get k w0.store.bintree ≡ none
      → get_reserve k w0.store.reserve ≡ none
      → Placed searcher k w0 start_sound [] w0
  Placed-start no_table no_reserve = record {
    eight = λ n l. refl;
    stage = inl (refl, refl);
    table_new = λ v e. let clash : none ≡ some v = sym no_table ∙ e in cc;
    reserve_new = λ v e. let clash : none ≡ some v = sym no_reserve ∙ e in cc;
  }

  -- The part of `dbread` under the lock, after the filter said yes.
  enter_yes :
      (s : searcher.State)
      → get_key k w0.store.bloom ≡ some true
      → searcher.IsSound s
      → (pc : Pc searcher) × (enter searcher k w0.store s ≡ some pc) × IsAt [] w0 pc
  unfolding enter
  enter_yes s says_yes searching =
      let m = w0.store in
      let rest = or_else (eight_value k m) (tail_value k w0.job m) in
      elim (Option-cases (get k m.bintree)) [
        | inl no_table ↦ elim (Option-cases (get_reserve k m.reserve)) [
          | inl no_reserve ↦ (
            first m.recent m.recent s,
            rw (says_yes, enter) (ground arith),
            (
              refl,
              ap₂ (λ x y. or_else x (or_else y rest)) no_table no_reserve,
              searching,
              Placed-start no_table no_reserve,
              0,
              omega arith,
              let e : m.recent ≡ below 0 m.recent =
                    let in_ring = start_sound.in_ring in unfold below in omega arith in
                  e,
              unfold chain down in refl,
            ),
          )
          | inr (v, e) ↦ (
            done (some v),
            rw (says_yes, enter) (ground arith),
            inl (ap₂ (λ x y. live_value (or_else x (or_else y rest))) (sym no_table) (sym e)),
          )
        ]
        | inr (v, e) ↦ (
          done (some v),
          rw (says_yes, enter) (ground arith),
          inl (ap (λ x. live_value (or_else x (or_else (get_reserve k m.reserve) rest))) (sym e)),
        )
      ]

  pub enter-Reading :
      (s : searcher.State)
      → searcher.IsSound s
      → (pc : Pc searcher) × (enter searcher k w0.store s ≡ some pc) × IsAt [] w0 pc
  unfolding enter
  enter-Reading s searching =
      let (answer, e) = get_key_total k w0.store.bloom in
      elim (Bool-cases answer) [
        | inl t ↦ enter_yes s (e ∙ ap some t) searching
        | inr f ↦ elim (Option-cases (value_in k w0)) [
          | inl absent ↦
              (done none, rw (e ∙ ap some f, enter) refl, inl (ap (λ x. live_value x) (sym absent)))
          | inr (v, present) ↦
              let clash : some false ≡ some true =
                sym (e ∙ ap some f) ∙ start_sound.known k present in
              cc
        ]
      ]

  buffers-IsSound :
      (h : List (Key × Value)) (w : World) (pc : Pc searcher) {s : searcher.State}
      → IsAt h w pc
      → buffers_of searcher pc ≡ some s
      → searcher.IsSound s
  buffers-IsSound h w (first r i s) (_, _, searching, _, _, _, _, _) e =
      subst searcher.IsSound (some_inj e) searching
  buffers-IsSound h w (waiting r s) (_, _, searching, _, _) e =
      subst searcher.IsSound (some_inj e) searching
  buffers-IsSound h w (second r i s) (_, _, searching, _, _, _, _) e =
      subst searcher.IsSound (some_inj e) searching
  buffers-IsSound h w (done a) {s} answer e = let clash : none ≡ some s = e in cc

  -- Another read has left the frames sound.
  shares-Reading :
      (h : List (Key × Value)) (w : World) (pc : Pc searcher) (s : searcher.State)
      → searcher.IsSound s
      → IsAt h w pc
      → IsAt h w (with_buffers searcher s pc)
  shares-Reading h w (first r i _) s now (at, missed, _, placed, n, l, here, none_yet) =
      (at, missed, now, placed, n, l, here, none_yet)
  shares-Reading h w (waiting r _) s now (at, missed, _, placed, none_yet) =
      (at, missed, now, placed, none_yet)
  shares-Reading h w (second r i _) s now (at, missed, _, placed, none_yet, e, turn) =
      (at, missed, now, placed, none_yet, e, turn)
  shares-Reading h w (done a) s now answer = answer

  pub Race-Reading :
      {pc0 pc : Pc searcher} {h : List (Key × Value)} {w : World}
      → IsAt [] w0 pc0
      → Race searcher (is_timely searcher) k w0 pc0 h w pc
      → IsSound w × IsAt h w pc
  Race-Reading at start = (start_sound, at)
  Race-Reading at (moves {h = h} {w = w} {pc = pc} before move) =
      let (sound, reading) = Race-Reading at before in
      ((Move-Follows move sound).0, moves-Reading h pc move sound reading)
  Race-Reading at (reads {h = h} {w = w} {pc = pc} before ran) =
      let (sound, reading) = Race-Reading at before in
      let (pc', ran', reading') = reads-Reading h w pc sound reading in
      (sound, subst (IsAt h w) (some_inj (sym ran' ∙ ran)) reading')
  Race-Reading at (shares {h = h} {w = w} {pc = pc} {s = s} {s' = s'} file j before stored e ran) =
      let (sound, reading) = Race-Reading at before in
      let (s1, ran1, sound1) = searcher.finds file j s stored (buffers-IsSound h w pc reading e) in
      let same_state : s1 ≡ s' =
        ap (λ (x : Option Value × searcher.State). x.1) (some_inj (sym ran1 ∙ ran)) in
      (sound, shares-Reading h w pc s' (subst searcher.IsSound same_state sound1) reading)
