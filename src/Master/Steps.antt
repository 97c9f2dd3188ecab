-- ===== src/Master/Steps.antt =====
-- The store of master.cpp under any sequence of writes, hand-overs and merges, in any order in which
-- `serve` and the threads that it starts may make them, each of them one step.
use cs.Prelude.{
  ℕ, true, ◌≡◌, refl, ap, sym, ◌∙◌, List, [], ◌∷◌, Option, none, some, if◌then◌else◌, some_inj,
  Option-cases, inl, inr, arith,
}
use mathlib.Core.Path.{subst}
use cs.Order.{same}
use cs.Assoc.{find, or_else}
use cs.Key.{Key, Value}
use cs.Key.Laws.{words_ord}
use cs.Key.Bytes.{value_layout}
use cs.Merge.Reference.{live_value}
use cs.Prelude.{◌≤◌, length}
use cs.Key.Bytes.{InRange}
use cs.Read.Searcher.{Searcher}
use cs.Master.{Master, Table, dbread, dbwrite, must_swap, swap, adjust}
use cs.Master.View.{stored, IsValid}
use cs.Master.Reads.{dbread-stored, dbwrite-stored, swap-stored}
use cs.Master.Merges.{adjust-stored}
use cs.Master.Kept.{IsKept-live_value}

-- The states reached from `m0`, with the writes made, the last one first. A hand-over is made where
-- `serve` asks for it; a merge ends at any later time. Words have 64 bits, and a time is not longer
-- than a first block.
pub data Reach (m0 : Master) : List (Key × Value) → Master → Type 0 where
  start : Reach m0 [] m0
  writes :
      {h : List (Key × Value)} {m m' : Master} (k : Key) (v : Value)
      → InRange 8 k
      → InRange 8 v
      → Reach m0 h m
      → dbwrite k v m ≡ some m'
      → Reach m0 ((k, v) ∷ h) m'
  hands_over :
      {h : List (Key × Value)} {m : Master}
      → Reach m0 h m
      → must_swap m ≡ true
      → Reach m0 h (swap m)
  adjusts :
      {h : List (Key × Value)} {m m' : Master} (time : List ℕ) (dummy : Key × Value)
      (unset : List ℕ) (unset_entry : Key × Value)
      → length time ≤ 128
      → length unset ≡ 128
      → Reach m0 h m
      → adjust time dummy unset unset_entry m ≡ some m'
      → Reach m0 h m'

pub must_swap_idle : (m : Master) → must_swap m ≡ true → m.reserve ≡ none
unfolding must_swap
must_swap_idle m h = elim (Option-cases m.reserve) [ inl e ↦ e | inr (t, e) ↦ ground arith ]

pub adjust_reserve :
    (time : List ℕ) (dummy : Key × Value) (unset : List ℕ) (e : Key × Value) (m : Master)
    {m' : Master}
    → adjust time dummy unset e m ≡ some m'
    → (t : Table) × (m.reserve ≡ some t)
unfolding adjust
adjust_reserve time dummy unset e m ran = elim (Option-cases m.reserve) [
  | inl none_left ↦ cc (rw (none_left, adjust) at ran)
  | inr held ↦ held
]

-- Two answers of which a reader of the store can see the same.
abbrev pub SeenAs : Master → List (Key × Value) → Master → Type 0
SeenAs m0 h m = (k : Key) → live_value (stored k m) ≡ live_value (or_else (find k h) (stored k m0))

written-SeenAs :
    (m0 m m' : Master) (h : List (Key × Value)) (k : Key) (v : Value)
    → SeenAs m0 h m
    → ((j : Key) → stored j m' ≡ (if same j k then some v else stored j m))
    → SeenAs m0 ((k, v) ∷ h) m'
written-SeenAs m0 m m' h k v seen now j = ap (λ x. live_value x) (now j) ∙ ground (arith, seen j)

-- From a valid state every state that is reached is valid, and every key has in it the value that
-- was written last, or else its first one, where a tombstone is as good as no value.
pub Reach-stored :
    {m0 m : Master} {h : List (Key × Value)} → IsValid m0 → Reach m0 h m → IsValid m × SeenAs m0 h m
Reach-stored v0 start = (v0, λ k. refl)
Reach-stored {m0} {m = m'} v0 (writes {h = h} {m = m} k v rk rv r ran) =
    let (valid, seen) = Reach-stored v0 r in
    let (m1, ran1, valid1, now) = dbwrite-stored k v m rk rv valid in
    let e : m1 ≡ m' = some_inj (sym ran1 ∙ ran) in
    subst (λ x. IsValid x × SeenAs m0 ((k, v) ∷ h) x) e
      (valid1, written-SeenAs m0 m m1 h k v seen now)
Reach-stored {m0} v0 (hands_over {h = h} {m = m} r due) =
    let (valid, seen) = Reach-stored v0 r in
    let (valid1, now) = swap-stored m valid (must_swap_idle m due) in
    (valid1, λ k. ap (λ x. live_value x) (now k) ∙ seen k)
Reach-stored {m0} {m = m'} v0 (adjusts {h = h} {m = m} time dummy unset e short whole r ran) =
    let (valid, seen) = Reach-stored v0 r in
    let (t, held) = adjust_reserve time dummy unset e m ran in
    let (m1, ran1, valid1, _, kept) = adjust-stored time dummy unset e m short whole valid held in
    let at : m1 ≡ m' = some_inj (sym ran1 ∙ ran) in
    subst (λ x. IsValid x × SeenAs m0 h x) at
      (valid1, λ k. IsKept-live_value (stored k m) (stored k m1) (kept k) ∙ seen k)

-- A read in a state reached from a valid one ends, from buffers that are sound and into such. What it
-- answers is the value that was written last for the key, or else the first one of the key, where a
-- tombstone is as good as no value.
pub dbread-Reach :
    (searcher : Searcher) (k : Key) (s : searcher.State) {m0 m : Master} {h : List (Key × Value)}
    → IsValid m0
    → Reach m0 h m
    → searcher.IsSound s
    → (answer : Option Value) × (s' : searcher.State) × (dbread searcher k m s ≡ some (answer, s'))
      × searcher.IsSound s'
      × (live_value answer ≡ live_value (or_else (find k h) (stored k m0)))
dbread-Reach searcher k s {m = m} v0 r sound =
    let (valid, seen) = Reach-stored v0 r in
    let (s', ran, sound') = dbread-stored searcher k m s valid sound in
    (stored k m, s', ran, sound', seen k)
