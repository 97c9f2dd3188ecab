-- ===== src/Master/Serve/Outputs.antt =====
-- What the threads of `run` write, beside the answers of one map to their lines.
use cs.Prelude.{
  ℕ, true, false, ◌≡◌, refl, ap, sym, ◌∙◌, List, [], ◌∷◌, ◌++◌, Option, none, some, ◌==◌,
  if◌then◌else◌, Bool-cases, inl, inr, some_inj,
}
use mathlib.Core.Path.{subst}
use cs.Order.{same, same_comm}
use cs.Layout.{is_tomb}
use cs.Assoc.{find}
use cs.Key.{Key, Value}
use cs.Key.Laws.{words_ord}
use cs.Key.Bytes.{value_layout}
use cs.Read.Searcher.{Searcher}
use cs.Master.{Master, update}
use cs.Master.Kept.{IsKept}
use cs.Master.View.{IsValid, stored}
use cs.Master.Merges.{adjust-stored}
use cs.Master.Steps.{adjust_reserve}
use cs.Master.Serve.{Line, read_line, write_line, other_line, parse, answer_text, serve_line}
use cs.Master.Serve.Objects.{IsBytes}
use cs.Master.Serve.Answers.{output, value_after, serve_line-Obeyed, parsed}
use cs.Master.Serve.Threads.{Program, served, Serial, start, serves, adjusts}

-- One map, as the list of its writes, the last one first.
abbrev pub told : Line → List (Key × Value) → List ℕ
told (read_line k) h = answer_text (find k h)
told (write_line k v) h = []
told other_line h = []

abbrev pub written : Line → List (Key × Value) → List (Key × Value)
written (read_line k) h = h
written (write_line k v) h = (k, v) ∷ h
written other_line h = h

-- The lines of the threads, done one after the other on that map: its writes, the lines that are left, and
-- what was written for each thread.
pub data Spec (lines0 : ℕ → List (List ℕ))
    : List (Key × Value) → (ℕ → List (List ℕ)) → (ℕ → List ℕ) → Type 0 where
  begun : Spec lines0 [] lines0 (λ i. [])
  obeys :
      {h : List (Key × Value)} {lines : ℕ → List (List ℕ)} {outs : ℕ → List ℕ} (i : ℕ) {l : Line}
      {a : List ℕ} {more : List (List ℕ)}
      → Spec lines0 h lines outs
      → lines i ≡ a ∷ more
      → parse a ≡ some l
      → Spec lines0 (written l h) (update lines i more) (update outs i (outs i ++ told l h))

abbrev pub IsLive : Line → Type 0
IsLive (read_line k) = Unit {0}
IsLive (write_line k v) = is_tomb v ≡ false
IsLive other_line = Unit {0}

-- Lines of bytes, none of which writes a tombstone.
abbrev pub AllGood : List (List ℕ) → Type 0
AllGood [] = Unit {0}
AllGood (a ∷ more) = IsBytes a × ((l : Line) → parse a ≡ some l → IsLive l) × AllGood more

abbrev NoTomb : List (Key × Value) → Type 0
NoTomb [] = Unit {0}
NoTomb ((k, v) ∷ h) = (is_tomb v ≡ false) × NoTomb h

find-NoTomb :
    (k : Key) (h : List (Key × Value)) {v : Value}
    → NoTomb h
    → find k h ≡ some v
    → is_tomb v ≡ false
find-NoTomb k [] {v} n e = let clash : none ≡ some v = e in cc
find-NoTomb k ((j, u) ∷ h) {v} (live, n) e = elim (Bool-cases (same j k)) [
  | inl s ↦
      let is_v : some u ≡ some v = sym (ap (λ b. if b then some u else find k h) s) ∙ e in
      subst (λ x. is_tomb x ≡ false) (some_inj is_v) live
  | inr ne ↦ find-NoTomb k h n (sym (ap (λ b. if b then some u else find k h) ne) ∙ e)
]

written-NoTomb : (l : Line) (h : List (Key × Value)) → IsLive l → NoTomb h → NoTomb (written l h)
written-NoTomb (read_line k) h live n = n
written-NoTomb (write_line k v) h live n = (live, n)
written-NoTomb other_line h live n = n

module _ (m : Master) (h : List (Key × Value)) (same_map : (k : Key) → stored k m ≡ find k h) where
  output-told : (l : Line) → output l m ≡ told l h
  output-told (read_line k) = ap (λ a. answer_text a) (same_map k)
  output-told (write_line k v) = refl
  output-told other_line = refl

  value_after-find : (l : Line) (j : Key) → value_after l m j ≡ find j (written l h)
  value_after-find (read_line k) j = same_map j
  value_after-find (write_line k v) j =
      ap (λ x. if same j k then some v else x) (same_map j)
      ∙ ap (λ b. if b then some v else find j h) (same_comm j k)
  value_after-find other_line j = same_map j

  merged-find : (k : Key) {a : Option Value} → NoTomb h → IsKept (stored k m) a → a ≡ find k h
  merged-find k n (inl e) = e ∙ same_map k
  merged-find k n (inr (gone, v, was, t)) =
      let clash : true ≡ false = sym t ∙ find-NoTomb k h n (sym (same_map k) ∙ was) in cc

-- A property of a function outlives an update.
update_each :
    {A : Type 0} (P : A → Type 0) (f : ℕ → A) (i : ℕ) (a : A)
    → P a
    → ((j : ℕ) → P (f j))
    → (j : ℕ) → P (update f i a j)
update_each P f i a here there j = elim (Bool-cases (i == j)) [
  | inl e ↦ subst (λ t. P (if t then a else f j)) (sym e) here
  | inr ne ↦ subst (λ t. P (if t then a else f j)) (sym ne) (there j)
]

module _ (searcher : Searcher) where
  -- The store of a program as one map.
  pub record Agrees (p : Program searcher) (h : List (Key × Value)) : Type 0 where
    pub valid : IsValid p.store
    pub sound : searcher.IsSound p.buffers
    pub same_map : (k : Key) → stored k p.store ≡ find k h
    pub no_tomb : NoTomb h
    pub good : (i : ℕ) → AllGood (p.rest i)

  -- A line of a thread, done.
  pub serves-Agrees :
      (p : Program searcher) (h : List (Key × Value)) (i : ℕ) {a : List ℕ} {more : List (List ℕ)}
      (l : Line)
      → Agrees p h
      → p.rest i ≡ a ∷ more
      → parse a ≡ some l
      → (done : List ℕ × Master × searcher.State) × (serve_line searcher a p.store p.buffers
          ≡ some done)
        × (done.0 ≡ told l h)
        × Agrees (served searcher i more done p) (written l h)
  serves-Agrees p h i {a} {more} l g next e =
      let (bytes, live, good) = subst AllGood next (g.good i) in
      let (m', s', ran, valid, sound, now) =
        serve_line-Obeyed searcher l a p.store p.buffers bytes e g.valid g.sound in
      (
        (output l p.store, m', s'),
        ran,
        output-told p.store h g.same_map l,
        record {
          valid = valid;
          sound = sound;
          same_map = λ k. now k ∙ value_after-find p.store h g.same_map l k;
          no_tomb = written-NoTomb l h (live l e) g.no_tomb;
          good = update_each AllGood p.rest i more good g.good;
        },
      )

  -- What a step of the program is on the one map.
  pub Serial-Agrees :
      {p0 p : Program searcher}
      → Agrees p0 []
      → p0.outs ≡ (λ i. [])
      → Serial searcher p0 p
      → (h : List (Key × Value)) × Spec p0.rest h p.rest p.outs × Agrees p h
  Serial-Agrees {p0} g0 silent start = ([], subst (Spec p0.rest [] p0.rest) (sym silent) begun, g0)
  Serial-Agrees {p0} g0 silent
        (serves {p = p} i {a = a} {more = more} {done = done} before next ran) =
      let (h, spec, g) = Serial-Agrees g0 silent before in
      let (l, e) = parsed searcher a p.store p.buffers ran in
      let (done', ran', is_told, g') = serves-Agrees p h i l g next e in
      let same_done = some_inj (sym ran' ∙ ran) in
      (
        written l h,
        subst
            (λ out.
              Spec p0.rest (written l h) (update p.rest i more) (update p.outs i (p.outs i ++ out)))
            (sym is_told ∙ ap (λ (x : List ℕ × Master × searcher.State). x.0) same_done)
            (obeys i spec next e),
        subst (λ d. Agrees (served searcher i more d p) (written l h)) same_done g',
      )
  Serial-Agrees g0 silent (adjusts {p = p} {m = m'} time dummy unset e short whole before ran) =
      let (h, spec, g) = Serial-Agrees g0 silent before in
      let (t, held) = adjust_reserve time dummy unset e p.store ran in
      let (m1, ran1, valid1, _, kept) =
        adjust-stored time dummy unset e p.store short whole g.valid held in
      let is_m1 : m1 ≡ m' = some_inj (sym ran1 ∙ ran) in
      (
        h,
        spec,
        subst (λ x. Agrees (record p { store = x }) h) is_m1
            (record {
              valid = valid1;
              sound = g.sound;
              same_map = λ k. merged-find p.store h g.same_map k g.no_tomb (kept k);
              no_tomb = g.no_tomb;
              good = g.good;
            }),
      )
