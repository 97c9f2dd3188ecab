-- ===== src/Master/Serve/Answers.antt =====
-- What a line of a batch file does to the store in `serve` of master.cpp, and what is written for it.
use cs.Prelude.{
  ◌>>=◌, ℕ, ◌≡◌, ◌⊎◌, refl, ap, sym, ◌∙◌, List, [], Option, none, some, if◌then◌else◌, Bool-cases,
  Option-cases, inl, inr,
}
use cs.Order.{same}
use cs.Key.{Key, Value}
use cs.Key.Laws.{words_ord}
use cs.Read.Searcher.{Searcher}
use cs.Master.{Master, must_swap, dbread, dbwrite}
use cs.Master.View.{stored, IsValid}
use cs.Master.Reads.{dbread-stored, dbwrite-stored, swap-stored}
use cs.Master.Steps.{must_swap_idle}
use cs.Master.Serve.{
  Line, read_line, write_line, other_line, parse, answer_text, after_line, serve_line,
}
use cs.Master.Serve.Objects.{IsBytes, IsWide, parse-IsWide}

-- What the map of the store says of a line: the output, and the value of a key afterwards.
abbrev pub output : Line → Master → List ℕ
output (read_line k) m = answer_text (stored k m)
output (write_line k v) m = []
output other_line m = []

abbrev pub value_after : Line → Master → Key → Option Value
value_after (read_line k) m j = stored j m
value_after (write_line k v) m j = if same j k then some v else stored j m
value_after other_line m j = stored j m

after_line-stored :
    (m : Master)
    → IsValid m
    → IsValid (after_line m) × ((k : Key) → stored k (after_line m) ≡ stored k m)
unfolding after_line
after_line-stored m h = elim (Bool-cases (must_swap m)) [
  | inl e ↦ rw (e, after_line) (swap-stored m h (must_swap_idle m e))
  | inr ne ↦ rw (ne, after_line) (h, λ k. refl)
]

module _ (searcher : Searcher) where
  -- The rest of the body of the loop, for what was taken from the line.
  abbrev obey : Line → Master → searcher.State → Option (List ℕ × Master × searcher.State)
  obey (read_line k) m s = dbread searcher k m s >>= λ r. some (answer_text r.0, after_line m, r.1)
  obey (write_line k v) m s = dbwrite k v m >>= λ m'. some ([], after_line m', s)
  obey other_line m s = some ([], after_line m, s)

  serve_line_parsed :
      (l : Line) (a : List ℕ) (m : Master) (s : searcher.State)
      → parse a ≡ some l
      → serve_line searcher a m s ≡ obey l m s
  unfolding serve_line
  serve_line_parsed (read_line k) a m s e = rw (e, serve_line)
  serve_line_parsed (write_line k v) a m s e = rw (e, serve_line)
  serve_line_parsed other_line a m s e = rw (e, serve_line)

  obey-stored :
      (l : Line) (m : Master) (s : searcher.State)
      → IsWide l
      → IsValid m
      → searcher.IsSound s
      → (m' : Master) × (s' : searcher.State) × (obey l m s ≡ some (output l m, m', s'))
        × IsValid m'
        × searcher.IsSound s'
        × ((j : Key) → stored j m' ≡ value_after l m j)
  obey-stored (read_line k) m s p h sound =
      let (s', ran, sound') = dbread-stored searcher k m s h sound in
      let (valid, same_map) = after_line-stored m h in
      (
        after_line m,
        s',
        ap (λ r. r >>= λ r. some (answer_text r.0, after_line m, r.1)) ran,
        valid,
        sound',
        same_map,
      )
  obey-stored (write_line k v) m s (rk, rv) h sound =
      let (m1, ran, valid1, now) = dbwrite-stored k v m rk rv h in
      let (valid, same_map) = after_line-stored m1 valid1 in
      (
        after_line m1,
        s,
        ap (λ r. r >>= λ m'. some ([], after_line m', s)) ran,
        valid,
        sound,
        λ j. same_map j ∙ now j,
      )
  obey-stored other_line m s p h sound =
      let (valid, same_map) = after_line-stored m h in
      (after_line m, s, refl, valid, sound, same_map)

  serve_line_refused :
      (a : List ℕ) (m : Master) (s : searcher.State)
      → parse a ≡ none
      → serve_line searcher a m s ≡ none
  unfolding serve_line
  serve_line_refused a m s e = rw (e, serve_line)

  -- A line that was parsed, as `serve_line-cases` has it.
  abbrev pub Obeyed : Line → List ℕ → Master → searcher.State → Type 0
  Obeyed l a m s =
      (m' : Master) × (s' : searcher.State) × (serve_line searcher a m s
        ≡ some (output l m, m', s'))
      × IsValid m'
      × searcher.IsSound s'
      × ((j : Key) → stored j m' ≡ value_after l m j)

  pub serve_line-Obeyed :
      (l : Line) (a : List ℕ) (m : Master) (s : searcher.State)
      → IsBytes a
      → parse a ≡ some l
      → IsValid m
      → searcher.IsSound s
      → Obeyed l a m s
  serve_line-Obeyed l a m s bytes e h sound =
      let (m', s', ran, valid, sound', now) = obey-stored l m s (parse-IsWide a bytes e) h sound in
      (m', s', serve_line_parsed l a m s e ∙ ran, valid, sound', now)

  -- Any line of bytes, in a valid state with sound buffers, where no other thread has a step until it is
  -- done. Either its cuts fault, and so does the line; or it is done without a fault, into such a state:
  -- a read writes the value that the store has for the key, or that there is none, a write changes the
  -- value of its key alone, and any other line changes and writes nothing.
  pub serve_line-cases :
      (a : List ℕ) (m : Master) (s : searcher.State)
      → IsBytes a
      → IsValid m
      → searcher.IsSound s
      → ((parse a ≡ none) × (serve_line searcher a m s ≡ none))
        ⊎ ((l : Line) × (parse a ≡ some l) × Obeyed l a m s)
  serve_line-cases a m s bytes h sound = elim (Option-cases (parse a)) [
    | inl e ↦ inl (e, serve_line_refused a m s e)
    | inr (l, e) ↦ inr (l, e, serve_line-Obeyed l a m s bytes e h sound)
  ]

  -- What was done was parsed.
  pub parsed :
      (a : List ℕ) (m : Master) (s : searcher.State) {done : List ℕ × Master × searcher.State}
      → serve_line searcher a m s ≡ some done
      → (l : Line) × (parse a ≡ some l)
  parsed a m s {done} ran = elim (Option-cases (parse a)) [
    | inl e ↦ let clash : none ≡ some done = sym (serve_line_refused a m s e) ∙ ran in cc
    | inr found ↦ found
  ]
