-- ===== src/Master/Serve/Run.antt =====
-- A serial run of the threads of `run` in master.cpp on an empty store.
use cs.Prelude.{ℕ, ◌≡◌, refl, List, [], ◌∷◌, none, some}
use cs.Assoc.{find}
use cs.Key.{Key, Value}
use cs.Key.Laws.{words_ord}
use cs.Read.Searcher.{Searcher}
use cs.Master.{Master}
use cs.Master.View.{IsValid, stored}
use cs.Master.Serve.{get_lines, Line, parse}
use cs.Master.Serve.Threads.{Program, run, Serial}
use cs.Master.Serve.Outputs.{Spec, AllGood, Agrees, Serial-Agrees}

-- The cuts of no line fault.
abbrev pub AllParsed : List (List ℕ) → Type 0
AllParsed [] = Unit {0}
AllParsed (a ∷ more) = ((l : Line) × (parse a ≡ some l)) × AllParsed more

module _ (searcher : Searcher) where
  run-Agrees :
      (m : Master) (s : searcher.State) (files : ℕ → List ℕ)
      → IsValid m
      → ((k : Key) → stored k m ≡ none)
      → searcher.IsSound s
      → ((i : ℕ) → AllGood (get_lines (files i)))
      → Agrees searcher (run searcher m s files) []
  run-Agrees m s files valid nothing sound good = record {
    valid = valid;
    sound = sound;
    same_map = nothing;
    no_tomb = tt;
    good = good;
  }

  -- As `main-Spec` has it, from any valid and empty store.
  pub run-Spec :
      (m : Master) (s : searcher.State) (files : ℕ → List ℕ) {p : Program searcher}
      → IsValid m
      → ((k : Key) → stored k m ≡ none)
      → searcher.IsSound s
      → ((i : ℕ) → AllGood (get_lines (files i)))
      → Serial searcher (run searcher m s files) p
      → (h : List (Key × Value)) × Spec (λ i. get_lines (files i)) h p.rest p.outs
        × ((k : Key) → stored k p.store ≡ find k h)
  run-Spec m s files valid nothing sound good ran =
      let (h, spec, g) =
        Serial-Agrees searcher (run-Agrees m s files valid nothing sound good) refl ran in
      (h, spec, g.same_map)
