-- ===== src/Master/Race/Answers.antt =====
-- What a read answers while other threads write and `adjust` merges.
use cs.Prelude.{◌≡◌, ◌⊎◌, sym, ◌∙◌, List, [], Option, some, some_inj}
use mathlib.Core.Path.{subst}
use cs.Key.{Key, Value}
use cs.Key.Laws.{words_ord}
use cs.Key.Bytes.{value_layout}
use cs.Merge.Reference.{live_value}
use cs.Read.Searcher.{Searcher}
use cs.Master.{Master}
use cs.Master.Rounds.{below}
use cs.Master.Race.{
  idle, World, second_oldest, oldest, Pc, done, advance_reader, enter, is_timely, Race,
}
use cs.Master.Race.View.{value_in, value_in-idle, IsSound}
use cs.Master.View.{IsValid}
use cs.Master.Race.Moves.{with}
use cs.Master.Race.Place.{Wrote}
use cs.Master.Race.Reader.{Reading}
use cs.Master.Race.Arrives.{reads-Reading, enter-Reading, Race-Reading}

pub reached :
    (searcher : Searcher) (k : Key) {w0 w : World} (s : searcher.State) {pc0 pc : Pc searcher}
    {h : List (Key × Value)} (sound : IsSound w0)
    → searcher.IsSound s
    → enter searcher k w0.store s ≡ some pc0
    → Race searcher (is_timely searcher) k w0 pc0 h w pc
    → IsSound w × Reading searcher k w0 sound h w pc
reached searcher k {w0} s sound searching entered race =
    let (pc, ran, reading) = enter-Reading searcher k w0 sound s searching in
    Race-Reading searcher k w0 sound
      (subst (Reading searcher k w0 sound [] w0) (some_inj (sym ran ∙ entered)) reading) race

-- However the steps of a read, of other threads and of `adjust` fall, where a search of one level file by
-- this or another read is one step: a read that started on a sound
-- state, and during which no second merge begins, answers with the value that the key had at its start,
-- where a tombstone counts as no value, or with a value that was written for the key since.
pub read_answer :
    (searcher : Searcher) (k : Key) {w0 w : World} (s : searcher.State) {pc0 : Pc searcher}
    {h : List (Key × Value)} {a : Option Value}
    → IsSound w0
    → searcher.IsSound s
    → enter searcher k w0.store s ≡ some pc0
    → Race searcher (is_timely searcher) k w0 pc0 h w (done a)
    → (live_value a ≡ live_value (value_in k w0)) ⊎ ((v : Value) × (a ≡ some v) × Wrote k v h)
read_answer searcher k s sound searching entered race =
    (reached searcher k s sound searching entered race).1

-- A read that started on a sound state, and during which no second merge begins, never faults: from each
-- state that is reached it has a next step, and that state is sound.
pub read_total :
    (searcher : Searcher) (k : Key) {w0 w : World} (s : searcher.State) {pc0 pc : Pc searcher}
    {h : List (Key × Value)}
    → IsSound w0
    → searcher.IsSound s
    → enter searcher k w0.store s ≡ some pc0
    → Race searcher (is_timely searcher) k w0 pc0 h w pc
    → IsSound w × (pc' : Pc searcher) × (advance_reader searcher k w pc ≡ some pc')
read_total searcher k {w0} {w} s {pc = pc} {h = h} sound searching entered race =
    let (sound', reading) = reached searcher k s sound searching entered race in
    let (pc', ran, after) = reads-Reading searcher k w0 sound h w pc sound' reading in
    (sound', pc', ran)

-- A valid store with no merge on its way.
pub IsValid-IsSound : (m : Master) → IsValid m → IsSound (with m idle)
IsValid-IsSound m h = record {
  table = h.table;
  handed_over = h.handed_over;
  eight = λ n l. h.files (below n m.recent);
  tail = (h.files (second_oldest m), h.files (oldest m));
  in_ring = h.in_ring;
  filter = h.filter;
  known = λ k e. h.known k (sym (value_in-idle k m h.in_ring) ∙ e);
}
