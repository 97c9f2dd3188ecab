-- ===== src/Master/Race/Keeps.antt =====
-- The steps of the other threads, against what a read on its way relies on.
use cs.Prelude.{
  ℕ, suc, ◌+◌, Bool, true, ◌≡◌, ap, sym, ◌∙◌, List, [], ◌∷◌, ◌++◌, Option, length, arith, some_inj,
}
use mathlib.Core.Path.{subst}
use cs.Key.{Key, Value}
use cs.Key.Laws.{words_ord}
use cs.Key.Bytes.{value_layout}
use cs.Level.{Level, entries_of}
use cs.BinaryTree.Traversal.{dump-find}
use cs.Bloom.Membership.{set_key-kept}
use cs.Merge.Files.{merge_files-find}
use cs.Read.Searcher.{IsStored-IsSorted}
use cs.Master.{Table, get_reserve}
use cs.Master.Race.{
  Job, World, second_oldest, oldest, put_file, Move, writes, hands_over, begins, overwrites_second,
  merges, overwrites_oldest, finishes,
}
use cs.Master.Race.View.{found, IsSound}
use cs.Master.Race.Moves.{with}
use cs.Master.Race.Steps.{at_job, write_state}
use cs.Master.Race.Place.{
  InPlace, writes-InPlace, swap-InPlace, overwrites_second-InPlace, overwrites_oldest-InPlace,
  merges-InPlace, finishes-InPlace, begins-InPlace,
}

module _ (k : Key) (files0 : ℕ → Level Key Value) (seen : Option Value) (r : ℕ)
    (h : List (Key × Value)) where
  abbrev Stays : List (Key × Value) → World → Type 0
  Stays e w = InPlace k files0 seen r (e ++ h) w

  placed : (w : World) {j : Job} → w.job ≡ j → Stays [] w → Stays [] (with w.store j)
  placed w e p = subst (Stays []) (at_job w e) p

  sound : (w : World) {j : Job} → w.job ≡ j → IsSound w → IsSound (with w.store j)
  sound w e s = subst IsSound (at_job w e) s

  pub Move-InPlace :
      {free : Bool} {e : List (Key × Value)} {w w' : World}
      → Move free w e w'
      → IsSound w
      → (free ≡ true → w.store.recent ≡ r)
      → InPlace k files0 seen r h w
      → InPlace k files0 seen r (e ++ h) w'
  Move-InPlace {w = w} (writes j v rj rv ran) s timely p =
      let (b, set_ran, filter', here, kept) = set_key-kept j w.store.bloom s.filter in
      subst (λ m. Stays ((j, v) ∷ []) (with m w.job)) (write_state w.store j v set_ran ran)
        (writes-InPlace k files0 seen r h w.store w.job j v b p)
  Move-InPlace {w = w} (hands_over due) s timely p = swap-InPlace k files0 seen r h w.store w.job p
  Move-InPlace {w = w} (begins free e held) s timely p =
      begins-InPlace k files0 seen w.store h r (timely free) (placed w e p)
  Move-InPlace {w = w} (overwrites_second {copied = c} f e) s timely p =
      subst (λ j. Stays [] (with (put_file (second_oldest w.store) f w.store) j)) (sym e)
        (overwrites_second-InPlace k files0 seen w.store h r c f s.in_ring (placed w e p))
  Move-InPlace {w = w} (merges {copied = c} {merged = new} unset entry whole e ran) s timely p =
      let file1 = w.store.filesys (oldest w.store) in
      let tail = (sound w e s).tail in
      let (file, merged, sorted, finds) =
        merge_files-find (suc (length (entries_of file1) + length (entries_of c))) unset entry c
          file1 (omega arith) (IsStored-IsSorted c tail.0) (IsStored-IsSorted file1 tail.1) in
      merges-InPlace k files0 seen w.store h r c new s.in_ring
        (ap (found k) (some_inj (sym ran ∙ merged)) ∙ finds k) (placed w e p)
  Move-InPlace {w = w} (overwrites_oldest f e) s timely p =
      subst (λ j. Stays [] (with (put_file (oldest w.store) f w.store) j)) (sym e)
        (overwrites_oldest-InPlace k files0 seen w.store h r f s.in_ring (placed w e p))
  Move-InPlace {w = w} (finishes {t = t} {dumped = dumped} time dummy short e held ran) s timely p =
      let valid = s.handed_over t held in
      let (t', file, dump_ran, sorted, finds, root) = dump-find 128 time dummy t valid.0 in
      let is_file : dumped ≡ file =
        ap (λ (x : Table × Level Key Value). x.1) (some_inj (sym ran ∙ dump_ran)) in
      finishes-InPlace k files0 seen w.store h r dumped s.in_ring
        (ap (found k) is_file ∙ finds k ∙ sym (ap (get_reserve k) held)) (placed w e p)
