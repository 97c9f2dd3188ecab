-- ===== src/Master/Race/Steps.antt =====
-- The steps of the other threads in one form, for the lemmas that go through all of them.
use cs.Prelude.{
  suc, ◌+◌, Bool, true, ◌≡◌, refl, ap, ap₂, sym, ◌∙◌, List, [], ◌∷◌, Option, none, some, length,
  arith, if◌then◌else◌, Bool-cases, inl, inr, some_inj,
}
use mathlib.Core.Path.{subst}
use cs.Order.{same, same_comm, eq_of_same}
use cs.Assoc.{find, or_else}
use cs.Assoc.Each.{put-EachNode}
use cs.Key.{Key, Value}
use cs.Key.Laws.{words_ord}
use cs.Key.Bytes.{value_layout, InRange}
use cs.Level.{Level, entries_of}
use cs.BinaryTree.{insert}
use cs.BinaryTree.Methods.{get, get-insert, insert-IsValid, insert-root}
use cs.BinaryTree.Traversal.{dump-entries}
use cs.Bloom.{BloomFile, set_key}
use cs.Bloom.Membership.{set_key-kept}
use cs.Merge.Files.{merge_files-merged}
use cs.Read.Paged.{EntryInRange}
use cs.Master.{Master, Table, get_reserve, dbwrite, swap, must_swap}
use cs.Master.View.{IsValidTable}
use cs.Master.Reads.{get_new}
use cs.Master.Steps.{must_swap_idle}
use cs.Master.Race.{
  Job, idle, merging, dumping, World, second_oldest, oldest, put_file, close_job, Move, writes,
  hands_over, begins, overwrites_second, merges, overwrites_oldest, finishes,
}
use cs.Master.Race.View.{tail_value, eight_value, value_in, IsTail, IsSound}
use cs.Master.Race.Closes.{finishes-Follows}
use cs.Master.Race.Moves.{
  with, Follows, overwrites_second-Follows, overwrites_oldest-Follows, begins-Follows,
  merges-Follows,
}

module _ (m : Master) where
  write-IsTail :
      (j : Job) (k : Key) (v : Value) (b : BloomFile)
      → IsTail j m
      → IsTail j (record m { bintree = insert m.bintree k v; bloom = b })
  write-IsTail idle k v b h = h
  write-IsTail (merging c) k v b h = h
  write-IsTail dumping k v b h = h

  pub write-tail_value :
      (j : Job) (q k : Key) (v : Value) (b : BloomFile)
      → tail_value q j (record m { bintree = insert m.bintree k v; bloom = b }) ≡ tail_value q j m
  write-tail_value idle q k v b = refl
  write-tail_value (merging c) q k v b = refl
  write-tail_value dumping q k v b = refl

  write-value_in :
      (j : Job) (q k : Key) (v : Value) (b : BloomFile)
      → value_in q (with (record m { bintree = insert m.bintree k v; bloom = b }) j)
        ≡ or_else (find q ((k, v) ∷ [])) (value_in q (with m j))
  write-value_in j q k v b =
      let rest =
        λ (t : Option Value). or_else (get_reserve q m.reserve) (or_else (eight_value q m) t) in
      let tail = write-tail_value j q k v b in
      let now = get-insert m.bintree k q v in
      ap₂ (λ g t. or_else g (rest t)) now tail ∙ elim (Bool-cases (same q k)) [
        | inl e ↦ rw (e, sym (same_comm q k) ∙ e)
        | inr ne ↦ rw (ne, sym (same_comm q k) ∙ ne)
      ]

  swap-IsTail : (j : Job) → m.reserve ≡ none → IsTail j m → IsTail j (swap m)
  unfolding swap
  swap-IsTail idle e h = h
  swap-IsTail (merging c) e h = let clash : none ≡ some h.2 = sym e ∙ h.3 in cc
  swap-IsTail dumping e h = let clash : none ≡ some h.1 = sym e ∙ h.2 in cc

  pub swap-tail_value : (j : Job) (q : Key) → tail_value q j (swap m) ≡ tail_value q j m
  unfolding swap
  swap-tail_value idle q = refl
  swap-tail_value (merging c) q = refl
  swap-tail_value dumping q = refl

  swap-value_in :
      (j : Job) (q : Key) → m.reserve ≡ none → value_in q (with (swap m) j) ≡ value_in q (with m j)
  unfolding swap
  swap-value_in j q e =
      let rest = λ (t : Option Value). or_else (eight_value q m) t in
      ap (λ g. or_else g (or_else (get q m.bintree) (rest (tail_value q j (swap m)))))
        (get_new q (some []))
      ∙ ap₂ (λ r t. or_else (get q m.bintree) (or_else (get_reserve q r) (rest t))) (sym e)
          (swap-tail_value j q)

  swap-Follows :
      (j : Job) → must_swap m ≡ true → IsSound (with m j) → Follows [] (with m j) (with (swap m) j)
  unfolding swap
  swap-Follows j due h =
      let e = must_swap_idle m due in
      (
        record {
          table = (record { ordered = tt; counted = refl }, tt);
          handed_over = λ t g. subst IsValidTable (some_inj g) h.table;
          eight = h.eight;
          tail = swap-IsTail j e h.tail;
          in_ring = h.in_ring;
          filter = h.filter;
          known = λ k g. h.known k (sym (swap-value_in j k e) ∙ g);
        },
        λ k. inl (swap-value_in j k e),
      )

  pub write_state :
      (k : Key) (v : Value) {b : BloomFile} {m' : Master}
      → set_key k m.bloom ≡ some b
      → dbwrite k v m ≡ some m'
      → record m { bintree = insert m.bintree k v; bloom = b } ≡ m'
  unfolding dbwrite
  write_state k v e ran = some_inj (sym (rw (e, dbwrite)) ∙ ran)

  write-Follows :
      (j : Job) (k : Key) (v : Value) {m' : Master}
      → InRange 8 k
      → InRange 8 v
      → dbwrite k v m ≡ some m'
      → IsSound (with m j)
      → Follows ((k, v) ∷ []) (with m j) (with m' j)
  write-Follows j k v rk rv ran h =
      let (b, set_ran, filter', here, kept) = set_key-kept k m.bloom h.filter in
      let m1 : Master = record m { bintree = insert m.bintree k v; bloom = b } in
      subst (λ x. Follows ((k, v) ∷ []) (with m j) (with x j)) (write_state k v set_ran ran)
        (
          record {
            table = (
              insert-IsValid m.bintree k v h.table.0,
              rw (insert-root m.bintree k v)
                  (put-EachNode EntryInRange k v m.bintree.root (rk, rv) h.table.1),
            );
            handed_over = h.handed_over;
            eight = h.eight;
            tail = write-IsTail j k v b h.tail;
            in_ring = h.in_ring;
            filter = filter';
            known = λ q e. elim (Bool-cases (same k q)) [
              | inl s ↦ rw (← eq_of_same k q s) here
              | inr ne ↦ kept q (
                  h.known q (
                    sym (
                      write-value_in j q k v b
                      ∙ ap (λ t. or_else (if t then some v else none) (value_in q (with m j))) ne)
                    ∙ e))
            ];
          },
          λ q. inl (write-value_in j q k v b),
        )

-- A state whose job is known.
pub at_job : (w : World) {j : Job} → w.job ≡ j → w ≡ with w.store j
at_job w e = ap (with w.store) e

from_job :
    (w w' : World) {j : Job}
    → w.job ≡ j
    → (IsSound (with w.store j) → Follows [] (with w.store j) w')
    → IsSound w
    → Follows [] w w'
from_job w w' e step h =
    subst (λ x. Follows [] x w') (sym (at_job w e)) (step (subst IsSound (at_job w e) h))

-- Every step of another thread keeps the invariant, and every key has after it the value that the step
-- wrote, or what it had, but for a tombstone that a merge drops.
pub Move-Follows :
    {free : Bool} {e : List (Key × Value)} {w w' : World}
    → Move free w e w'
    → IsSound w
    → Follows e w w'
Move-Follows {w = w} (writes k v rk rv ran) h = write-Follows w.store w.job k v rk rv ran h
Move-Follows {w = w} (hands_over due) h = swap-Follows w.store w.job due h
Move-Follows {w = w} {w' = w'} (begins free e held) h =
    from_job w w' e (begins-Follows w.store held) h
Move-Follows {w = w} (overwrites_second {copied = c} f e) h =
    let at = at_job w e in
    subst (λ j. Follows [] (with w.store j) (with (put_file (second_oldest w.store) f w.store) j))
      (sym e) (overwrites_second-Follows w.store c f (subst IsSound at h))
Move-Follows {w = w} {w' = w'} (merges {copied = c} unset entry whole e ran) h =
    let file1 = w.store.filesys (oldest w.store) in
    let same_file = some_inj (
      sym (
        merge_files-merged (suc (length (entries_of file1) + length (entries_of c))) unset entry c
          file1 (omega arith))
      ∙ ran) in
    from_job w w' e
      (λ s.
        subst
          (λ f.
            Follows [] (with w.store (merging c))
              (with (put_file (second_oldest w.store) f w.store) dumping))
          same_file (merges-Follows w.store c unset whole s))
      h
Move-Follows {w = w} (overwrites_oldest f e) h =
    let at = at_job w e in
    subst (λ j. Follows [] (with w.store j) (with (put_file (oldest w.store) f w.store) j)) (sym e)
      (overwrites_oldest-Follows w.store f (subst IsSound at h))
Move-Follows {w = w} {w' = w'} (finishes {t = t} time dummy short e held ran) h =
    let same_file =
      ap (λ (x : Table × Level Key Value). x.1)
        (some_inj (sym (dump-entries 128 time dummy t) ∙ ran)) in
    from_job w w' e
      (λ s.
        subst
          (λ f.
            Follows [] (with w.store dumping)
              (with (close_job (put_file (oldest w.store) f w.store)) idle))
          same_file (finishes-Follows w.store time short held s))
      h
