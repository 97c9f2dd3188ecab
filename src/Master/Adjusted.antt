-- ===== src/Master/Adjusted.antt =====
-- The state that `adjust` of master.cpp leaves, and the map that it stands for.
use cs.Prelude.{
  ℕ, zero, suc, ◌+◌, ◌-◌, ◌%◌, ◌<◌, ◌≡◌, refl, ap, ap₂, sym, ◌∙◌, List, [], Option, none, some,
  length, arith,
}
use Prim.Native.Nat.{◌*◌}
use mathlib.Core.Path.{subst}
use cs.Assoc.{find, or_else}
use cs.Key.{Key, Value}
use cs.Key.Laws.{words_ord}
use cs.Key.Bytes.{value_layout}
use cs.Level.{Level, blank, entries_of}
use cs.BinaryTree.{dump}
use cs.BinaryTree.Methods.{get}
use cs.Merge.{merge_files}
use cs.Merge.Reference.{live_value}
use cs.Merge.Reference.{merged}
use cs.Master.{Master, Table, num_files, update, get_reserve, adjust}
use cs.Master.Rounds.{down, below, down_all, down_next, chain, chain-append}
use cs.Master.View.{stored}
use cs.Master.Kept.{IsKept, IsKept-live, or_else_assoc, or_else-none}

-- Two file systems that agree on the files of the round.
pub chain_agree :
    (files files' : ℕ → Level Key Value) (n i : ℕ) (k : Key)
    → i < num_files
    → ((m : ℕ) → m < n → files' (below m i) ≡ files (below m i))
    → chain files' (down n i) k ≡ chain files (down n i) k
unfolding chain down below
chain_agree files files' zero i k h same_files = refl
chain_agree files files' (suc n) i k h same_files =
    let i' = (i + num_files - 1) % num_files in
    let here : (i + 9 * 0) % num_files ≡ i = omega arith in
    ap₂ or_else
      (ap (λ f. find k (entries_of f))
        (subst (λ j. files' j ≡ files j) here (same_files 0 (omega arith))))
      (chain_agree files files' n i' k (omega arith) (λ m l.
        let at : (i + 9 * suc m) % num_files ≡ (i' + 9 * m) % num_files = omega arith in
        subst (λ j. files' j ≡ files j) at (same_files (suc m) (omega arith))))

-- The value of a key where a merge of the two oldest files passes it over.
abbrev pub recent_value : Key → Master → Option Value
recent_value k m =
    or_else (get k m.bintree)
      (or_else (get_reserve k m.reserve) (chain m.filesys (down 8 m.recent) k))

-- The two oldest files: the newer of them, then the older.
abbrev pub oldest_value : Key → Master → Option Value
oldest_value k m =
    or_else (find k (entries_of (m.filesys ((m.recent + 2) % num_files))))
      (find k (entries_of (m.filesys ((m.recent + 1) % num_files))))

-- The state that `adjust` leaves.
abbrev pub adjusted : Level Key Value → Level Key Value → Master → Master
adjusted merged dumped m = record m {
  filesys =
      update (update m.filesys ((m.recent + 2) % num_files) merged) ((m.recent + 1) % num_files)
        dumped;
  tempfile = blank;
  recent = (m.recent + 1) % num_files;
  backups = update m.backups ((m.current + 1) % 2) [];
  reserve = none;
}

pub adjust_run :
    (time : List ℕ) (dummy : Key × Value) (unset : List ℕ) (e : Key × Value) (m : Master)
    {t t' : Table} {merged dumped : Level Key Value}
    → m.reserve ≡ some t
    → merge_files
        (suc (
          length (entries_of (m.filesys ((m.recent + 1) % num_files)))
          + length (entries_of (m.filesys ((m.recent + 2) % num_files)))))
        unset
        e
        (m.filesys ((m.recent + 2) % num_files))
        (m.filesys ((m.recent + 1) % num_files))
      ≡ some merged
    → dump 128 time dummy t ≡ some (t', dumped)
    → adjust time dummy unset e m ≡ some (adjusted merged dumped m)
unfolding adjust
adjust_run time dummy unset e m held merge dump_ran = rw (held, merge, dump_ran, adjust)

module _ (m : Master) (merged dumped : Level Key Value) (in_ring : m.recent < num_files)
    (k : Key) where
  chain_before :
      chain m.filesys (down num_files m.recent) k
      ≡ or_else (chain m.filesys (down 8 m.recent) k) (oldest_value k m)
  unfolding chain
  chain_before =
      ap (λ is. chain m.filesys is k) (down_all m.recent in_ring)
      ∙ chain-append m.filesys (down 8 m.recent) _ k
      ∙ ap
          (λ b.
            or_else (chain m.filesys (down 8 m.recent) k)
              (or_else (find k (entries_of (m.filesys ((m.recent + 2) % num_files)))) b))
          (or_else-none (find k (entries_of (m.filesys ((m.recent + 1) % num_files)))))

  untouched :
      (i : ℕ)
      → i < 8
      → (adjusted merged dumped m).filesys (below i m.recent) ≡ m.filesys (below i m.recent)
  unfolding below
  untouched i h = ground arith

  at_second : (adjusted merged dumped m).filesys ((m.recent + 2) % num_files) ≡ merged
  at_second = ground arith

  at_oldest : (adjusted merged dumped m).filesys ((m.recent + 1) % num_files) ≡ dumped
  at_oldest = ground arith

  chain_after :
      chain (adjusted merged dumped m).filesys (down num_files ((m.recent + 1) % num_files)) k
      ≡ or_else
          (find k (entries_of dumped))
          (or_else (chain m.filesys (down 8 m.recent) k) (find k (entries_of merged)))
  unfolding chain
  chain_after =
      let files' = (adjusted merged dumped m).filesys in
      ap (λ is. chain files' is k) (down_next m.recent in_ring)
      ∙ ap₂ or_else (ap (λ f. find k (entries_of f)) at_oldest) (
          chain-append files' (down 8 m.recent) _ k
          ∙ ap₂ or_else (chain_agree m.filesys files' 8 m.recent k in_ring untouched)
              (or_else-none _ ∙ ap (λ f. find k (entries_of f)) at_second))

-- The map after `adjust`, from the values of the two new files.
pub adjusted-IsKept :
    (m : Master) (merged dumped : Level Key Value) (k : Key)
    → m.recent < num_files
    → find k (entries_of dumped) ≡ get_reserve k m.reserve
    → find k (entries_of merged) ≡ live_value (oldest_value k m)
    → IsKept (stored k m) (stored k (adjusted merged dumped m))
adjusted-IsKept m merged dumped k in_ring d g =
    let a = get k m.bintree in
    let b = get_reserve k m.reserve in
    let c = chain m.filesys (down 8 m.recent) k in
    let split : (x : Option Value)
        → or_else a (or_else b (or_else c x)) ≡ or_else (recent_value k m) x =
      λ x. sym (or_else_assoc a (or_else b c) x ∙ ap (or_else a) (or_else_assoc b c x)) in
    let before : stored k m ≡ or_else (recent_value k m) (oldest_value k m) =
      ap (λ x. or_else a (or_else b x)) (chain_before m merged dumped in_ring k)
      ∙ split (oldest_value k m) in
    let after : stored k (adjusted merged dumped m)
        ≡ or_else (recent_value k m) (live_value (oldest_value k m)) =
      ap (or_else a)
        (chain_after m merged dumped in_ring k ∙ ap₂ (λ x y. or_else x (or_else c y)) d g)
      ∙ split (live_value (oldest_value k m)) in
    subst (IsKept (stored k m)) (sym after) (
      subst (λ x. IsKept x (or_else (recent_value k m) (live_value (oldest_value k m))))
        (sym before) (IsKept-live (recent_value k m) (oldest_value k m)))
