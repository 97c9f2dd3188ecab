-- ===== src/Master/Reads.antt =====
-- What `dbread` and `dbwrite` of master.cpp and the hand-over in `serve` promise: the store is a map.
use cs.Prelude.{
  true, false, ◌≡◌, refl, ap, sym, ◌∙◌, List, [], Option, none, some, if◌then◌else◌, arith,
  Bool-cases, some_inj, Option-cases, inl, inr,
}
use cs.Order.{same, eq_of_same}
use cs.Assoc.{or_else}
use cs.Key.{Key, Value}
use cs.Key.Laws.{words_ord}
use cs.Tree.{search_node, descend, deref, value_of, differs}
use cs.Tree.Lookup.{read}
use cs.BinaryTree.{LogEntry, new_tree, insert}
use cs.BinaryTree.Methods.{get, get-insert, insert-IsValid}
use cs.Bloom.{BloomFile, get_key}
use cs.Bloom.Membership.{set_key-kept, get_key_total}
use cs.Assoc.Each.{put-EachNode}
use cs.Key.Bytes.{InRange}
use cs.Read.Paged.{EntryInRange}
use cs.Read.Searcher.{Searcher}
use cs.BinaryTree.Methods.{insert-root}
use cs.Master.{Master, num_files, get_reserve, read_levels, dbread, dbwrite, swap}
use cs.Master.Rounds.{down, chain, read_levels-chain}
use cs.Master.View.{stored, IsValid, IsValidTable}
use mathlib.Core.Path.{subst}

module _ (searcher : Searcher) where
  dbread_no :
      (k : Key) (m : Master) (s : searcher.State)
      → get_key k m.bloom ≡ some false
      → dbread searcher k m s ≡ some (none, s)
  unfolding dbread
  dbread_no k m s e = rw (e, dbread)

  -- The searches of the memory and of the files, after the filter said yes.
  dbread_yes :
      (k : Key) (m : Master) (s s' : searcher.State) (a b : Option Value) {c : Option Value}
      → get_key k m.bloom ≡ some true
      → get k m.bintree ≡ a
      → get_reserve k m.reserve ≡ b
      → searcher.IsSound s
      → read_levels searcher m.filesys m.recent k s ≡ some (c, s')
      → searcher.IsSound s'
      → (s'' : searcher.State) × (dbread searcher k m s ≡ some (or_else a (or_else b c), s''))
        × searcher.IsSound s''
  unfolding dbread
  dbread_yes k m s s' none none e ea eb sound ec sound' =
      (s', rw (e, dbread) (ground arith), sound')
  dbread_yes k m s s' none (some v) e ea eb sound ec sound' =
      (s, rw (e, dbread) (ground arith), sound)
  dbread_yes k m s s' (some v) b e ea eb sound ec sound' = (s, rw (e, dbread) (ground arith), sound)

  -- In a valid state `dbread` ends, gives the value that the store has for the key, or `false` where it
  -- has none, and leaves the buffers sound.
  pub dbread-stored :
      (k : Key) (m : Master) (s : searcher.State)
      → IsValid m
      → searcher.IsSound s
      → (s' : searcher.State) × (dbread searcher k m s ≡ some (stored k m, s'))
        × searcher.IsSound s'
  dbread-stored k m s v sound =
      let (answer, e) = get_key_total k m.bloom in
      elim (Bool-cases answer) [
        | inl t ↦
            let (s1, ran, sound1) =
              read_levels-chain searcher m.filesys v.files k m.recent s v.in_ring sound in
            dbread_yes k m s s1 (get k m.bintree) (get_reserve k m.reserve) (e ∙ ap some t) refl
              refl sound ran sound1
        | inr f ↦ elim (Option-cases (stored k m)) [
          | inl absent ↦
              (s, dbread_no k m s (e ∙ ap some f) ∙ ap (λ a. some (a, s)) (sym absent), sound)
          | inr (w, present) ↦
              let clash : some false ≡ some true = sym (e ∙ ap some f) ∙ v.known k present in cc
        ]
      ]

stored-written :
    (k j : Key) (v : Value) (m : Master) (b : BloomFile)
    → stored j (record m { bintree = insert m.bintree k v; bloom = b })
      ≡ (if same j k then some v else stored j m)
stored-written k j v m b = elim (Bool-cases (same j k)) [
  | inl e ↦
      let g : get j (insert m.bintree k v) ≡ some v = get-insert m.bintree k j v ∙ rw e in
      ap
        (λ g.
          or_else g
            (or_else (get_reserve j m.reserve) (chain m.filesys (down num_files m.recent) j)))
        g
      ∙ rw e
  | inr ne ↦
      let g : get j (insert m.bintree k v) ≡ get j m.bintree = get-insert m.bintree k j v ∙ rw ne in
      ap
        (λ g.
          or_else g
            (or_else (get_reserve j m.reserve) (chain m.filesys (down num_files m.recent) j)))
        g
      ∙ rw ne
]

-- From a valid state `dbwrite(k, v)` ends in a valid one, in which `k` has the value `v` and every
-- other key what it had. The words of the key and the value have 64 bits.
pub dbwrite-stored :
    (k : Key) (v : Value) (m : Master)
    → InRange 8 k
    → InRange 8 v
    → IsValid m
    → (m' : Master) × (dbwrite k v m ≡ some m')
      × IsValid m'
      × ((j : Key) → stored j m' ≡ (if same j k then some v else stored j m))
unfolding dbwrite
dbwrite-stored k v m rk rv h =
    let (b, ran, filter', here, kept) = set_key-kept k m.bloom h.filter in
    let m' : Master = record m { bintree = insert m.bintree k v; bloom = b } in
    let now : (j : Key) → stored j m' ≡ (if same j k then some v else stored j m) =
      λ j. stored-written k j v m b in
    (
      m',
      rw (ran, dbwrite),
      record {
        table = (
          insert-IsValid m.bintree k v h.table.0,
          rw (insert-root m.bintree k v)
              (put-EachNode EntryInRange k v m.bintree.root (rk, rv) h.table.1),
        );
        handed_over = h.handed_over;
        files = h.files;
        in_ring = h.in_ring;
        filter = filter';
        known = λ j e. elim (Bool-cases (same j k)) [
          | inl s ↦ rw (eq_of_same j k s) here
          | inr ne ↦
              kept j (h.known j (sym (now j ∙ ap (λ t. if t then some v else stored j m) ne) ∙ e))
        ];
      },
      now,
    )

pub get_new :
    (k : Key) (log : Option (List (LogEntry Key Value))) → get k (new_tree {V = Value} log) ≡ none
unfolding read search_node descend deref value_of differs
get_new k log = refl

-- From a valid state with no reserve the hand-over of the table leads to a valid state, and every key has
-- the value that it had.
pub swap-stored :
    (m : Master)
    → IsValid m
    → m.reserve ≡ none
    → IsValid (swap m) × ((k : Key) → stored k (swap m) ≡ stored k m)
unfolding swap
swap-stored m h idle =
    let same_map : (k : Key) → stored k (swap m) ≡ stored k m = λ k.
      ap (λ b. or_else b (or_else (get k m.bintree) (chain m.filesys (down num_files m.recent) k)))
        (get_new k (some []))
      ∙ ap
          (λ r.
            or_else (get k m.bintree)
              (or_else (get_reserve k r) (chain m.filesys (down num_files m.recent) k)))
          (sym idle) in
    (
      record {
        table = (record { ordered = tt; counted = refl }, tt);
        handed_over = λ t e. subst IsValidTable (some_inj e) h.table;
        files = h.files;
        in_ring = h.in_ring;
        filter = h.filter;
        known = λ k e. h.known k (sym (same_map k) ∙ e);
      },
      same_map,
    )
