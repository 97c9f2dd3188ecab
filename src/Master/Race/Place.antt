-- ===== src/Master/Race/Place.antt =====
-- What a read on its way relies on: the eight files that its first loop reads, and the two
-- others, before and after the end of one merge.
use cs.Prelude.{
  ℕ, ◌+◌, ◌%◌, ◌<◌, false, ◌≡◌, ◌⊎◌, refl, ap, sym, ◌∙◌, List, [], ◌∷◌, ◌++◌, Option, none, some,
  arith, if◌then◌else◌, Bool-cases, inl, inr, some_inj,
}
use mathlib.Core.Path.{subst}
use cs.Order.{same, eq_of_same}
use cs.Assoc.{or_else}
use cs.Key.{Key, Value}
use cs.Key.Laws.{words_ord}
use cs.Key.Bytes.{value_layout}
use cs.Layout.{is_tomb}
use cs.Level.{Level}
use cs.BinaryTree.{insert}
use cs.BinaryTree.Methods.{get, get-insert}
use cs.Bloom.{BloomFile}
use cs.Merge.Reference.{live_value}
use cs.Master.{Master, num_files, get_reserve, swap}
use cs.Master.Rounds.{below}
use cs.Master.Reads.{get_new}
use cs.Master.Race.{
  Job, idle, merging, dumping, World, second_oldest, oldest, put_file, close_job, Move, writes,
  hands_over, begins, overwrites_second, merges, overwrites_oldest, finishes,
}
use cs.Master.Race.View.{
  found, tail_value, put_file_eight, update_at, put_second-oldest, put_oldest-second,
}
use cs.Master.Race.Moves.{with}
use cs.Master.Race.Steps.{write-tail_value, swap-tail_value}

-- The writes have the value for the key.
abbrev pub Wrote : Key → Value → List (Key × Value) → Type 0
Wrote k v [] = ⊥
Wrote k v ((j, u) ∷ h) = ((j ≡ k) × (u ≡ v)) ⊎ Wrote k v h

pub Wrote-append :
    (k : Key) (v : Value) (e h : List (Key × Value)) → Wrote k v h → Wrote k v (e ++ h)
Wrote-append k v [] h p = p
Wrote-append k v ((j, u) ∷ e) h p = inr (Wrote-append k v e h p)

pub live_value_twice : (x : Option Value) → live_value (live_value x) ≡ live_value x
live_value_twice none = refl
live_value_twice (some v) = elim (Bool-cases (is_tomb v)) [ inl t ↦ rw t | inr n ↦ rw (n, n) ]

module _ (k : Key) (files0 : ℕ → Level Key Value) (seen : Option Value) where
  -- Before a merge ends, and after; `r` is what the read took for the most recent file.
  abbrev pub Early : ℕ → World → Type 0
  Early r w = (w.store.recent ≡ r) × (live_value (tail_value k w.job w.store) ≡ seen)

  abbrev pub Late : ℕ → List (Key × Value) → World → Type 0
  Late r h w =
      (w.store.recent ≡ (r + 1) % num_files)
      × (w.job ≡ idle)
      × (live_value (found k (w.store.filesys ((r + 2) % num_files))) ≡ seen)
      × ((v : Value) → found k (w.store.filesys ((r + 1) % num_files)) ≡ some v → Wrote k v h)

  pub record InPlace (r : ℕ) (h : List (Key × Value)) (w : World) : Type 0 where
    pub eight : (n : ℕ) → n < 8 → w.store.filesys (below n r) ≡ files0 (below n r)
    pub stage : Early r w ⊎ Late r h w
    pub table_new : (v : Value) → get k w.store.bintree ≡ some v → Wrote k v h
    pub reserve_new : (v : Value) → get_reserve k w.store.reserve ≡ some v → Wrote k v h

  -- A write.
  table-Wrote :
      (m : Master) (j : Key) (u : Value) (h : List (Key × Value))
      → ((v : Value) → get k m.bintree ≡ some v → Wrote k v h)
      → (v : Value) → get k (insert m.bintree j u) ≡ some v
      → Wrote k v ((j, u) ∷ h)
  table-Wrote m j u h new v e = elim (Bool-cases (same k j)) [
    | inl s ↦ inl (
      sym (eq_of_same k j s),
      some_inj (
          sym (get-insert m.bintree j k u ∙ ap (λ t. if t then some u else get k m.bintree) s) ∙ e),
    )
    | inr n ↦ inr (
        new v (
          sym (get-insert m.bintree j k u ∙ ap (λ t. if t then some u else get k m.bintree) n) ∙ e))
  ]

  pub writes-InPlace :
      (r : ℕ) (h : List (Key × Value)) (m : Master) (job : Job) (j : Key) (u : Value)
      (b : BloomFile)
      → InPlace r h (with m job)
      → InPlace r ((j, u) ∷ h) (with (record m { bintree = insert m.bintree j u; bloom = b }) job)
  writes-InPlace r h m job j u b p = record {
    eight = p.eight;
    stage = elim p.stage [
      | inl (e, s) ↦ inl (e, ap (λ x. live_value x) (write-tail_value m job k j u b) ∙ s)
      | inr (e, d, s, new) ↦ inr (e, d, s, λ v g. inr (new v g))
    ];
    table_new = table-Wrote m j u h p.table_new;
    reserve_new = λ v g. inr (p.reserve_new v g);
  }

  pub swap-InPlace :
      (r : ℕ) (h : List (Key × Value)) (m : Master) (job : Job)
      → InPlace r h (with m job)
      → InPlace r h (with (swap m) job)
  unfolding swap
  swap-InPlace r h m job p = record {
    eight = p.eight;
    stage = elim p.stage [
      | inl (e, s) ↦ inl (e, ap (λ x. live_value x) (swap-tail_value m job k) ∙ s)
      | inr late ↦ inr late
    ];
    table_new = λ v g. let clash : none ≡ some v = sym (get_new k (some [])) ∙ g in cc;
    reserve_new = p.table_new;
  }

  -- The stage while a merge is on its way.
  merging_tail :
      (r : ℕ) (h : List (Key × Value)) (m : Master) (c : Level Key Value)
      → InPlace r h (with m (merging c))
      → (m.recent ≡ r) × (live_value (tail_value k (merging c) m) ≡ seen)
  merging_tail r h m c p = elim p.stage [ inl early ↦ early | inr (e, d, _, _) ↦ cc ]

  dumping_tail :
      (r : ℕ) (h : List (Key × Value)) (m : Master)
      → InPlace r h (with m dumping)
      → (m.recent ≡ r) × (live_value (tail_value k dumping m) ≡ seen)
  dumping_tail r h m p = elim p.stage [ inl early ↦ early | inr (e, d, _, _) ↦ cc ]

  module _ (m : Master) (h : List (Key × Value)) where
    -- One of the two oldest files is overwritten.
    put-InPlace :
        (i : ℕ) (f : Level Key Value) (j j' : Job)
        → m.recent < num_files
        → (i ≡ second_oldest m) ⊎ (i ≡ oldest m)
        → live_value (tail_value k j' (put_file i f m)) ≡ seen
        → InPlace m.recent h (with m j)
        → InPlace m.recent h (with (put_file i f m) j')
    put-InPlace i f j j' in_ring at s p = record {
      eight = λ n l. put_file_eight m i f n in_ring at l ∙ p.eight n l;
      stage = inl (refl, s);
      table_new = p.table_new;
      reserve_new = p.reserve_new;
    }

    pub overwrites_second-InPlace :
        (r : ℕ) (c f : Level Key Value)
        → m.recent < num_files
        → InPlace r h (with m (merging c))
        → InPlace r h (with (put_file (second_oldest m) f m) (merging c))
    overwrites_second-InPlace r c f in_ring p =
        let (e, s) = merging_tail r h m c p in
        subst
          (λ r.
            InPlace r h (with m (merging c))
            → InPlace r h (with (put_file (second_oldest m) f m) (merging c)))
          e
          (put-InPlace (second_oldest m) f (merging c) (merging c) in_ring (inl refl) (
            ap (λ g. live_value (or_else (found k c) (found k g))) (put_second-oldest m f in_ring)
            ∙ s))
          p

    pub overwrites_oldest-InPlace :
        (r : ℕ) (f : Level Key Value)
        → m.recent < num_files
        → InPlace r h (with m dumping)
        → InPlace r h (with (put_file (oldest m) f m) dumping)
    overwrites_oldest-InPlace r f in_ring p =
        let (e, s) = dumping_tail r h m p in
        subst
          (λ r. InPlace r h (with m dumping) → InPlace r h (with (put_file (oldest m) f m) dumping))
          e
          (put-InPlace (oldest m) f dumping dumping in_ring (inr refl)
            (ap (λ g. live_value (found k g)) (put_oldest-second m f in_ring) ∙ s))
          p

    pub merges-InPlace :
        (r : ℕ) (c new : Level Key Value)
        → m.recent < num_files
        → found k new ≡ live_value (tail_value k (merging c) m)
        → InPlace r h (with m (merging c))
        → InPlace r h (with (put_file (second_oldest m) new m) dumping)
    merges-InPlace r c new in_ring is_merge p =
        let (e, s) = merging_tail r h m c p in
        subst
          (λ r.
            InPlace r h (with m (merging c))
            → InPlace r h (with (put_file (second_oldest m) new m) dumping))
          e
          (put-InPlace (second_oldest m) new (merging c) dumping in_ring (inl refl) (
            ap (λ g. live_value (found k g)) (update_at m.filesys (second_oldest m) new)
            ∙ ap (λ x. live_value x) is_merge
            ∙ live_value_twice (tail_value k (merging c) m)
            ∙ s))
          p

    pub finishes-InPlace :
        (r : ℕ) (dumped : Level Key Value)
        → m.recent < num_files
        → found k dumped ≡ get_reserve k m.reserve
        → InPlace r h (with m dumping)
        → InPlace r h (with (close_job (put_file (oldest m) dumped m)) idle)
    finishes-InPlace r dumped in_ring is_dump p =
        let (e, s) = dumping_tail r h m p in
        subst
          (λ r.
            InPlace r h (with m dumping)
            → InPlace r h (with (close_job (put_file (oldest m) dumped m)) idle))
          e
          (λ q. record {
            eight = λ n l. put_file_eight m (oldest m) dumped n in_ring (inr refl) l ∙ q.eight n l;
            stage = inr (
              refl,
              refl,
              ap (λ g. live_value (found k g)) (put_oldest-second m dumped in_ring) ∙ s,
              λ v g.
                  q.reserve_new v
                    (sym is_dump ∙ sym (ap (found k) (update_at m.filesys (oldest m) dumped)) ∙ g),
            );
            table_new = q.table_new;
            reserve_new = λ v g. cc;
          })
          p

    pub begins-InPlace :
        (r : ℕ)
        → m.recent ≡ r
        → InPlace r h (with m idle)
        → InPlace r h (
            with
              (record m { tempfile = m.filesys (second_oldest m) })
              (merging (m.filesys (second_oldest m))))
    begins-InPlace r at p = record {
      eight = p.eight;
      stage = elim p.stage [
        | inl early ↦ inl early
        | inr (e, d, _, _) ↦ absurd (omega (arith, e, at))
      ];
      table_new = p.table_new;
      reserve_new = p.reserve_new;
    }

-- With the lock taken no step begins or ends a merge, so none is on its way afterwards.
pub Move-idle :
    {e : List (Key × Value)} {w w' : World} → Move false w e w' → w.job ≡ idle → w'.job ≡ idle
Move-idle (writes j v rj rv ran) d = d
Move-idle (hands_over due) d = d
Move-idle (begins free at held) d = cc
Move-idle (overwrites_second f at) d = d
Move-idle (merges unset entry whole at ran) d = let clash = sym at ∙ d in cc
Move-idle (overwrites_oldest f at) d = d
Move-idle (finishes time dummy short at held ran) d = refl
