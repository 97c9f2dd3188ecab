-- ===== src/Merge/Loop.antt =====
-- The loops of `merge_files` of Merge.hpp against the merge by recursion.
use cs.Prelude.{
  ℕ, zero, suc, ◌+◌, ◌<◌, true, false, ◌≡◌, refl, ap, sym, ◌∙◌, inl, inr, List, [], ◌∷◌, ◌++◌, some,
  if◌then◌else◌, length, Bool-cases, arith,
}
use mathlib.Core.Path.{ap₂}
use mathlib.Core.List.{append_assoc, append-nil}
use cs.Order.{Ord, ◌<?◌}
use cs.Layout.{Layout, is_tomb}
use cs.Merge.{Stream, Merging, advance, fetched, read1, read2, emit, drain1, drain2, drain, turn}
use cs.Merge.Reference.{keep, live, merged}

module _ {ℓ κ} {K : Type ℓ} {V : Type κ} where
  -- The entry read last and those behind it, or nothing once `feof` holds.
  abbrev pub waiting : Stream K V → K × V → List (K × V)
  waiting s e = if s.eof then [] else e ∷ s.rest

  pub waiting-advance :
      (s : Stream K V) (e : K × V) → s.eof ≡ false → waiting (advance s) (fetched s e) ≡ s.rest
  unfolding advance fetched
  waiting-advance s e h = ground arith

  pub waiting_more : (s : Stream K V) (e : K × V) → s.eof ≡ false → waiting s e ≡ e ∷ s.rest
  waiting_more s e h = rw h

  pub waiting_end : (s : Stream K V) (e : K × V) → s.eof ≡ true → waiting s e ≡ []
  waiting_end s e h = rw h

  abbrev pub waiting1 : Merging K V → List (K × V)
  waiting1 m = waiting m.oldest1 m.entry1

  abbrev pub waiting2 : Merging K V → List (K × V)
  waiting2 m = waiting m.oldest2 m.entry2

module _ {ℓ κ} {K : Type ℓ} {V : Type κ} ⦃w : Layout V⦄ where
  emit-keep :
      (e : K × V) (m : Merging K V) (es : List (K × V))
      → (emit e m).newfd ++ es ≡ m.newfd ++ keep e es
  unfolding emit
  emit-keep e m es = elim (Bool-cases (is_tomb e.1)) [
    | inl dead ↦ rw (dead, emit)
    | inr alive ↦ rw (alive, emit) (append_assoc m.newfd (e ∷ []) es)
  ]

  -- Writing an entry and reading on in one file.
  read1-emit :
      (e : K × V) (m : Merging K V)
      → m.oldest1.eof ≡ false
      → (waiting1 (read1 (emit e m)) ≡ m.oldest1.rest)
        × (waiting2 (read1 (emit e m)) ≡ waiting2 m)
        × ((read1 (emit e m)).newfd ≡ (emit e m).newfd)
        × ((read1 (emit e m)).oldest2 ≡ m.oldest2)
  unfolding emit read1
  read1-emit e m h = ground arith

  read2-emit :
      (e : K × V) (m : Merging K V)
      → m.oldest2.eof ≡ false
      → (waiting2 (read2 (emit e m)) ≡ m.oldest2.rest)
        × (waiting1 (read2 (emit e m)) ≡ waiting1 m)
        × ((read2 (emit e m)).newfd ≡ (emit e m).newfd)
        × ((read2 (emit e m)).oldest1 ≡ m.oldest1)
  unfolding emit read2
  read2-emit e m h = ground arith

  read_both-emit :
      (e : K × V) (m : Merging K V)
      → m.oldest1.eof ≡ false
      → m.oldest2.eof ≡ false
      → (waiting1 (read2 (read1 (emit e m))) ≡ m.oldest1.rest)
        × (waiting2 (read2 (read1 (emit e m))) ≡ m.oldest2.rest)
        × ((read2 (read1 (emit e m))).newfd ≡ (emit e m).newfd)
  unfolding emit read1 read2
  read_both-emit e m h g = ground arith

  drain1_more :
      (f : ℕ) (m : Merging K V)
      → m.oldest1.eof ≡ false
      → drain1 (suc f) m ≡ drain1 f (read1 (emit m.entry1 m))
  unfolding drain1
  drain1_more f m h = rw h

  -- With fuel for what waits, the loop that copies one file ends at its end, has written what waits
  -- but for the tombstones, and leaves the other file alone.
  pub drain1-live :
      (f : ℕ) (m : Merging K V)
      → length (waiting1 m) < f
      → (m' : Merging K V) × (drain1 f m ≡ some m')
        × (m'.newfd ≡ m.newfd ++ live (waiting1 m))
        × (m'.oldest1.eof ≡ true)
        × (waiting2 m' ≡ waiting2 m)
  unfolding drain1 read1
  drain1-live zero m h = absurd (omega arith)
  drain1-live (suc f) m h = elim (Bool-cases m.oldest1.eof) [
    | inl end ↦ (m, rw end, rw end (sym (append-nil m.newfd)), end, refl)
    | inr more ↦
        let e = m.entry1 in
        let (left, other, kept, _) = read1-emit e m more in
        let (m', ran, wrote, end, same_other) =
          drain1-live f (read1 (emit e m)) (rw left (omega (arith, rw more at h))) in
        (
          m',
          drain1_more f m more ∙ ran,
          wrote
              ∙ ap (λ es. es ++ live (waiting1 (read1 (emit e m)))) kept
              ∙ emit-keep e m (live (waiting1 (read1 (emit e m))))
              ∙ ap (λ es. m.newfd ++ keep e (live es)) left
              ∙ ap (λ es. m.newfd ++ live es) (sym (waiting_more m.oldest1 e more)),
          end,
          same_other ∙ other,
        )
  ]

  drain2_more :
      (f : ℕ) (m : Merging K V)
      → m.oldest2.eof ≡ false
      → drain2 (suc f) m ≡ drain2 f (read2 (emit m.entry2 m))
  unfolding drain2
  drain2_more f m h = rw h

  pub drain2-live :
      (f : ℕ) (m : Merging K V)
      → length (waiting2 m) < f
      → (m' : Merging K V) × (drain2 f m ≡ some m')
        × (m'.newfd ≡ m.newfd ++ live (waiting2 m))
        × (m'.oldest2.eof ≡ true)
        × (waiting1 m' ≡ waiting1 m)
  unfolding drain2
  drain2-live zero m h = absurd (omega arith)
  drain2-live (suc f) m h = elim (Bool-cases m.oldest2.eof) [
    | inl end ↦ (m, rw end, rw end (sym (append-nil m.newfd)), end, refl)
    | inr more ↦
        let e = m.entry2 in
        let (left, other, kept, _) = read2-emit e m more in
        let (m', ran, wrote, end, same_other) =
          drain2-live f (read2 (emit e m)) (rw left (omega (arith, rw more at h))) in
        (
          m',
          drain2_more f m more ∙ ran,
          wrote
              ∙ ap (λ es. es ++ live (waiting2 (read2 (emit e m)))) kept
              ∙ emit-keep e m (live (waiting2 (read2 (emit e m))))
              ∙ ap (λ es. m.newfd ++ keep e (live es)) left
              ∙ ap (λ es. m.newfd ++ live es) (sym (waiting_more m.oldest2 e more)),
          end,
          same_other ∙ other,
        )
  ]

  pub drain_both :
      (f : ℕ) (m : Merging K V)
      → length (waiting1 m) < f
      → length (waiting2 m) < f
      → (m' : Merging K V) × (drain f m ≡ some m')
        × (m'.newfd ≡ m.newfd ++ (live (waiting1 m) ++ live (waiting2 m)))
        × (waiting1 m' ≡ [])
        × (waiting2 m' ≡ [])
  unfolding drain
  drain_both f m h g =
      let (a, ran1, wrote1, end1, same2) = drain1-live f m h in
      let (b, ran2, wrote2, end2, same1) = drain2-live f a (rw same2 g) in
      (
        b,
        rw ran1 ran2,
        wrote2
            ∙ ap (λ es. es ++ live (waiting2 a)) wrote1
            ∙ append_assoc m.newfd (live (waiting1 m)) (live (waiting2 a))
            ∙ ap (λ es. m.newfd ++ (live (waiting1 m) ++ live es)) same2,
        same1 ∙ waiting_end a.oldest1 a.entry1 end1,
        waiting_end b.oldest2 b.entry2 end2,
      )

  pub live_nil : (xs : List (K × V)) ⦃o : Ord K⦄ → merged xs [] ≡ live xs
  live_nil [] = refl
  live_nil (x ∷ xs) = ap (keep x) (live_nil xs)

  module _ ⦃o : Ord K⦄ where
    -- What the file will hold: what is written, and the merge of what waits.
    abbrev pub outcome : Merging K V → List (K × V)
    outcome m = m.newfd ++ merged (waiting1 m) (waiting2 m)

    abbrev pub left_over : Merging K V → ℕ
    left_over m = length (waiting1 m) + length (waiting2 m)

    -- An entry goes to the file, and `xs` and `ys` wait after it.
    outcome_step :
        (m m' : Merging K V) (e : K × V) (xs ys : List (K × V))
        → waiting1 m' ≡ xs
        → waiting2 m' ≡ ys
        → m'.newfd ≡ (emit e m).newfd
        → merged (waiting1 m) (waiting2 m) ≡ keep e (merged xs ys)
        → length xs + length ys < left_over m
        → (outcome m' ≡ outcome m) × (left_over m' < left_over m)
    outcome_step m m' e xs ys h1 h2 kept next less = (
      ap (λ es. es ++ merged (waiting1 m') (waiting2 m')) kept
          ∙ emit-keep e m (merged (waiting1 m') (waiting2 m'))
          ∙ ap₂ (λ us vs. m.newfd ++ keep e (merged us vs)) h1 h2
          ∙ ap (λ es. m.newfd ++ es) (sym next),
      omega (arith, ap length h1, ap length h2),
    )

    merged_lt :
        (m : Merging K V)
        → m.oldest1.eof ≡ false
        → m.oldest2.eof ≡ false
        → (merged (waiting1 m) (waiting2 m)
            ≡ merged (m.entry1 ∷ m.oldest1.rest) (m.entry2 ∷ m.oldest2.rest))
          × (left_over m ≡ length m.oldest1.rest + length m.oldest2.rest + 2)
    merged_lt m h g =
        let p = waiting_more m.oldest1 m.entry1 h in
        let q = waiting_more m.oldest2 m.entry2 g in
        (ap₂ merged p q, omega (arith, ap length p, ap length q))

    -- A turn changes nothing of what the file will hold, and leaves less to do.
    pub turn-outcome :
        (m : Merging K V)
        → m.oldest1.eof ≡ false
        → m.oldest2.eof ≡ false
        → (outcome (turn m) ≡ outcome m) × (left_over (turn m) < left_over m)
    unfolding turn
    turn-outcome m h g =
        let e1 = m.entry1 in
        let e2 = m.entry2 in
        let (opened, size) = merged_lt m h g in
        elim (Bool-cases (e1.0 <? e2.0)) [
          | inl p ↦
              let (l, r, kept, _) = read1-emit e1 m h in
              rw p (
                outcome_step m (read1 (emit e1 m)) e1 m.oldest1.rest (e2 ∷ m.oldest2.rest) l
                  (r ∙ waiting_more m.oldest2 e2 g) kept (opened ∙ rw p) (omega (arith, size)))
          | inr n ↦ elim (Bool-cases (e2.0 <? e1.0)) [
            | inl p ↦
                let (r, l, kept, _) = read2-emit e2 m g in
                rw (n, p)
                  (outcome_step m (read2 (emit e2 m)) e2 (e1 ∷ m.oldest1.rest) m.oldest2.rest
                    (l ∙ waiting_more m.oldest1 e1 h) r kept (opened ∙ rw (n, p))
                    (omega (arith, size)))
            | inr k ↦
                let (l, r, kept) = read_both-emit e2 m h g in
                rw (n, k)
                  (outcome_step m (read2 (read1 (emit e2 m))) e2 m.oldest1.rest m.oldest2.rest l r
                    kept (opened ∙ rw (n, k)) (omega (arith, size)))
          ]
        ]
