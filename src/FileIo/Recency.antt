-- ===== src/FileIo/Recency.antt =====
-- The order of `lruIndexQ` in FileIO.cpp, and which frame `evictLRU` gives up.
use mathlib.Core.Path.{subst}
use cs.Prelude.{
  ℕ, suc, ◌<◌, ◌≤◌, ◌≡◌, refl, sym, ◌∙◌, List, [], ◌∷◌, ◌++◌, none, some, ◌==◌, if◌then◌else◌,
  Bool-cases, Option-cases, inl, inr, some_inj, arith,
}
use cs.FileIo.{erase_index}
use cs.FileIo.Queue.{occurrences}

-- How many uses lie behind the last use of frame `j`, in a history with the last use first.
abbrev pub since : ℕ → List ℕ → ℕ
since j [] = 0
since j (i ∷ h) = if i == j then 0 else suc (since j h)

-- The frames of a queue were used no earlier than `n` uses ago.
abbrev pub AllSince : List ℕ → ℕ → List ℕ → Type 0
AllSince h n [] = Unit {0}
AllSince h n (j ∷ q) = (n ≤ since j h) × AllSince h n q

-- The later a frame stands in the queue, the longer ago is its last use.
abbrev pub InOrder : List ℕ → List ℕ → Type 0
InOrder h [] = Unit {0}
InOrder h (i ∷ q) = AllSince h (since i h) q × InOrder h q

module _ (h : List ℕ) where
  erase-AllSince :
      (n i : ℕ) (q : List ℕ) {q' : List ℕ}
      → erase_index i q ≡ some q'
      → AllSince h n q
      → AllSince h n q'
  unfolding erase_index
  erase-AllSince n i [] {q'} e s = let clash : none ≡ some q' = e in cc
  erase-AllSince n i (j ∷ q) {q'} e (s, t) = elim (Bool-cases (j == i)) [
    | inl here ↦ subst (AllSince h n) (some_inj (sym (rw (here, erase_index) refl) ∙ e)) t
    | inr other ↦ elim (Option-cases (erase_index i q)) [
      | inl gone ↦
          let clash : none ≡ some q' = sym (rw (other, erase_index) (rw gone refl)) ∙ e in cc
      | inr (r, ran) ↦
          let whole : erase_index i (j ∷ q) ≡ some (j ∷ r) =
            rw (other, erase_index) (rw ran refl) in
          subst (AllSince h n) (some_inj (sym whole ∙ e)) (s, erase-AllSince n i q ran t)
    ]
  ]

  pub erase-InOrder :
      (i : ℕ) (q : List ℕ) {q' : List ℕ} → erase_index i q ≡ some q' → InOrder h q → InOrder h q'
  unfolding erase_index
  erase-InOrder i [] {q'} e s = let clash : none ≡ some q' = e in cc
  erase-InOrder i (j ∷ q) {q'} e (s, t) = elim (Bool-cases (j == i)) [
    | inl here ↦ subst (InOrder h) (some_inj (sym (rw (here, erase_index) refl) ∙ e)) t
    | inr other ↦ elim (Option-cases (erase_index i q)) [
      | inl gone ↦
          let clash : none ≡ some q' = sym (rw (other, erase_index) (rw gone refl)) ∙ e in cc
      | inr (r, ran) ↦
          let whole : erase_index i (j ∷ q) ≡ some (j ∷ r) =
            rw (other, erase_index) (rw ran refl) in
          subst (InOrder h) (some_inj (sym whole ∙ e))
            (erase-AllSince (since j h) i q ran s, erase-InOrder i q ran t)
    ]
  ]

  -- A queue without frame `i`, one use of `i` later.
  later-AllSince :
      (n i : ℕ) (q : List ℕ) → occurrences i q ≡ 0 → AllSince h n q → AllSince (i ∷ h) (suc n) q
  later-AllSince n i [] absent s = tt
  later-AllSince n i (j ∷ q) absent (s, t) = (ground arith, later-AllSince n i q (ground arith) t)

  all_later : (i : ℕ) (q : List ℕ) → AllSince (i ∷ h) 0 q
  all_later i [] = tt
  all_later i (j ∷ q) = (omega arith, all_later i q)

  later-InOrder : (i : ℕ) (q : List ℕ) → occurrences i q ≡ 0 → InOrder h q → InOrder (i ∷ h) q
  later-InOrder i [] absent s = tt
  later-InOrder i (j ∷ q) absent (s, t) =
      let behind : since j (i ∷ h) ≡ suc (since j h) = ground arith in
      (
        subst (λ n. AllSince (i ∷ h) n q) (sym behind)
            (later-AllSince (since j h) i q (ground arith) s),
        later-InOrder i q (ground arith) t,
      )

  -- The frame that is used goes to the front.
  pub front-InOrder :
      (i : ℕ) (q : List ℕ) → occurrences i q ≡ 0 → InOrder h q → InOrder (i ∷ h) (i ∷ q)
  front-InOrder i q absent s =
      let now : since i (i ∷ h) ≡ 0 = ground arith in
      (subst (λ n. AllSince (i ∷ h) n q) (sym now) (all_later i q), later-InOrder i q absent s)

  last-AllSince : (n i : ℕ) (q : List ℕ) → AllSince h n (q ++ i ∷ []) → n ≤ since i h
  last-AllSince n i [] (s, t) = s
  last-AllSince n i (j ∷ q) (s, t) = last-AllSince n i q t

  -- No use of a frame in the queue is longer ago than that of the last.
  pub last-InOrder :
      (i j : ℕ) (q : List ℕ)
      → InOrder h (q ++ i ∷ [])
      → 0 < occurrences j (q ++ i ∷ [])
      → since j h ≤ since i h
  last-InOrder i j [] s there = ground arith
  last-InOrder i j (a ∷ q) (s, t) there = elim (Bool-cases (a == j)) [
    | inl e ↦
        let at : a ≡ j = ground arith in
        subst (λ x. since x h ≤ since i h) at (last-AllSince (since a h) i q s)
    | inr ne ↦ last-InOrder i j q t (ground arith)
  ]
