-- ===== src/Read/Search.antt =====
-- What `findEntry` of Read.hpp promises over any pager: on the image of a sorted run it ends, and
-- answers as a search of the run does.
use native.Mathlib.Nat.{mul-div_cancel}
use cs.Prelude.{
  ℕ, zero, suc, ◌+◌, ◌-◌, ◌/◌, ◌<◌, ◌≤◌, true, false, ◌≡◌, ap, sym, some_inj, ◌∙◌, List, Option,
  none, some, lt→ltb, length, get_elem?, Bool-cases, inl, inr, arith, ◌⊎◌,
}
use mathlib.Core.Path.{subst}
use cs.Order.{Ord, ◌<?◌, ◌≺◌}
use cs.Assoc.{find, IsSorted}
use cs.Assoc.Index.{get_elem-lt, lt-get_elem, IsSorted-get_elem, find-get_elem, find_absent}
use cs.Read.Slots.{IsImage, read_key-image, read_value-image}
use cs.Read.{Pager, Image, entry_size, read_key, read_value, search_loop, find_entry}

module _ {ℓ κ} {K : Type ℓ} {V : Type κ} ⦃o : Ord K⦄ (p : Pager) (ik : Image K) (iv : Image V) where
  module _ (fd : ℕ) (es : List (K × V)) (image : IsImage p ik iv fd es) where
    module _ (key : K) (sorted : IsSorted es) where
      -- Every entry before place `low` is below the key, and every entry from place `high` on above.
      Narrowed : ℕ → ℕ → Type (ℓ ⊔ κ)
      Narrowed low high =
          (j : ℕ) (e : K × V)
          → get_elem? es j ≡ some e
          → (suc j < low → e.0 ≺ key) × (high ≤ suc j → key ≺ e.0)

      side : (j bound : ℕ) → (j < bound) ⊎ (bound ≤ j)
      side j bound = omega arith

      Narrowed-out : (low high : ℕ) → high ≤ low → Narrowed low high → find key es ≡ none
      unfolding Narrowed
      Narrowed-out low high h n = find_absent key es (λ j e g. elim (side (suc j) low) [
        | inl below ↦ let l : e.0 ≺ key = (n j e g).0 below in ground arith
        | inr above ↦ let l : key ≺ e.0 = (n j e g).1 (omega arith) in ground arith
      ])

      -- The entry in the middle is below the key, so those before it are too.
      narrow_low :
          (low high j : ℕ) {e : K × V}
          → get_elem? es j ≡ some e
          → e.0 ≺ key
          → Narrowed low high
          → Narrowed (suc j + 1) high
      unfolding Narrowed
      narrow_low low high j {e} g l n i d gi = (
        (λ h. elim (side i j) [
          | inl less ↦ o.trans d.0 e.0 key (IsSorted-get_elem es i j sorted gi g less) l
          | inr same_place ↦
              let at : i ≡ j = omega arith in
              subst (λ (x : K × V). x.0 ≺ key) (some_inj (sym g ∙ ap (get_elem? es) (sym at) ∙ gi))
                l
        ]),
        (n i d gi).1,
      )

      narrow_high :
          (low high j : ℕ) {e : K × V}
          → get_elem? es j ≡ some e
          → key ≺ e.0
          → Narrowed low high
          → Narrowed low (suc j)
      unfolding Narrowed
      narrow_high low high j {e} g l n i d gi = (
        (n i d gi).0,
        (λ h. elim (side j i) [
          | inl more ↦ o.trans key e.0 d.0 l (IsSorted-get_elem es j i sorted g gi more)
          | inr same_place ↦
              let at : i ≡ j = omega arith in
              subst (λ (x : K × V). key ≺ x.0) (some_inj (sym g ∙ ap (get_elem? es) (sym at) ∙ gi))
                l
        ]),
      )

      abbrev Answers : Option (Option V × p.State) → Type κ
      Answers r = (s' : p.State) × (r ≡ some (find key es, s')) × p.IsSound s'

      -- The comparison of a turn, on the entry that was read.
      compare_entry :
          (f low high mid : ℕ) (entry_key : K) (s' : p.State) → Option (Option V × p.State)
      compare_entry f low high mid entry_key s' = elim (entry_key <? key) [
        | true ↦ search_loop p ik iv f (mid + 1) high fd key s'
        | false ↦ elim (key <? entry_key) [
          | true ↦ search_loop p ik iv f low mid fd key s'
          | false ↦ read_value p ik iv mid fd s'
        ]
      ]

      search_loop_next :
          (f low high : ℕ) (s : p.State) {entry_key : K} {s' : p.State}
          → low < high
          → read_key p ik iv ((low + high - 1) / 2) fd s ≡ some (entry_key, s')
          → search_loop p ik iv (suc f) low high fd key s
            ≡ compare_entry f low high ((low + high - 1) / 2) entry_key s'
      unfolding search_loop compare_entry
      search_loop_next f low high s h e = rw (lt→ltb _ _ h, search_loop) (rw e)

      search_loop_done :
          (f low high : ℕ) (s : p.State)
          → high ≤ low
          → search_loop p ik iv (suc f) low high fd key s ≡ some (none, s)
      unfolding search_loop
      search_loop_done f low high s h = ground arith

      -- From a state of the loop between 1 and the number of slots, with fuel for what is left.
      abbrev Searches : ℕ → Type (ℓ ⊔ κ)
      Searches f =
          (low high : ℕ) (s : p.State)
          → 0 < low
          → high ≤ suc (length es)
          → high - low < f
          → Narrowed low high
          → p.IsSound s
          → Answers (search_loop p ik iv f low high fd key s)

      compare_entry-find :
          (f low high j : ℕ) {e : K × V} (s : p.State)
          → Searches f
          → get_elem? es j ≡ some e
          → 0 < low
          → low ≤ suc j
          → suc j < high
          → high ≤ suc (length es)
          → high - low < suc f
          → Narrowed low high
          → p.IsSound s
          → Answers (compare_entry f low high (suc j) e.0 s)
      unfolding compare_entry
      compare_entry-find f low high j {e} s ih g pos le lt top fuel n sound =
          elim (Bool-cases (e.0 <? key)) [
            | inl l ↦
                rw (l, compare_entry)
                  (ih (suc j + 1) high s (omega arith) top (omega arith)
                    (narrow_low low high j g l n) sound)
            | inr nl ↦ elim (Bool-cases (key <? e.0)) [
              | inl l ↦
                  rw (nl, l, compare_entry)
                    (ih low (suc j) s pos (omega arith) (omega arith) (narrow_high low high j g l n)
                      sound)
              | inr nr ↦
                  let (s', ran, sound') = read_value-image p ik iv fd es image j s g sound in
                  let here : find key es ≡ some e.1 =
                    subst (λ k. find k es ≡ some e.1) (o.tri e.0 key nl nr)
                      (find-get_elem es j sorted g) in
                  (s', rw (nl, nr, compare_entry) (ran ∙ ap (λ r. some (r, s')) (sym here)), sound')
            ]
          ]

      search_loop-find : (f : ℕ) → Searches f
      search_loop-find zero low high s pos top fuel n sound = absurd (omega arith)
      search_loop-find (suc f) low high s pos top fuel n sound = elim (side low high) [
        | inr done ↦ (
          s,
          search_loop_done f low high s done
              ∙ ap (λ r. some (r, s)) (sym (Narrowed-out low high done n)),
          sound,
        )
        | inl more ↦
            let mid = (low + high - 1) / 2 in
            let at : suc (mid - 1) ≡ mid = omega arith in
            let (e, g) = get_elem-lt es (mid - 1) (omega arith) in
            let (s1, read, sound1) = read_key-image p ik iv fd es image (mid - 1) s g sound in
            let read' : read_key p ik iv mid fd s ≡ some (e.0, s1) =
              subst (λ m. read_key p ik iv m fd s ≡ some (e.0, s1)) at read in
            let (s2, ran, sound2) =
              compare_entry-find f low high (mid - 1) s1 (search_loop-find f) g pos (omega arith)
                (omega arith) top (omega arith) n sound1 in
            (
              s2,
              search_loop_next f low high s more read'
                  ∙ ap (λ m. compare_entry f low high m e.0 s1) (sym at)
                  ∙ ran,
              sound2,
            )
      ]

    -- Over any pager, from a sound state of it, `findEntry` on the image of a sorted run ends without a
    -- fault, and gives the value of the key in the run, or `false` where the run has no such key.
    pub find_entry-find :
        (key : K) (s : p.State)
        → IsSorted es
        → p.IsSound s
        → (s' : p.State) × (find_entry p ik iv fd key s ≡ some (find key es, s')) × p.IsSound s'
    unfolding find_entry
    find_entry-find key s sorted sound =
        let slots : length (p.contents fd) / entry_size p ik iv ≡ suc (length es) =
          ap (λ n. n / entry_size p ik iv) image.sized
          ∙ mul-div_cancel (suc (length es)) image.positive in
        let high = length (p.contents fd) / entry_size p ik iv in
        search_loop-find key sorted (suc high) 1 high s (omega arith) (omega (arith, slots))
          (omega arith)
          (unfold Narrowed in
            λ j e g. (
              (λ h. absurd (omega arith)),
              (λ h. absurd (omega (arith, slots, lt-get_elem es j g))),
            ))
          sound
