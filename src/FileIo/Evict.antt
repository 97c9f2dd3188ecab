-- ===== src/FileIo/Evict.antt =====
-- `evictLRU` of FileIO.cpp, and the use times of the frames it chooses from.
use mathlib.Core.Path.{subst}
use cs.Prelude.{
  ◌>>=◌, ℕ, zero, suc, ◌+◌, ◌*◌, ◌%◌, ◌<◌, ◌≤◌, ◌≡◌, refl, ap, sym, ◌∙◌, List, [], ◌∷◌, ◌++◌, none,
  some, length, Bool-cases, inl, inr, some_inj, bind_some, arith,
}
use cs.FileIo.{
  Frame, Buffer, blk_size, first_index, is_free, has_handle, holds, erase_index, fread, close_loop,
  close_file, initial, cleared,
}
use cs.FileIo.Queue.{occurrences, at_index}
use cs.FileIo.Frames.{used, used_of_full}
use cs.FileIo.Reads.{IsValid, fread-bytes}
use cs.FileIo.Close.{close_file-reuse, initial-IsValid}
use cs.FileIo.Recency.{since, AllSince, InOrder, erase-InOrder, front-InOrder, last-InOrder}
use cs.FileIo.Source.{Source, held, unused, evicted, miss_queue, fread_queue}

abbrev pub front : List ℕ → ℕ
front [] = 0
front (i ∷ q) = i

-- The buffer after reads that stay in their file and in a block, and closings, with the frames that the
-- reads used, the last one first.
pub data Uses (contents : ℕ → List ℕ) (n : ℕ) : List ℕ → Buffer → Type 0 where
  begun : Uses contents n [] (initial n)
  reads :
      {h : List ℕ} {b : Buffer} {done : List ℕ × ℕ × Buffer} (size count offset fd : ℕ)
      → offset % blk_size + count * size ≤ blk_size
      → offset + count * size ≤ length (contents fd)
      → Uses contents n h b
      → fread contents size count offset fd b ≡ some done
      → Uses contents n (front done.2.queue ∷ h) done.2
  closes :
      {h : List ℕ} {b b' : Buffer} (fd : ℕ)
      → Uses contents n h b
      → close_file fd b ≡ some b'
      → Uses contents n h b'

close_loop-InOrder :
    (h : List ℕ) (fd i : ℕ) (fs : List Frame) (q : List ℕ) {done : List Frame × List ℕ}
    → close_loop fd i fs q ≡ some done
    → InOrder h q
    → InOrder h done.1
unfolding close_loop
close_loop-InOrder h fd i [] q ran order =
    subst (λ (r : List Frame × List ℕ). InOrder h r.1) (some_inj ran) order
close_loop-InOrder h fd i (f ∷ fs) q ran order = elim (Bool-cases (has_handle fd f)) [
  | inl mine ↦
      let step : close_loop fd i (f ∷ fs) q ≡ (
          erase_index i q >>= λ q'.
          close_loop fd (i + 1) fs q' >>= λ r. some (cleared f ∷ r.0, r.1)) =
        rw (mine, close_loop) refl in
      let (q1, erased, e1) = bind_some (erase_index i q) _ (sym step ∙ ran) in
      let (rest, looped, e2) = bind_some (close_loop fd (i + 1) fs q1) _ e1 in
      subst (λ (r : List Frame × List ℕ). InOrder h r.1) (some_inj e2)
        (close_loop-InOrder h fd (i + 1) fs q1 looped (erase-InOrder h i q erased order))
  | inr other ↦
      let step : close_loop fd i (f ∷ fs) q
          ≡ (close_loop fd (i + 1) fs q >>= λ r. some (f ∷ r.0, r.1)) =
        rw (other, close_loop) refl in
      let (rest, looped, e2) = bind_some (close_loop fd (i + 1) fs q) _ (sym step ∙ ran) in
      subst (λ (r : List Frame × List ℕ). InOrder h r.1) (some_inj e2)
        (close_loop-InOrder h fd (i + 1) fs q looped order)
]

short-AllSince : (h : List ℕ) (n i : ℕ) (q : List ℕ) → AllSince h n (q ++ i ∷ []) → AllSince h n q
short-AllSince h n i [] s = tt
short-AllSince h n i (j ∷ q) (s, t) = (s, short-AllSince h n i q t)

-- The queue without its last.
short-InOrder : (h : List ℕ) (i : ℕ) (q : List ℕ) → InOrder h (q ++ i ∷ []) → InOrder h q
short-InOrder h i [] order = tt
short-InOrder h i (j ∷ q) (s, t) = (short-AllSince h (since j h) i q s, short-InOrder h i q t)

used_at_most : (fs : List Frame) (i : ℕ) → used fs i ≤ 1
used_at_most [] i = omega arith
used_at_most (f ∷ fs) zero = ground arith
used_at_most (f ∷ fs) (suc i) = used_at_most fs i

source-InOrder :
    (h : List ℕ) (b : Buffer) (i : ℕ) (q : List ℕ) → Source b i q → InOrder h b.queue → InOrder h q
source-InOrder h b i q (held erased) order = erase-InOrder h i b.queue erased order
source-InOrder h b i q (unused e) order = subst (InOrder h) (sym e) order
source-InOrder h b i q (evicted e) order = short-InOrder h i q (subst (InOrder h) e order)

module _ (contents : ℕ → List ℕ) (n : ℕ) (some_frame : 0 < n) where
  no_second :
      (i : ℕ) (q : List ℕ) {b : Buffer} → b.queue ≡ i ∷ q → IsValid contents b → occurrences i q ≡ 0
  no_second i q {b} at valid =
      let here : at_index i i + occurrences i q ≡ used b.frames i =
        ap (occurrences i) (sym at) ∙ valid.tracked i in
      ground (arith, here, used_at_most b.frames i)

  close_file-InOrder :
      (h : List ℕ) (fd : ℕ) (b : Buffer) {b' : Buffer}
      → close_file fd b ≡ some b'
      → InOrder h b.queue
      → InOrder h b'.queue
  unfolding close_file
  close_file-InOrder h fd b ran order =
      let (r, looped, e) = bind_some (close_loop fd 0 b.frames b.queue) _ ran in
      subst (λ (x : Buffer). InOrder h x.queue) (some_inj e)
        (close_loop-InOrder h fd 0 b.frames b.queue looped order)

  Uses-InOrder :
      {h : List ℕ} {b : Buffer} → Uses contents n h b → IsValid contents b × InOrder h b.queue
  Uses-InOrder begun = (initial-IsValid contents n some_frame, unfold initial in tt)
  Uses-InOrder (reads {h = h} {b = b} {done = done} size count offset fd fits inside before ran) =
      let (valid, order) = Uses-InOrder before in
      let (returned, b', ran', valid') =
        fread-bytes contents size count offset fd b valid fits inside in
      let (i, q, at, source) = fread_queue contents size count offset fd b ran in
      let is_valid : IsValid contents done.2 =
        subst (λ (d : List ℕ × ℕ × Buffer). IsValid contents d.2) (some_inj (sym ran' ∙ ran))
          valid' in
      (
        is_valid,
        subst (λ x. InOrder (front x ∷ h) x) (sym at)
            (front-InOrder h i q (no_second i q at is_valid) (source-InOrder h b i q source order)),
      )
  Uses-InOrder (closes {h = h} {b = b} {b' = b'} fd before ran) =
      let (valid, order) = Uses-InOrder before in
      let (b1, ran1, none_left, valid1) =
        close_file-reuse fd contents contents (λ _ _. refl) b valid in
      (
        subst (IsValid contents) (some_inj (sym ran1 ∙ ran)) valid1,
        close_file-InOrder h fd b ran order,
      )

  -- While a block is read into a frame that had to be given up, no other frame had its last use longer ago:
  -- the least recently used one is evicted, after any reads and closings.
  pub evicts_oldest_use :
      {h : List ℕ} {b : Buffer} {done : List ℕ × ℕ × Buffer} (size count offset fd j : ℕ)
      → Uses contents n h b
      → first_index (holds fd offset) b.frames ≡ none
      → first_index is_free b.frames ≡ none
      → fread contents size count offset fd b ≡ some done
      → j < length b.frames
      → since j h ≤ since (front done.2.queue) h
  unfolding fread
  evicts_oldest_use {h} {b} {done} size count offset fd j before out full ran within =
      let (valid, order) = Uses-InOrder before in
      let (i, q, at, source) =
        miss_queue contents (count * size) offset fd b (sym (rw (out, fread) refl) ∙ ran) in
      elim source [
        | inl (spare, e) ↦ let clash : none ≡ some i = sym full ∙ spare in cc
        | inr last ↦
            let there : occurrences j (q ++ i ∷ []) ≡ 1 =
              ap (occurrences j) (sym last)
              ∙ valid.tracked j
              ∙ used_of_full b.frames j full within in
            subst (λ x. since j h ≤ since (front x) h) (sym at)
              (last-InOrder h i j q (subst (InOrder h) last order) (omega (arith, there)))
      ]
