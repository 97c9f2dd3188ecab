-- ===== src/FileIo/Close.antt =====
-- What `closeFile` of FileIO.cpp promises: no frame is left of the file, so that its handle may come
-- back for another file.
use mathlib.Core.Path.{subst}
use cs.Prelude.{
  ℕ, zero, suc, ◌+◌, ◌%◌, ◌<◌, true, false, ◌≡◌, refl, ap, sym, ◌∙◌, List, [], ◌∷◌, some, ◌==◌,
  length, get_or, Bool-cases, replicate, length-replicate, inl, inr, arith,
}
use native.Mathlib.Nat.{zero-add}
use cs.FileIo.{
  Frame, Buffer, blk_size, has_handle, cleared, erase_index, close_loop, close_file, initial,
  empty_frame,
}
use cs.FileIo.Queue.{at_index, occurrences, erase_index-occurrences}
use cs.FileIo.Frames.{in_use, used, Coherent, AllCoherent, cleared-Coherent}
use cs.FileIo.Reads.{IsValid}

abbrev pub NoneOf : ℕ → List Frame → Type 0
NoneOf fd [] = Unit {0}
NoneOf fd (f ∷ fs) = (has_handle fd f ≡ false) × NoneOf fd fs

-- Two worlds that differ at most in the file behind `fd`.
abbrev pub AgreeBut : ℕ → (ℕ → List ℕ) → (ℕ → List ℕ) → Type 0
AgreeBut fd before after = (h : ℕ) → (h == fd) ≡ false → after h ≡ before h

close_mine :
    (fd i : ℕ) (f : Frame) (fs : List Frame) (q : List ℕ) {q1 q2 : List ℕ} {fs' : List Frame}
    → has_handle fd f ≡ true
    → erase_index i q ≡ some q1
    → close_loop fd (i + 1) fs q1 ≡ some (fs', q2)
    → close_loop fd i (f ∷ fs) q ≡ some (cleared f ∷ fs', q2)
unfolding close_loop
close_mine fd i f fs q mine erased ran = rw (mine, close_loop) (rw (erased, ran))

close_other :
    (fd i : ℕ) (f : Frame) (fs : List Frame) (q : List ℕ) {q' : List ℕ} {fs' : List Frame}
    → has_handle fd f ≡ false
    → close_loop fd (i + 1) fs q ≡ some (fs', q')
    → close_loop fd i (f ∷ fs) q ≡ some (f ∷ fs', q')
unfolding close_loop
close_other fd i f fs q other ran = rw (other, close_loop) (rw ran)

-- The queue against the frames from number `i` on.
abbrev Tracked : ℕ → List ℕ → List Frame → Type 0
Tracked i q fs = (k : ℕ) → occurrences (i + k) q ≡ used fs k

Tracked-cons :
    (i : ℕ) (q : List ℕ) (f : Frame) (fs : List Frame)
    → occurrences i q ≡ in_use f
    → Tracked (i + 1) q fs
    → Tracked i q (f ∷ fs)
Tracked-cons i q f fs h t zero = ground (arith, h)
Tracked-cons i q f fs h t (suc k) = ground (arith, t k)

Tracked-erase :
    (i : ℕ) (q q1 : List ℕ) (f : Frame) (fs : List Frame)
    → Tracked i q (f ∷ fs)
    → ((k : ℕ) → occurrences k q1 + at_index i k ≡ occurrences k q)
    → Tracked (i + 1) q1 fs
Tracked-erase i q q1 f fs t rest k = ground (arith, rest (i + 1 + k), t (suc k))

at_start :
    (i : ℕ) (f : Frame) (fs : List Frame) (q : List ℕ)
    → Tracked i q (f ∷ fs)
    → occurrences i q ≡ in_use f
at_start i f fs q t = ground (arith, t 0)

in_use_of_handle : (fd : ℕ) (f : Frame) → has_handle fd f ≡ true → in_use f ≡ 1
in_use_of_handle fd f h = ground arith

module _ (fd : ℕ) (before after : ℕ → List ℕ) (agree : AgreeBut fd before after) where
  kept-Coherent : (f : Frame) → has_handle fd f ≡ false → Coherent before f → Coherent after f
  kept-Coherent f other c h e =
      let same : after h ≡ before h = agree h (ground arith) in
      subst
        (λ bytes.
          (f.offset % blk_size ≡ 0)
          × ((j : ℕ)
              → j < blk_size
              → f.offset + j < length bytes
              → f.block j ≡ get_or bytes (f.offset + j) 0))
        (sym same) (c h e)

  close_loop-Tracked :
      (i : ℕ) (fs : List Frame) (q : List ℕ)
      → AllCoherent before fs
      → Tracked i q fs
      → (fs' : List Frame) × (q' : List ℕ) × (close_loop fd i fs q ≡ some (fs', q'))
        × (length fs' ≡ length fs)
        × NoneOf fd fs'
        × AllCoherent after fs'
        × Tracked i q' fs'
        × ((j : ℕ) → j < i → occurrences j q' ≡ occurrences j q)
  close_loop-Tracked i [] q c t = ([], q, unfold close_loop in refl, refl, tt, tt, t, λ j l. refl)
  close_loop-Tracked i (f ∷ fs) q c t = elim (Bool-cases (has_handle fd f)) [
    | inl mine ↦
        let (q1, erased, rest) =
          erase_index-occurrences i q
            (omega (arith, at_start i f fs q t, in_use_of_handle fd f mine)) in
        let (fs', q2, ran, len, none_left, sound, tracked, low) =
          close_loop-Tracked (i + 1) fs q1 c.1 (Tracked-erase i q q1 f fs t rest) in
        (
          cleared f ∷ fs',
          q2,
          close_mine fd i f fs q mine erased ran,
          ap suc len,
          (refl, none_left),
          (cleared-Coherent after f, sound),
          Tracked-cons i q2 (cleared f) fs'
              (ground (arith, low i, rest i, at_start i f fs q t, in_use_of_handle fd f mine))
              tracked,
          (λ j l. ground (arith, low j, rest j)),
        )
    | inr other ↦
        let (fs', q2, ran, len, none_left, sound, tracked, low) =
          close_loop-Tracked (i + 1) fs q c.1 (λ k. ground (arith, t (suc k))) in
        (
          f ∷ fs',
          q2,
          close_other fd i f fs q other ran,
          ap suc len,
          (other, none_left),
          (kept-Coherent f other c.0, sound),
          Tracked-cons i q2 f fs' (low i (omega arith) ∙ at_start i f fs q t) tracked,
          (λ j l. low j (omega arith)),
        )
  ]

  -- `closeFile` on a sound buffer returns; no frame is left of the file, and the buffer is sound
  -- for every world in which another file stands behind the handle.
  pub close_file-reuse :
      (b : Buffer)
      → IsValid before b
      → (b' : Buffer) × (close_file fd b ≡ some b') × NoneOf fd b'.frames × IsValid after b'
  close_file-reuse b v =
      let (fs, q, ran, len, none_left, sound, tracked, _) =
        close_loop-Tracked 0 b.frames b.queue v.coherent (λ k. rw zero-add (v.tracked k)) in
      (
        record { frames = fs; queue = q },
        unfold close_file in rw ran,
        none_left,
        record {
          nonempty = rw len v.nonempty;
          tracked = λ k. rw zero-add at (tracked k);
          coherent = sound;
        },
      )

-- A buffer that has no frame of a file is sound whatever stands behind that handle.
pub open-IsValid :
    (fd : ℕ) (before after : ℕ → List ℕ) (b : Buffer)
    → AgreeBut fd before after
    → NoneOf fd b.frames
    → IsValid before b
    → IsValid after b
open-IsValid fd before after b agree absent v = record {
  nonempty = v.nonempty;
  tracked = v.tracked;
  coherent = coherent b.frames absent v.coherent;
}
  where
    coherent : (fs : List Frame) → NoneOf fd fs → AllCoherent before fs → AllCoherent after fs
    coherent [] n c = tt
    coherent (f ∷ fs) n c = (kept-Coherent fd before after agree f n.0 c.0, coherent fs n.1 c.1)

pub initial-NoneOf : (fd n : ℕ) → NoneOf fd (initial n).frames
unfolding initial
initial-NoneOf fd zero = tt
initial-NoneOf fd (suc n) = (refl, initial-NoneOf fd n)

-- The buffer at the start of the program is sound, whatever the files hold.
pub initial-IsValid : (contents : ℕ → List ℕ) (n : ℕ) → 0 < n → IsValid contents (initial n)
unfolding initial
initial-IsValid contents n h = record {
  nonempty = rw (length-replicate n empty_frame) h;
  tracked = λ i. sym (unused n i);
  coherent = coherent n;
}
  where
    unused : (m i : ℕ) → used (replicate m empty_frame) i ≡ 0
    unused zero i = refl
    unused (suc m) zero = refl
    unused (suc m) (suc i) = unused m i

    coherent : (m : ℕ) → AllCoherent contents (replicate m empty_frame)
    coherent zero = tt
    coherent (suc m) = (λ fd e. cc, coherent m)
