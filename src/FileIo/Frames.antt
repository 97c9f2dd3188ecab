-- ===== src/FileIo/Frames.antt =====
-- The frames of FileIO.cpp: which are in use, and that each holds what its file holds.
use mathlib.Core.Path.{subst}
use cs.Prelude.{
  ℕ, zero, suc, ◌+◌, ◌%◌, ◌<◌, Bool, true, ◌≡◌, refl, ap, ap₂, some_inj, List, [], ◌∷◌, none, some,
  if◌then◌else◌, ◌==◌, length, get_elem?, get_or, set, Bool-cases, Option-cases, inl, inr, arith,
}
use cs.FileIo.{Frame, blk_size, first_index, is_free, cleared, clear_at, read_block, copy}

abbrev pub in_use : Frame → ℕ
in_use f = if is_free f then 0 else 1

-- 1 where the frame of the number is in use.
abbrev pub used : List Frame → ℕ → ℕ
used [] i = 0
used (f ∷ fs) zero = in_use f
used (f ∷ fs) (suc i) = used fs i

pub used-set :
    (fs : List Frame) (i k : ℕ) (f : Frame)
    → i < length fs
    → used (set fs i f) k ≡ (if i == k then in_use f else used fs k)
used-set [] i k f h = absurd (omega arith)
used-set (g ∷ fs) zero zero f h = ground arith
used-set (g ∷ fs) zero (suc k) f h = ground arith
used-set (g ∷ fs) (suc i) zero f h = ground arith
used-set (g ∷ fs) (suc i) (suc k) f h = ground (arith, used-set fs i k f (omega arith))

pub used-clear_at :
    (fs : List Frame) (i k : ℕ) → used (clear_at fs i) k ≡ (if i == k then 0 else used fs k)
unfolding clear_at
used-clear_at [] i k = ground arith
used-clear_at (g ∷ fs) zero zero = ground arith
used-clear_at (g ∷ fs) zero (suc k) = ground arith
used-clear_at (g ∷ fs) (suc i) zero = ground arith
used-clear_at (g ∷ fs) (suc i) (suc k) = ground (arith, used-clear_at fs i k)

pub length-clear_at : (fs : List Frame) (i : ℕ) → length (clear_at fs i) ≡ length fs
unfolding clear_at
length-clear_at [] i = refl
length-clear_at (g ∷ fs) zero = refl
length-clear_at (g ∷ fs) (suc i) = ap suc (length-clear_at fs i)

-- The search finds a frame with the property, and where it finds none there is none.
pub first_index-some :
    (p : Frame → Bool) (fs : List Frame) {i : ℕ}
    → first_index p fs ≡ some i
    → (f : Frame) × (get_elem? fs i ≡ some f) × (p f ≡ true) × (i < length fs)
unfolding first_index
first_index-some p [] h = cc
first_index-some p (f ∷ fs) {i} h = elim (Bool-cases (p f)) [
  | inl here ↦
      let e : zero ≡ i = some_inj (rw (here, first_index) at h) in
      subst
        (λ j. (g : Frame) × (get_elem? (f ∷ fs) j ≡ some g) × (p g ≡ true) × (j < length (f ∷ fs)))
        e (f, refl, here, omega arith)
  | inr other ↦ elim (Option-cases (first_index p fs)) [
    | inl out ↦ cc (rw (other, out, first_index) at h)
    | inr (j, e) ↦
        let (g, at, ok, l) = first_index-some p fs e in
        let e' : suc j ≡ i = some_inj (rw (other, e, first_index) at h) in
        subst
          (λ j'.
            (x : Frame) × (get_elem? (f ∷ fs) j' ≡ some x) × (p x ≡ true) × (j' < length (f ∷ fs)))
          e' (g, at, ok, omega arith)
  ]
]

pub used_of_full :
    (fs : List Frame) (i : ℕ) → first_index is_free fs ≡ none → i < length fs → used fs i ≡ 1
unfolding first_index
used_of_full [] i h l = absurd (omega arith)
used_of_full (f ∷ fs) zero h l = ground arith
used_of_full (f ∷ fs) (suc i) h l = ground (arith, used_of_full fs i)

pub used_of_get :
    (fs : List Frame) (i : ℕ) {f : Frame} → get_elem? fs i ≡ some f → used fs i ≡ in_use f
used_of_get [] i h = cc
used_of_get (g ∷ fs) zero h = ap in_use (some_inj h)
used_of_get (g ∷ fs) (suc i) h = used_of_get fs i h

module _ (contents : ℕ → List ℕ) where
  -- A frame in use starts at a block of its file, and has the file's bytes as far as the file goes.
  abbrev pub Coherent : Frame → Type 0
  Coherent f =
      (fd : ℕ)
      → f.handle ≡ some fd
      → (f.offset % blk_size ≡ 0)
        × ((j : ℕ)
            → j < blk_size
            → f.offset + j < length (contents fd)
            → f.block j ≡ get_or (contents fd) (f.offset + j) 0)

  abbrev pub AllCoherent : List Frame → Type 0
  AllCoherent [] = Unit {0}
  AllCoherent (f ∷ fs) = Coherent f × AllCoherent fs

  pub AllCoherent-get :
      (fs : List Frame) (i : ℕ) {f : Frame} → AllCoherent fs → get_elem? fs i ≡ some f → Coherent f
  AllCoherent-get [] i c h = cc
  AllCoherent-get (g ∷ fs) zero c h = subst Coherent (some_inj h) c.0
  AllCoherent-get (g ∷ fs) (suc i) c h = AllCoherent-get fs i c.1 h

  pub AllCoherent-set :
      (fs : List Frame) (i : ℕ) (f : Frame) → AllCoherent fs → Coherent f → AllCoherent (set fs i f)
  AllCoherent-set [] i f c h = tt
  AllCoherent-set (g ∷ fs) zero f c h = (h, c.1)
  AllCoherent-set (g ∷ fs) (suc i) f c h = (c.0, AllCoherent-set fs i f c.1 h)

  pub cleared-Coherent : (f : Frame) → Coherent (cleared f)
  cleared-Coherent f fd h = cc

  pub AllCoherent-clear_at :
      (fs : List Frame) (i : ℕ) → AllCoherent fs → AllCoherent (clear_at fs i)
  unfolding clear_at
  AllCoherent-clear_at [] i c = tt
  AllCoherent-clear_at (g ∷ fs) zero c = (cleared-Coherent g, c.1)
  AllCoherent-clear_at (g ∷ fs) (suc i) c = (c.0, AllCoherent-clear_at fs i c.1)

  -- A block read at a multiple of the block size is coherent.
  pub read_block-Coherent :
      (fd at : ℕ) (old : ℕ → ℕ)
      → at % blk_size ≡ 0
      → Coherent (record { handle = some fd; offset = at; block = read_block (contents fd) at old })
  unfolding read_block
  read_block-Coherent fd at old h fd' e =
      subst
        (λ x.
          (at % blk_size ≡ 0)
          × ((j : ℕ)
              → j < blk_size
              → at + j < length (contents x)
              → read_block (contents fd) at old j ≡ get_or (contents x) (at + j) 0))
        (some_inj e) (h, λ j lj le. ground arith)

-- Two memories that agree on a range give the same copy of it.
pub copy_agree :
    (m m' : ℕ → ℕ) (a b n : ℕ)
    → ((j : ℕ) → j < n → m (a + j) ≡ m' (b + j))
    → copy m a n ≡ copy m' b n
unfolding copy
copy_agree m m' a b zero h = refl
copy_agree m m' a b (suc n) h =
    ap₂ ◌∷◌ (ground (arith, h 0))
      (copy_agree m m' (a + 1) (b + 1) n (λ j l. ground (arith, h (suc j))))
