-- ===== src/FileIo/Reads.antt =====
-- What `fread` of FileIO.cpp promises: the bytes of the file, from a buffer that stays sound.
use cs.Prelude.{
  ℕ, zero, suc, ◌+◌, ◌-◌, ◌*◌, ◌%◌, ◌<◌, ◌≤◌, true, ◌≡◌, ◌≢◌, refl, ap, ◌∙◌, List, [], ◌∷◌, none,
  some, if◌then◌else◌, ◌==◌, length, length-set, get_elem?, get_or, set, Option-cases, inl, inr,
  arith,
}
use cs.FileIo.{
  Frame, Buffer, blk_size, first_index, is_free, holds, clear_at, evict_lru, allocate_block,
  read_block, bytes_read, copy, memcpy, fread_hit, fread_miss, fread,
}
use cs.FileIo.Queue.{occurrences, erase_index-occurrences, pop_back-occurrences}
use cs.FileIo.Frames.{
  in_use, used, used-set, used-clear_at, length-clear_at, first_index-some, used_of_full,
  used_of_get, Coherent, AllCoherent, AllCoherent-get, AllCoherent-set, AllCoherent-clear_at,
  read_block-Coherent, copy_agree,
}

used_pos : (fs : List Frame) (i : ℕ) → 0 < used fs i → i < length fs
used_pos [] i h = absurd (omega arith)
used_pos (f ∷ fs) zero h = omega arith
used_pos (f ∷ fs) (suc i) h = omega (arith, used_pos fs i h)

get_elem?-lt : (fs : List Frame) (i : ℕ) → i < length fs → (f : Frame) × (get_elem? fs i ≡ some f)
get_elem?-lt [] i h = absurd (omega arith)
get_elem?-lt (f ∷ fs) zero h = (f, refl)
get_elem?-lt (f ∷ fs) (suc i) h = get_elem?-lt fs i (omega arith)

-- The bytes of a file as a memory.
abbrev pub at_byte : List ℕ → ℕ → ℕ
at_byte bytes j = get_or bytes j 0

module _ (contents : ℕ → List ℕ) where
  -- There is a frame; the queue holds each frame in use once and no other; every frame in use holds
  -- what its file holds.
  pub record IsValid (b : Buffer) : Type 0 where
    pub nonempty : 0 < length b.frames
    pub tracked : (i : ℕ) → occurrences i b.queue ≡ used b.frames i
    pub coherent : AllCoherent contents b.frames

  -- Frame `i` is at the front of the queue and waits for its block.
  record IsReserved (i : ℕ) (b : Buffer) : Type 0 where
    within : i < length b.frames
    nonempty : 0 < length b.frames
    tracked : (k : ℕ) → occurrences k b.queue ≡ (if i == k then 1 else used b.frames k)
    coherent : AllCoherent contents b.frames

  evict_lru-IsReserved :
      (b : Buffer)
      → IsValid b
      → first_index is_free b.frames ≡ none
      → (i : ℕ) × (b' : Buffer) × (evict_lru b ≡ some (i, b'))
        × IsReserved i (record b' { queue = i ∷ b'.queue })
  unfolding evict_lru
  evict_lru-IsReserved b v full =
      let busy : b.queue ≢ [] = λ e.
        ground
          (arith, ap (occurrences 0) e, v.tracked 0, used_of_full b.frames 0 full v.nonempty) in
      let (i, q, popped, _, rest) = pop_back-occurrences b.queue busy in
      (
        i,
        record { frames = clear_at b.frames i; queue = q },
        rw popped,
        record {
          within =
              rw (length-clear_at b.frames i)
                (used_pos b.frames i (ground (arith, v.tracked i, rest i)));
          nonempty = rw (length-clear_at b.frames i) v.nonempty;
          tracked = λ k. ground (
            arith,
            rest k,
            rest i,
            v.tracked k,
            used-clear_at b.frames i k,
            used_of_full b.frames i full
                (used_pos b.frames i (ground (arith, v.tracked i, rest i))),
          );
          coherent = AllCoherent-clear_at contents b.frames i v.coherent;
        },
      )

  allocate_block-IsReserved :
      (b : Buffer)
      → IsValid b
      → (i : ℕ) × (b' : Buffer) × (allocate_block b ≡ some (i, b')) × IsReserved i b'
  unfolding allocate_block
  allocate_block-IsReserved b v = elim (Option-cases (first_index is_free b.frames)) [
    | inl full ↦
        let (i, b', evicted, r) = evict_lru-IsReserved b v full in
        (i, record b' { queue = i ∷ b'.queue }, rw (full, evicted, allocate_block), r)
    | inr (i, e) ↦
        let (f, at, free, l) = first_index-some is_free b.frames e in
        (
          i,
          record b { queue = i ∷ b.queue },
          rw (e, allocate_block),
          record {
            within = l;
            nonempty = v.nonempty;
            tracked = λ k. ground (arith, v.tracked k, v.tracked i, used_of_get b.frames i at);
            coherent = v.coherent;
          },
        )
  ]

  memcpy_within :
      (f : Frame) (off n : ℕ) → off + n ≤ blk_size → memcpy f off n ≡ some (copy f.block off n)
  unfolding memcpy
  memcpy_within f off n h = ground arith

  -- A frame that holds the offset gives the bytes of its file there.
  copy_of_holds :
      (fd offset n : ℕ) (f : Frame)
      → Coherent contents f
      → holds fd offset f ≡ true
      → offset % blk_size + n ≤ blk_size
      → offset + n ≤ length (contents fd)
      → (memcpy f (offset - f.offset) n ≡ some (copy (at_byte (contents fd)) offset n))
        × (in_use f ≡ 1)
  unfolding holds
  copy_of_holds fd offset n f c h fits inside =
      let owner : f.handle ≡ some fd = ground arith in
      let low : f.offset ≤ offset = ground arith in
      let high : offset < f.offset + blk_size = ground arith in
      let (aligned, bytes) = c fd owner in
      (
        memcpy_within f (offset - f.offset) n (omega arith)
            ∙ ap some (
                copy_agree f.block (at_byte (contents fd)) (offset - f.offset) offset n (λ j l.
                  bytes (offset - f.offset + j) (omega arith) (omega arith)
                  ∙ ap (at_byte (contents fd)) (omega arith))),
        rw owner,
      )

  fread_hit-bytes :
      (fd offset n i : ℕ) (b : Buffer)
      → IsValid b
      → first_index (holds fd offset) b.frames ≡ some i
      → offset % blk_size + n ≤ blk_size
      → offset + n ≤ length (contents fd)
      → (b' : Buffer) × (fread_hit n offset i b
          ≡ some (copy (at_byte (contents fd)) offset n, n, b'))
        × IsValid b'
  unfolding fread_hit
  fread_hit-bytes fd offset n i b v e fits inside =
      let (f, at, h, l) = first_index-some (holds fd offset) b.frames e in
      let (copied, busy) =
        copy_of_holds fd offset n f (AllCoherent-get contents b.frames i v.coherent at) h fits
          inside in
      let (q, erased, rest) =
        erase_index-occurrences i b.queue
          (omega (arith, v.tracked i, used_of_get b.frames i at, busy)) in
      (
        record b { queue = i ∷ q },
        rw (at, copied, erased, fread_hit),
        record {
          nonempty = v.nonempty;
          tracked = λ k. omega (arith, rest k, v.tracked k);
          coherent = v.coherent;
        },
      )

  fread_miss-bytes :
      (fd offset n : ℕ) (b : Buffer)
      → IsValid b
      → offset % blk_size + n ≤ blk_size
      → offset + n ≤ length (contents fd)
      → (count : ℕ) × (b' : Buffer) × (fread_miss contents n offset fd b
          ≡ some (copy (at_byte (contents fd)) offset n, count, b'))
        × IsValid b'
  unfolding fread_miss
  fread_miss-bytes fd offset n b v fits inside =
      let (i, b1, allocated, r) = allocate_block-IsReserved b v in
      let (f, at) = get_elem?-lt b1.frames i r.within in
      let start = offset - offset % blk_size in
      let f' : Frame = record {
        handle = some fd;
        offset = start;
        block = read_block (contents fd) start f.block;
      } in
      let sound : Coherent contents f' =
        read_block-Coherent contents fd start f.block (omega arith) in
      let (aligned, bytes) = sound fd refl in
      let copied =
        memcpy_within f' (offset - start) n (omega arith)
        ∙ ap some (
            copy_agree f'.block (at_byte (contents fd)) (offset - start) offset n (λ j l.
              bytes (offset - start + j) (omega arith) (omega arith)
              ∙ ap (at_byte (contents fd)) (omega arith))) in
      (
        bytes_read (contents fd) start,
        record b1 { frames = set b1.frames i f' },
        rw (allocated, at, copied, fread_miss),
        record {
          nonempty = rw (length-set b1.frames i f') r.nonempty;
          tracked = λ k. ground (arith, r.tracked k, used-set b1.frames i k f' r.within);
          coherent = AllCoherent-set contents b1.frames i f' r.coherent sound;
        },
      )

  -- `fread` on a sound buffer: for a range that lies in the file and in one block it returns, with
  -- exactly the bytes of the file, whether the block was there, was read into a free frame or needed
  -- an eviction; and the buffer stays sound.
  pub fread-bytes :
      (size count offset fd : ℕ) (b : Buffer)
      → IsValid b
      → offset % blk_size + count * size ≤ blk_size
      → offset + count * size ≤ length (contents fd)
      → (returned : ℕ) × (b' : Buffer) × (fread contents size count offset fd b
          ≡ some (copy (at_byte (contents fd)) offset (count * size), returned, b'))
        × IsValid b'
  unfolding fread
  fread-bytes size count offset fd b v fits inside =
      elim (Option-cases (first_index (holds fd offset) b.frames)) [
        | inl out ↦
            let (returned, b', ran, v') =
              fread_miss-bytes fd offset (count * size) b v fits inside in
            (returned, b', rw (out, ran, fread), v')
        | inr (i, e) ↦
            let (b', ran, v') = fread_hit-bytes fd offset (count * size) i b v e fits inside in
            (count * size, b', rw (e, ran, fread), v')
      ]
