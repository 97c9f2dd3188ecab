-- ===== src/FileIo/Source.antt =====
-- Where `fread` of FileIO.cpp takes the frame from, and the queue behind it.
use cs.Prelude.{
  ◌>>=◌, ℕ, ◌-◌, ◌*◌, ◌≡◌, ◌⊎◌, refl, ap, sym, ◌∙◌, List, [], ◌∷◌, ◌++◌, some, get_elem?,
  Option-cases, inl, inr, some_inj, bind_some,
}
use cs.FileIo.{
  Buffer, first_index, is_free, holds, erase_index, pop_back, evict_lru, allocate_block, memcpy,
  fread_hit, fread_miss, fread,
}
use cs.FileIo.Queue.{pop_back-occurrences}

-- Where the frame of a read comes from: it was in the queue, or free, or the last of the queue.
pub data Source (b : Buffer) (i : ℕ) (q : List ℕ) : Type 0 where
  held : erase_index i b.queue ≡ some q → Source b i q
  unused : q ≡ b.queue → Source b i q
  evicted : b.queue ≡ q ++ i ∷ [] → Source b i q

pop_back_split : (q : List ℕ) {i : ℕ} {q' : List ℕ} → pop_back q ≡ some (i, q') → q ≡ q' ++ i ∷ []
unfolding pop_back
pop_back_split [] e = cc
pop_back_split (j ∷ q) {i} {q'} e =
    let (i1, q1, popped, split, rest) = pop_back-occurrences (j ∷ q) (λ e. cc) in
    let at : some (i1, q1) ≡ some (i, q') = sym popped ∙ e in
    split ∙ ap (λ (r : ℕ × List ℕ). r.1 ++ r.0 ∷ []) (some_inj at)

hit_queue :
    (n offset i : ℕ) (b : Buffer) {done : List ℕ × ℕ × Buffer}
    → fread_hit n offset i b ≡ some done
    → (q : List ℕ) × (done.2.queue ≡ i ∷ q) × (erase_index i b.queue ≡ some q)
unfolding fread_hit
hit_queue n offset i b ran =
    let (f, at, e1) = bind_some (get_elem? b.frames i) _ ran in
    let (bytes, copied, e2) = bind_some (memcpy f (offset - f.offset) n) _ e1 in
    let (q, erased, e3) = bind_some (erase_index i b.queue) _ e2 in
    (q, ap (λ (d : List ℕ × ℕ × Buffer). d.2.queue) (sym (some_inj e3)), erased)

allocated_queue :
    (b : Buffer) {i : ℕ} {b' : Buffer}
    → allocate_block b ≡ some (i, b')
    → (q : List ℕ) × (b'.queue ≡ i ∷ q)
      × (((first_index is_free b.frames ≡ some i) × (q ≡ b.queue)) ⊎ (b.queue ≡ q ++ i ∷ []))
unfolding allocate_block evict_lru
allocated_queue b {i} {b'} ran = elim (Option-cases (first_index is_free b.frames)) [
  | inr (j, e) ↦
      let here : some (j, record b { queue = j ∷ b.queue }) ≡ some (i, b') =
        sym (rw (e, allocate_block) refl) ∙ ran in
      let at = some_inj here in
      (
        b.queue,
        ap (λ (r : ℕ × Buffer). r.1.queue) (sym at) ∙ ap (λ (r : ℕ × Buffer). r.0 ∷ b.queue) at,
        inl (e ∙ ap some (ap (λ (r : ℕ × Buffer). r.0) at), refl),
      )
  | inl full ↦
      let given : (evict_lru b >>= λ r. some (r.0, record r.1 { queue = r.0 ∷ r.1.queue }))
          ≡ some (i, b') =
        sym (rw (full, allocate_block) refl) ∙ ran in
      let ((j, b1), given_up, e1) = bind_some (evict_lru b) _ given in
      let ((j', q), popped, e2) = bind_some (pop_back b.queue) _ given_up in
      let taken = some_inj e2 in
      let at = some_inj e1 in
      let is_i : j' ≡ i = ap (λ (r : ℕ × Buffer). r.0) taken ∙ ap (λ (r : ℕ × Buffer). r.0) at in
      let behind : q ≡ b1.queue = ap (λ (r : ℕ × Buffer). r.1.queue) taken in
      (
        q,
        ap (λ (r : ℕ × Buffer). r.1.queue) (sym at)
            ∙ ap (λ x. x ∷ b1.queue) (ap (λ (r : ℕ × Buffer). r.0) at)
            ∙ ap (◌∷◌ i) (sym behind),
        inr (pop_back_split b.queue popped ∙ ap (λ x. q ++ x ∷ []) is_i),
      )
]

module _ (contents : ℕ → List ℕ) where
  pub miss_queue :
      (n offset fd : ℕ) (b : Buffer) {done : List ℕ × ℕ × Buffer}
      → fread_miss contents n offset fd b ≡ some done
      → (i : ℕ) × (q : List ℕ) × (done.2.queue ≡ i ∷ q)
        × (((first_index is_free b.frames ≡ some i) × (q ≡ b.queue)) ⊎ (b.queue ≡ q ++ i ∷ []))
  unfolding fread_miss
  miss_queue n offset fd b ran =
      let ((i, b1), allocated, e1) = bind_some (allocate_block b) _ ran in
      let (f, at, e2) = bind_some (get_elem? b1.frames i) _ e1 in
      let (bytes, copied, e3) = bind_some (memcpy _ _ n) _ e2 in
      let (q, front, source) = allocated_queue b allocated in
      (i, q, ap (λ (d : List ℕ × ℕ × Buffer). d.2.queue) (sym (some_inj e3)) ∙ front, source)

  -- After a read the frame that it used is at the front of the queue.
  pub fread_queue :
      (size count offset fd : ℕ) (b : Buffer) {done : List ℕ × ℕ × Buffer}
      → fread contents size count offset fd b ≡ some done
      → (i : ℕ) × (q : List ℕ) × (done.2.queue ≡ i ∷ q) × Source b i q
  unfolding fread
  fread_queue size count offset fd b ran =
      elim (Option-cases (first_index (holds fd offset) b.frames)) [
        | inr (i, e) ↦
            let (q, front, erased) =
              hit_queue (count * size) offset i b (sym (rw (e, fread) refl) ∙ ran) in
            (i, q, front, held erased)
        | inl out ↦
            let (i, q, front, source) =
              miss_queue (count * size) offset fd b (sym (rw (out, fread) refl) ∙ ran) in
            (i, q, front, elim source [ inl (spare, e) ↦ unused e | inr e ↦ evicted e ])
      ]
