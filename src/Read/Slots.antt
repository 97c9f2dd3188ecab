-- ===== src/Read/Slots.antt =====
-- The bytes of a level file as `findEntry` of Read.hpp reads them, and the reads of an entry.
use native.Mathlib.Nat.{mul-le-mul_right, suc-mul}
use cs.Prelude.{
  ◌>>=◌, ℕ, suc, ◌+◌, ◌*◌, ◌%◌, ◌<◌, ◌≤◌, ◌≡◌, ap, ◌∙◌, List, Option, some, length, get_elem?,
  arith,
}
use cs.Order.{Ord}
use cs.Assoc.Index.{lt-get_elem}
use cs.FileIo.{copy}
use cs.FileIo.Reads.{at_byte}
use cs.Read.{Pager, Image, entry_size, read_key, read_value}

one_times : (n : ℕ) → 1 * n ≡ n
one_times n = omega arith

module _ {ℓ κ} {K : Type ℓ} {V : Type κ} ⦃o : Ord K⦄ (p : Pager) (ik : Image K) (iv : Image V) where
  -- The file behind `fd` is a first block and the images of the entries, and no key or value runs
  -- over the end of a block.
  pub record IsImage (fd : ℕ) (es : List (K × V)) : Type (ℓ ⊔ κ) where
    pub positive : 0 < entry_size p ik iv
    pub sized : length (p.contents fd) ≡ suc (length es) * entry_size p ik iv
    pub keys :
        (j : ℕ) {e : K × V}
        → get_elem? es j ≡ some e
        → ik.of_bytes (copy (at_byte (p.contents fd)) (suc j * entry_size p ik iv) ik.size_of) ≡ e.0
    pub values :
        (j : ℕ) {e : K × V}
        → get_elem? es j ≡ some e
        → iv.of_bytes
            (copy (at_byte (p.contents fd)) (suc j * entry_size p ik iv + ik.size_of) iv.size_of)
          ≡ e.1
    pub keys_fit : (j : ℕ) → j * entry_size p ik iv % p.block_size + ik.size_of ≤ p.block_size
    pub values_fit :
        (j : ℕ) → (j * entry_size p ik iv + ik.size_of) % p.block_size + iv.size_of ≤ p.block_size

  module _ (fd : ℕ) (es : List (K × V)) (image : IsImage fd es) where
    pub in_file :
        (j : ℕ)
        → j < length es
        → suc j * entry_size p ik iv + entry_size p ik iv ≤ length (p.contents fd)
    in_file j h =
        let le : suc (suc j) ≤ suc (length es) = omega arith in
        rw image.sized (
          omega
            (arith, suc-mul (suc j) (entry_size p ik iv), mul-le-mul_right (entry_size p ik iv) le))

    pub read_key-image :
        (j : ℕ) {e : K × V} (s : p.State)
        → get_elem? es j ≡ some e
        → p.IsSound s
        → (s' : p.State) × (read_key p ik iv (suc j) fd s ≡ some (e.0, s')) × p.IsSound s'
    unfolding read_key
    read_key-image j s g sound =
        let offset = suc j * entry_size p ik iv in
        let (returned, s', ran, sound') =
          p.fread_bytes ik.size_of 1 offset fd s sound (omega (arith, image.keys_fit (suc j)))
            (omega (arith, in_file j (lt-get_elem es j g))) in
        (
          s',
          ap (λ r. r >>= λ x. let entry : K × p.State = (ik.of_bytes x.0, x.2) in some entry) ran
              ∙ ap (λ k. some (k, s'))
                  (ap (λ n. ik.of_bytes (copy (at_byte (p.contents fd)) offset n))
                      (one_times ik.size_of)
                    ∙ image.keys j g),
          sound',
        )

    pub read_value-image :
        (j : ℕ) {e : K × V} (s : p.State)
        → get_elem? es j ≡ some e
        → p.IsSound s
        → (s' : p.State) × (read_value p ik iv (suc j) fd s ≡ some (some e.1, s')) × p.IsSound s'
    unfolding read_value
    read_value-image j s g sound =
        let offset = suc j * entry_size p ik iv + ik.size_of in
        let (returned, s', ran, sound') =
          p.fread_bytes iv.size_of 1 offset fd s sound (omega (arith, image.values_fit (suc j)))
            (omega (arith, in_file j (lt-get_elem es j g))) in
        (
          s',
          ap
                (λ r. r >>= λ x.
                  let found : Option V × p.State = (some (iv.of_bytes x.0), x.2) in some found)
                ran
              ∙ ap (λ v. some (some v, s'))
                  (ap (λ n. iv.of_bytes (copy (at_byte (p.contents fd)) offset n))
                      (one_times iv.size_of)
                    ∙ image.values j g),
          sound',
        )
