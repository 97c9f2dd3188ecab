-- ===== src/Read/Paged.antt =====
-- `findEntry` of Read.hpp through the buffers of FileIO.cpp, on the bytes that `dump` and
-- `merge_files` write for the keys and values of the program.
use cs.Prelude.{
  ℕ, zero, suc, ◌+◌, ◌*◌, ◌≡◌, refl, ap, ap₂, sym, ◌∙◌, some_inj, List, [], ◌∷◌, ◌++◌, some, length,
  length-append, get_elem?, get_or, arith,
}
use mathlib.Core.Path.{subst}
use mathlib.Core.List.{append_assoc, append-nil}
use cs.Key.{Words, Key, Value}
use cs.Key.Bytes.{bytes_of, of_bytes, InRange, length-bytes_of, of_bytes-bytes_of}
use cs.Key.Laws.{words_ord}
use cs.Assoc.Each.{Each}
use cs.Assoc.{find, IsSorted}
use cs.FileIo.{Buffer, blk_size, copy, fread}
use cs.FileIo.Reads.{at_byte, IsValid, fread-bytes}
use cs.FileIo.Frames.{copy_agree}
use cs.Read.{Pager, Image, find_entry}
use cs.Read.Slots.{IsImage}
use cs.Read.Search.{find_entry-find}

-- `FileIO` as the pager of `findEntry`.
abbrev pub file_pager : (ℕ → List ℕ) → Pager
file_pager contents = record {
  State = Buffer;
  block_size = blk_size;
  contents = contents;
  IsSound = IsValid contents;
  fread = fread contents;
  fread_bytes = fread-bytes contents;
}

-- `K` and `V`: 64 bytes each.
abbrev pub words_image : Image Key
words_image = record { size_of = 64; of_bytes = of_bytes 8 }

-- The bytes that the two calls of `fwrite` for each entry write.
abbrev pub entries_bytes : List (Key × Value) → List ℕ
entries_bytes [] = []
entries_bytes ((k, v) ∷ es) = bytes_of 8 k ++ (bytes_of 8 v ++ entries_bytes es)

abbrev pub EntryInRange : Key × Value → Type 0
EntryInRange e = InRange 8 e.0 × InRange 8 e.1

abbrev pub AllInRange : List (Key × Value) → Type 0
AllInRange es = Each EntryInRange es

length-entries_bytes : (es : List (Key × Value)) → length (entries_bytes es) ≡ length es * 128
length-entries_bytes [] = refl
length-entries_bytes ((k, v) ∷ es) = omega (
  arith,
  length-append (bytes_of 8 k) (bytes_of 8 v ++ entries_bytes es),
  length-append (bytes_of 8 v) (entries_bytes es),
  length-bytes_of 8 k,
  length-bytes_of 8 v,
  length-entries_bytes es,
)

get_or-skip : (xs ys : List ℕ) (i : ℕ) → get_or (xs ++ ys) (length xs + i) 0 ≡ get_or ys i 0
get_or-skip [] ys i = let e : 0 + i ≡ i = omega arith in ap (at_byte ys) e
get_or-skip (x ∷ xs) ys i =
    let e : suc (length xs) + i ≡ suc (length xs + i) = omega arith in
    ap (at_byte (x ∷ (xs ++ ys))) e ∙ get_or-skip xs ys i

-- A copy behind a prefix, of a list that begins there.
copy_skip :
    (xs ys : List ℕ) (off n : ℕ)
    → copy (at_byte (xs ++ ys)) (length xs + off) n ≡ copy (at_byte ys) off n
copy_skip xs ys off n = copy_agree (at_byte (xs ++ ys)) (at_byte ys) (length xs + off) off n (λ j l.
    let e : length xs + off + j ≡ length xs + (off + j) = omega arith in
    ap (at_byte (xs ++ ys)) e ∙ get_or-skip xs ys (off + j))

copy_prefix : (ys zs : List ℕ) → copy (at_byte (ys ++ zs)) 0 (length ys) ≡ ys
unfolding copy
copy_prefix [] zs = refl
copy_prefix (y ∷ ys) zs =
    ap (◌∷◌ y) (copy_skip (y ∷ []) (ys ++ zs) 0 (length ys) ∙ copy_prefix ys zs)

-- The bytes that stand between two others.
copy_middle :
    (xs ys zs : List ℕ) (off n : ℕ)
    → off ≡ length xs
    → n ≡ length ys
    → copy (at_byte (xs ++ (ys ++ zs))) off n ≡ ys
copy_middle xs ys zs off n h g =
    let e : off ≡ length xs + 0 = omega arith in
    ap₂ (copy (at_byte (xs ++ (ys ++ zs)))) e g
    ∙ copy_skip xs (ys ++ zs) 0 (length ys)
    ∙ copy_prefix ys zs

-- The bytes of a place, between those before it and those behind it.
entries_split :
    (es : List (Key × Value)) (j : ℕ) {e : Key × Value}
    → AllInRange es
    → get_elem? es j ≡ some e
    → (before after : List ℕ) × (entries_bytes es
        ≡ before ++ (bytes_of 8 e.0 ++ (bytes_of 8 e.1 ++ after)))
      × (length before ≡ j * 128)
      × InRange 8 e.0
      × InRange 8 e.1
entries_split [] j r h = cc
entries_split ((k, v) ∷ es) zero {e} r h =
    subst
      (λ (x : Key × Value).
        (before after : List ℕ) × (entries_bytes ((k, v) ∷ es)
          ≡ before ++ (bytes_of 8 x.0 ++ (bytes_of 8 x.1 ++ after)))
        × (length before ≡ 0)
        × InRange 8 x.0
        × InRange 8 x.1)
      (some_inj h) ([], entries_bytes es, refl, refl, r.0.0, r.0.1)
entries_split ((k, v) ∷ es) (suc j) r h =
    let (before, after, split, len, rk, rv) = entries_split es j r.1 h in
    let front = bytes_of 8 k ++ bytes_of 8 v in
    (
      front ++ before,
      after,
      sym (append_assoc (bytes_of 8 k) (bytes_of 8 v) (entries_bytes es))
          ∙ ap (λ bs. front ++ bs) split
          ∙ sym (append_assoc front before _),
      omega (
        arith,
        length-append front before,
        length-append (bytes_of 8 k) (bytes_of 8 v),
        length-bytes_of 8 k,
        length-bytes_of 8 v,
        len,
      ),
      rk,
      rv,
    )

bytes_back : (ws : Words 8) → InRange 8 ws → of_bytes 8 (bytes_of 8 ws) ≡ ws
bytes_back ws r = ap (of_bytes 8) (sym (append-nil (bytes_of 8 ws))) ∙ of_bytes-bytes_of 8 ws [] r

-- An object of 64 bytes that stands in a file is read from there.
object_at :
    (bytes xs zs : List ℕ) (ws : Words 8) (off : ℕ)
    → bytes ≡ xs ++ (bytes_of 8 ws ++ zs)
    → off ≡ length xs
    → InRange 8 ws
    → of_bytes 8 (copy (at_byte bytes) off 64) ≡ ws
object_at bytes xs zs ws off h g r =
    ap (of_bytes 8) (
      ap (λ bs. copy (at_byte bs) off 64) h
      ∙ copy_middle xs (bytes_of 8 ws) zs off 64 g (sym (length-bytes_of 8 ws)))
    ∙ bytes_back ws r

module _ (contents : ℕ → List ℕ) (fd : ℕ) (stamp : List ℕ) (es : List (Key × Value)) where
  -- A file of a first block of 128 bytes and the bytes of entries, with words of 64 bits, is an image of
  -- the entries: each key and value is read at its place, and none runs over the end of a block of 8192
  -- bytes.
  pub written-IsImage :
      contents fd ≡ stamp ++ entries_bytes es
      → length stamp ≡ 128
      → AllInRange es
      → IsImage (file_pager contents) words_image words_image fd es
  written-IsImage written len range = record {
    positive = omega arith;
    sized =
        ap length written
        ∙ omega (arith, length-append stamp (entries_bytes es), length-entries_bytes es, len);
    keys = λ j {e} g.
        let (before, after, split, place, rk, rv) = entries_split es j range g in
        object_at (contents fd) (stamp ++ before) (bytes_of 8 e.1 ++ after) e.0 (suc j * 128)
          (written ∙ ap (λ bs. stamp ++ bs) split ∙ sym (append_assoc stamp before _))
          (omega (arith, length-append stamp before, len, place)) rk;
    values = λ j {e} g.
        let (before, after, split, place, rk, rv) = entries_split es j range g in
        let front = stamp ++ before in
        object_at (contents fd) (front ++ bytes_of 8 e.0) after e.1 (suc j * 128 + 64)
          (written
            ∙ ap (λ bs. stamp ++ bs) split
            ∙ sym (append_assoc stamp before _)
            ∙ sym (append_assoc front (bytes_of 8 e.0) _))
          (omega (
            arith,
            length-append front (bytes_of 8 e.0),
            length-append stamp before,
            length-bytes_of 8 e.0,
            len,
            place,
          ))
          rv;
    keys_fit = λ j. omega arith;
    values_fit = λ j. omega arith;
  }

  -- On a file of a first block of 128 bytes and the bytes of a sorted run, with words of 64 bits,
  -- `findEntry` from a sound buffer ends without a fault and gives the value of the key in the run, or
  -- `false`; and the buffer stays sound for the next search.
  pub find_entry-written :
      (key : Key) (b : Buffer)
      → contents fd ≡ stamp ++ entries_bytes es
      → length stamp ≡ 128
      → AllInRange es
      → IsSorted es
      → IsValid contents b
      → (b' : Buffer) × (find_entry (file_pager contents) words_image words_image fd key b
          ≡ some (find key es, b'))
        × IsValid contents b'
  find_entry-written key b written len range sorted sound =
      find_entry-find (file_pager contents) words_image words_image fd es
        (written-IsImage written len range) key b sorted sound
