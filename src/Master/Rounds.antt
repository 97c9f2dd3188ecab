-- ===== src/Master/Rounds.antt =====
-- The order in which `dbread` of master.cpp goes through the level files.
use cs.Prelude.{
  ℕ, zero, suc, ◌+◌, ◌-◌, ◌%◌, ◌<◌, true, false, ◌≡◌, refl, ap, ap₂, sym, ◌∙◌, List, [], ◌∷◌, ◌++◌,
  Option, none, some, ◌==◌, Bool-cases, inl, inr, arith,
}
use Prim.Native.Nat.add
use Prim.Native.Nat.{◌*◌}
use cs.Assoc.{find, or_else}
use cs.Key.{Key, Value}
use cs.Key.Laws.{words_ord}
use cs.Level.{Level, entries_of}
use mathlib.Core.Path.{subst}
use cs.Read.Searcher.{Searcher, IsStored}
use cs.Master.{num_files, read_files, read_levels}

-- `n` files from number `i` downwards, around the ring.
unfoldable pub down : ℕ → ℕ → List ℕ
down zero i = []
down (suc n) i = i ∷ down n ((i + num_files - 1) % num_files)

-- The first of the files in which the key is.
unfoldable pub chain : (ℕ → Level Key Value) → List ℕ → Key → Option Value
chain files [] k = none
chain files (i ∷ is) k = or_else (find k (entries_of (files i))) (chain files is k)

pub chain-append :
    (files : ℕ → Level Key Value) (is js : List ℕ) (k : Key)
    → chain files (is ++ js) k ≡ or_else (chain files is k) (chain files js k)
unfolding chain
chain-append files [] js k = refl
chain-append files (i ∷ is) js k = ground (arith, chain-append files is js k)

-- `m` files further down.
unfoldable pub below : ℕ → ℕ → ℕ
below m i = (i + 9 * m) % num_files

pub down-add : (m n i : ℕ) → i < num_files → down (m + n) i ≡ down m i ++ down n (below m i)
unfolding down below
down-add zero n i h = ap₂ down (add.zero n) (let e : i ≡ (i + 9 * 0) % num_files = omega arith in e)
down-add (suc m) n i h =
    let i' = (i + num_files - 1) % num_files in
    let e : suc m + n ≡ suc (m + n) = omega arith in
    let g : below m i' ≡ below (suc m) i = omega arith in
    ap (λ t. down t i) e
    ∙ ap (◌∷◌ i) (down-add m n i' (omega arith) ∙ ap (λ t. down m i' ++ down n t) g)

-- The round from the most recent file, ended by the two oldest.
pub down_all :
    (r : ℕ)
    → r < num_files
    → down num_files r ≡ down 8 r ++ (r + 2) % num_files ∷ (r + 1) % num_files ∷ []
unfolding down below
down_all r h =
    let two : down 2 (below 8 r) ≡ (r + 2) % num_files ∷ (r + 1) % num_files ∷ [] =
      ap₂ (λ i j. i ∷ j ∷ []) (omega arith) (omega arith) in
    down-add 8 2 r h ∙ ap (λ is. down 8 r ++ is) two

-- The round after the oldest file was replaced by a more recent one.
pub down_next :
    (r : ℕ)
    → r < num_files
    → down num_files ((r + 1) % num_files)
      ≡ (r + 1) % num_files ∷ down 8 r ++ (r + 2) % num_files ∷ []
unfolding down below
down_next r h =
    let o = (r + 1) % num_files in
    let back : (o + num_files - 1) % num_files ≡ r = omega arith in
    let last : down 1 (below 8 r) ≡ (r + 2) % num_files ∷ [] = ap (λ i. i ∷ []) (omega arith) in
    ap (◌∷◌ o) (ap (down 9) back ∙ down-add 8 1 r h ∙ ap (λ is. down 8 r ++ is) last)

-- The turns of the loop from `i` until `stop`.
abbrev turns : ℕ → ℕ → ℕ
turns i stop = (i + num_files - stop) % num_files

module _ (searcher : Searcher) (files : ℕ → Level Key Value) (stored : (i : ℕ) → IsStored (files i))
    (k : Key) where
  -- A run that ends with the answer `a`, in a sound state.
  abbrev Answers : Option (Option Value × searcher.State) → Option Value → Type 0
  Answers run a = (s' : searcher.State) × (run ≡ some (a, s')) × searcher.IsSound s'

  read_files_stop :
      (f i stop : ℕ) (s : searcher.State)
      → (i == stop) ≡ true
      → read_files searcher (suc f) files i stop k s ≡ some (none, s)
  unfolding read_files
  read_files_stop f i stop s h = rw (h, read_files)

  read_files_next :
      (f i stop : ℕ) (s : searcher.State) (first : Option Value) {rest : Option Value}
      {s1 : searcher.State}
      → (i == stop) ≡ false
      → searcher.find_in (files i) k s ≡ some (first, s1)
      → searcher.IsSound s1
      → Answers (read_files searcher f files ((i + num_files - 1) % num_files) stop k s1) rest
      → Answers (read_files searcher (suc f) files i stop k s) (or_else first rest)
  unfolding read_files
  read_files_next f i stop s none {s1 = s1} h e sound (s2, ran, sound2) =
      (s2, rw (h, read_files) (rw e ran), sound2)
  read_files_next f i stop s (some v) {s1 = s1} h e sound more =
      (s1, rw (h, read_files) (rw e), sound)

  read_files-chain :
      (f i stop : ℕ) (s : searcher.State)
      → i < num_files
      → stop < num_files
      → turns i stop < f
      → searcher.IsSound s
      → Answers (read_files searcher f files i stop k s) (chain files (down (turns i stop) i) k)
  unfolding chain down
  read_files-chain zero i stop s li ls h sound = absurd (omega arith)
  read_files-chain (suc f) i stop s li ls h sound = elim (Bool-cases (i == stop)) [
    | inl e ↦
        let none_left : turns i stop ≡ 0 = ground arith in
        (
          s,
          read_files_stop f i stop s e
              ∙ ap (λ n. some (chain files (down n i) k, s)) (sym none_left),
          sound,
        )
    | inr ne ↦
        let i' = (i + num_files - 1) % num_files in
        let one_less : turns i stop ≡ suc (turns i' stop) = ground arith in
        let (s1, found, sound1) = searcher.finds (files i) k s (stored i) sound in
        let (s2, ran, sound2) =
          read_files_next f i stop s (find k (entries_of (files i))) ne found sound1
            (read_files-chain f i' stop s1 (omega arith) ls (omega (arith, one_less)) sound1) in
        (s2, ran ∙ ap (λ n. some (chain files (down n i) k, s2)) (sym one_less), sound2)
  ]

  two_rounds :
      (r : ℕ) (s : searcher.State) (a : Option Value) {b : Option Value}
      → Answers (read_files searcher (suc num_files) files r ((r + 2) % num_files) k s) a
      → ((s' : searcher.State)
          → searcher.IsSound s'
          → Answers (read_files searcher (suc num_files) files ((r + 2) % num_files) r k s') b)
      → Answers (read_levels searcher files r k s) (or_else a b)
  unfolding read_levels
  two_rounds r s none (s1, first, sound1) second =
      let (s2, ran, sound2) = second s1 sound1 in (s2, rw (first, read_levels) ran, sound2)
  two_rounds r s (some v) (s1, first, sound1) second = (s1, rw (first, read_levels) refl, sound1)

  -- On level files that are sorted and whole the traversal of the file system ends, and answers from the
  -- first of all ten files, from the most recent one back to the oldest, in which the key is; and the
  -- buffers stay sound.
  pub read_levels-chain :
      (r : ℕ) (s : searcher.State)
      → r < num_files
      → searcher.IsSound s
      → (s' : searcher.State) × (read_levels searcher files r k s
          ≡ some (chain files (down num_files r) k, s'))
        × searcher.IsSound s'
  read_levels-chain r s h sound =
      let o = (r + 2) % num_files in
      let eight : turns r o ≡ 8 = omega arith in
      let two : turns o r ≡ 2 = omega arith in
      let first =
        subst
          (λ n.
            Answers (read_files searcher (suc num_files) files r o k s) (chain files (down n r) k))
          eight
          (read_files-chain (suc num_files) r o s h (omega arith) (omega (arith, eight)) sound) in
      let second = λ (s' : searcher.State) (sound' : searcher.IsSound s').
        subst
          (λ n.
            Answers (read_files searcher (suc num_files) files o r k s') (chain files (down n o) k))
          two
          (read_files-chain (suc num_files) o r s' (omega arith) h (omega (arith, two)) sound') in
      let at : below 8 r ≡ o = unfold below in omega arith in
      let all : down num_files r ≡ down 8 r ++ down 2 o =
        down-add 8 2 r h ∙ ap (λ i. down 8 r ++ down 2 i) at in
      subst (λ a. Answers (read_levels searcher files r k s) a)
        (sym (ap (λ is. chain files is k) all ∙ chain-append files (down 8 r) (down 2 o) k))
        (two_rounds r s (chain files (down 8 r) k) first second)
