-- ===== src/Merge.antt =====
-- `merge_files` of include/Core/Merge.hpp: two level files into one, the newer entry of a key first
-- and the tombstones left out.
pub mod Reference
pub mod Loop
pub mod Files
mod Tests
use cs.Prelude.{
  ◌>>=◌, ℕ, zero, suc, ◌+◌, Bool, true, false, List, [], ◌∷◌, ◌++◌, Option, none, some,
  if◌then◌else◌, ◌||◌,
}
use cs.Order.{Ord, ◌<?◌}
use cs.Layout.{Layout, is_tomb}
use cs.Level.{Level, blank, level, entries_of}

-- An open file, past its first block: the entries not yet read, and whether `feof` holds.
pub record Stream {ℓ κ} (K : Type ℓ) (V : Type κ) : Type (ℓ ⊔ κ) where
  pub rest : List (K × V)
  pub eof : Bool

-- The two inputs with the entry read last from each, and what was written.
pub record Merging {ℓ κ} (K : Type ℓ) (V : Type κ) : Type (ℓ ⊔ κ) where
  pub oldest1 : Stream K V
  pub oldest2 : Stream K V
  pub entry1 : K × V
  pub entry2 : K × V
  pub newfd : List (K × V)

module _ {ℓ κ} {K : Type ℓ} {V : Type κ} where
  -- The two calls of `fread` for the key and the value of an entry: at the end of the file they set
  -- `feof` and leave the variables.
  unfoldable pub advance : Stream K V → Stream K V
  advance s = elim s.rest [ [] ↦ record s { eof = true } | _ ∷ es ↦ record s { rest = es } ]

  unfoldable pub fetched : Stream K V → K × V → K × V
  fetched s e = elim s.rest [ [] ↦ e | x ∷ _ ↦ x ]

  unfoldable pub read1 : Merging K V → Merging K V
  unfolding advance fetched
  read1 m = record m { oldest1 = advance m.oldest1; entry1 = fetched m.oldest1 m.entry1 }

  unfoldable pub read2 : Merging K V → Merging K V
  unfolding advance fetched
  read2 m = record m { oldest2 = advance m.oldest2; entry2 = fetched m.oldest2 m.entry2 }

  -- The first read of a file, of its first block; in a file of no bytes it sets `feof` and leaves
  -- the buffer, here `unset`.
  unfoldable pub read_stamp : List ℕ → Level K V → List ℕ × Stream K V
  read_stamp unset blank = (unset, record { rest = []; eof = true })
  read_stamp unset (level stamp es) = (stamp, record { rest = es; eof = false })

module _ {ℓ κ} {K : Type ℓ} {V : Type κ} ⦃w : Layout V⦄ where
  -- `if(!isTomb(&v)) { fwrite(&k); fwrite(&v); }`
  unfoldable pub emit : K × V → Merging K V → Merging K V
  emit e m = if is_tomb e.1 then m else record m { newfd = m.newfd ++ e ∷ [] }

  -- The loops that copy what is left of one file.
  unfoldable pub drain1 : ℕ → Merging K V → Option (Merging K V)
  unfolding emit read1
  drain1 zero m = none
  drain1 (suc f) m =
      let more = drain1 f (read1 (emit m.entry1 m)) in if m.oldest1.eof then some m else more

  unfoldable pub drain2 : ℕ → Merging K V → Option (Merging K V)
  unfolding emit read2
  drain2 zero m = none
  drain2 (suc f) m =
      let more = drain2 f (read2 (emit m.entry2 m)) in if m.oldest2.eof then some m else more

  -- The copies of what is left of the one file and of the other.
  unfoldable pub drain : ℕ → Merging K V → Option (Merging K V)
  unfolding drain1 drain2
  drain f m = do a ← drain1 f m; drain2 f a

  module _ ⦃o : Ord K⦄ where
    -- One turn of the loop over both files.
    unfoldable pub turn : Merging K V → Merging K V
    unfolding emit read1 read2
    turn m =
        if m.entry1.0 <? m.entry2.0
        then read1 (emit m.entry1 m)
        else if m.entry2.0 <? m.entry1.0
        then read2 (emit m.entry2 m)
        else read2 (read1 (emit m.entry2 m))

    unfoldable pub both : ℕ → Merging K V → Option (Merging K V)
    unfolding turn
    both zero m = none
    both (suc f) m =
        let m' = turn m in
        let more = both f m' in
        if m'.oldest1.eof then some m' else if m'.oldest2.eof then some m' else more

    -- The body of `if(!feof(oldest1) && !feof(oldest2))`.
    unfoldable pub joint : ℕ → Merging K V → Option (Merging K V)
    unfolding both drain
    joint f m = do a ← both f m; drain f a

    -- From the `if` on; the copies stand once more after it.
    unfoldable pub merge_rest : ℕ → Merging K V → Option (Merging K V)
    unfolding joint drain
    merge_rest f m = do a ← if m.oldest1.eof || m.oldest2.eof then some m else joint f m; drain f a

    -- `merge_files(oldest2, oldest1, newfd)`: the new file. `unset` stands for the bytes of the local
    -- variables that no one sets.
    unfoldable pub merge_files : ℕ → List ℕ → K × V → Level K V → Level K V → Option (Level K V)
    unfolding read_stamp read1 read2 merge_rest
    merge_files f unset unset_entry file2 file1 =
        let (_, s1) = read_stamp unset file1 in
        let (stamp2, s2) = read_stamp unset file2 in
        let start : Merging K V = record {
          oldest1 = s1;
          oldest2 = s2;
          entry1 = unset_entry;
          entry2 = unset_entry;
          newfd = [];
        } in
        merge_rest f (read2 (read1 start)) >>= λ m. some (level stamp2 m.newfd)
