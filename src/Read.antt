-- ===== src/Read.antt =====
-- `findEntry` of include/Core/Read.hpp: binary search for a key in a level file, through the reads of
-- a pager.
pub mod Slots
pub mod Search
pub mod Paged
pub mod Searcher
mod Tests
use cs.Prelude.{
  ◌>>=◌, ℕ, zero, suc, ◌+◌, ◌-◌, ◌*◌, ◌/◌, ◌%◌, ◌<◌, ◌≤◌, Bool, true, false, ◌≡◌, List, Option,
  none, some, if◌then◌else◌, ltb, length,
}
use cs.Order.{Ord, ◌<?◌}
use cs.FileIo.{copy}
use cs.FileIo.Reads.{at_byte}

-- What `findEntry` uses of `FileIO`: `fread(size, count, offset, handle)` on a state of buffers, and
-- `fsize`. The law is asked of ranges that lie in the file and in one block of `block_size` bytes.
pub record Pager : Type 1 where
  pub State : Type 0
  pub block_size : ℕ
  pub contents : ℕ → List ℕ
  pub IsSound : State → Type 0
  pub fread : ℕ → ℕ → ℕ → ℕ → State → Option (List ℕ × ℕ × State)
  pub fread_bytes :
      (size count offset fd : ℕ) (s : State)
      → IsSound s
      → offset % block_size + count * size ≤ block_size
      → offset + count * size ≤ length (contents fd)
      → (returned : ℕ) × (s' : State) × (fread size count offset fd s
          ≡ some (copy (at_byte (contents fd)) offset (count * size), returned, s'))
        × IsSound s'

-- The memory images of the key and the value type: how many bytes, and the object that they make.
pub record Image {ℓ} (A : Type ℓ) : Type ℓ where
  pub size_of : ℕ
  pub of_bytes : List ℕ → A

module _ {ℓ κ} {K : Type ℓ} {V : Type κ} ⦃o : Ord K⦄ (p : Pager) (ik : Image K) (iv : Image V) where
  abbrev pub entry_size : ℕ
  entry_size = ik.size_of + iv.size_of

  -- `fread(&entryKey, sz_k, 1, mid * entrySize, fileHandle)`
  unfoldable pub read_key : ℕ → ℕ → p.State → Option (K × p.State)
  read_key mid fd s = do
    (bytes, _, s') ← p.fread ik.size_of 1 (mid * entry_size) fd s
    let entry : K × p.State = (ik.of_bytes bytes, s')
    some entry

  -- `fread(&value, sz_v, 1, mid * entrySize + sz_k, fileHandle)`, and `return true`.
  unfoldable pub read_value : ℕ → ℕ → p.State → Option (Option V × p.State)
  read_value mid fd s = do
    (bytes, _, s') ← p.fread iv.size_of 1 (mid * entry_size + ik.size_of) fd s
    let found : Option V × p.State = (some (iv.of_bytes bytes), s')
    some found

  -- The `while` loop. `high` is one more than in the source, where it may be -1: `low <= high` is
  -- `low < high` here, `(low + high) / 2` is `(low + high - 1) / 2`, and `high = mid - 1` is
  -- `high = mid`. The outer `none` is a fault of a read or the end of the fuel; the inner one is
  -- `false`.
  unfoldable pub search_loop : ℕ → ℕ → ℕ → ℕ → K → p.State → Option (Option V × p.State)
  unfolding read_key read_value
  search_loop zero low high fd key s = none
  search_loop (suc f) low high fd key s =
      let mid = (low + high - 1) / 2 in
      let body : Option (Option V × p.State) = (do
        (entry_key, s') ← read_key mid fd s
        elim (entry_key <? key) [
          | true ↦ search_loop f (mid + 1) high fd key s'
          | false ↦ elim (key <? entry_key) [
            | true ↦ search_loop f low mid fd key s'
            | false ↦ read_value mid fd s'
          ]
        ]) in
      if ltb low high then body else some (none, s)

  -- `findEntry(fileHandle, key, value)`, with one turn for each entry and one more as fuel.
  unfoldable pub find_entry : ℕ → K → p.State → Option (Option V × p.State)
  unfolding search_loop
  find_entry fd key s =
      let high = length (p.contents fd) / entry_size in search_loop (suc high) 1 high fd key s
