-- ===== src/Level.antt =====
-- The level files `file0` .. `file9`: a block of `sizeof(K) + sizeof(V)` bytes that begins with a
-- time stamp, then whole entries. `fs.cpp` makes them by a dump of an empty tree.
use cs.Prelude.{ℕ, ◌-◌, List, [], ◌++◌, replicate, length}

-- A file of no bytes, or the first block and the entries after it.
pub data Level {ℓ κ} (K : Type ℓ) (V : Type κ) : Type (ℓ ⊔ κ) where
  blank : Level K V
  level : List ℕ → List (K × V) → Level K V

abbrev pub entries_of {ℓ κ} : {K : Type ℓ} {V : Type κ} → Level K V → List (K × V)
entries_of blank = []
entries_of (level stamp es) = es

-- The `time_str` of `dump`: the text of `strftime`, and the digit '0' up to the length of an entry.
abbrev pub stamp_block : ℕ → List ℕ → List ℕ
stamp_block size time = time ++ replicate (size - length time) b'0'
