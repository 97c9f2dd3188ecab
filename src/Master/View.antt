-- ===== src/Master/View.antt =====
-- The map that the store of master.hpp stands for, and the invariant of its state.
use cs.Prelude.{ℕ, ◌<◌, true, ◌≡◌, Option, some}
use cs.Assoc.Each.{EachNode}
use cs.Read.Paged.{EntryInRange}
use cs.Read.Searcher.{IsStored}
use cs.Assoc.{or_else}
use cs.Key.{Key, Value}
use cs.Key.Laws.{words_ord}
use cs.BinaryTree.Methods
use cs.BinaryTree.Methods.{get}
use cs.Bloom.{get_key}
use cs.Bloom.Membership
use cs.Master.{Master, Table, num_files, get_reserve}
use cs.Master.Rounds.{down, chain}

-- A valid tree of entries whose words have 64 bits.
abbrev pub IsValidTable : Table → Type 0
IsValidTable t = Methods.IsValid t × EachNode EntryInRange t.root

-- The value of a key: that of the table, or else of the reserve, or else of the most recent level
-- file that has the key.
abbrev pub stored : Key → Master → Option Value
stored k m =
    or_else (get k m.bintree)
      (or_else (get_reserve k m.reserve) (chain m.filesys (down num_files m.recent) k))

-- The tables are valid, the level files sorted and of whole blocks, and the filter knows every key that has a value.
pub record IsValid (m : Master) : Type 0 where
  pub table : IsValidTable m.bintree
  pub handed_over : (t : Table) → m.reserve ≡ some t → IsValidTable t
  pub files : (i : ℕ) → IsStored (m.filesys i)
  pub in_ring : m.recent < num_files
  pub filter : Membership.IsValid m.bloom
  pub known : (k : Key) {v : Value} → stored k m ≡ some v → get_key k m.bloom ≡ some true
