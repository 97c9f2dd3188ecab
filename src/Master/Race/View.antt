-- ===== src/Master/Race/View.antt =====
-- The map that the store of master.cpp stands for while `adjust` is on its way, and the invariant.
use cs.Prelude.{ℕ, ◌<◌, true, ◌≡◌, ap, sym, ◌∙◌, Option, some, arith, ◌⊎◌}
use cs.Assoc.{find, or_else}
use cs.Key.{Key, Value}
use cs.Key.Laws.{words_ord}
use cs.Level.{Level, entries_of}
use cs.BinaryTree.Methods.{get}
use cs.Bloom.{get_key}
use cs.Bloom.Membership
use cs.Read.Searcher.{IsStored}
use cs.Master.{Master, Table, num_files, update, get_reserve}
use cs.Master.Rounds.{down, below, chain, chain-append, down_all}
use cs.Master.View.{IsValidTable, stored}
use cs.Master.Kept.{or_else-none}
use cs.Master.Adjusted.{chain_agree}
use cs.Master.Race.{Job, idle, merging, dumping, World, second_oldest, oldest, put_file}

abbrev pub found : Key → Level Key Value → Option Value
found k f = find k (entries_of f)

-- What the two oldest files stand for: the copy counts and not the file that is overwritten.
abbrev pub tail_value : Key → Job → Master → Option Value
tail_value k idle m =
    or_else (found k (m.filesys (second_oldest m))) (found k (m.filesys (oldest m)))
tail_value k (merging copied) m = or_else (found k copied) (found k (m.filesys (oldest m)))
tail_value k dumping m = found k (m.filesys (second_oldest m))

abbrev pub eight_value : Key → Master → Option Value
eight_value k m = chain m.filesys (down 8 m.recent) k

-- The value of a key.
abbrev pub value_in : Key → World → Option Value
value_in k w = or_else (get k w.store.bintree) (
    or_else (get_reserve k w.store.reserve)
      (or_else (eight_value k w.store) (tail_value k w.job w.store)))

abbrev pub IsTail : Job → Master → Type 0
IsTail idle m = IsStored (m.filesys (second_oldest m)) × IsStored (m.filesys (oldest m))
IsTail (merging copied) m =
    IsStored copied × IsStored (m.filesys (oldest m)) × (t : Table) × (m.reserve ≡ some t)
IsTail dumping m = IsStored (m.filesys (second_oldest m)) × (t : Table) × (m.reserve ≡ some t)

pub record IsSound (w : World) : Type 0 where
  pub table : IsValidTable w.store.bintree
  pub handed_over : (t : Table) → w.store.reserve ≡ some t → IsValidTable t
  pub eight : (n : ℕ) → n < 8 → IsStored (w.store.filesys (below n w.store.recent))
  pub tail : IsTail w.job w.store
  pub in_ring : w.store.recent < num_files
  pub filter : Membership.IsValid w.store.bloom
  pub known : (k : Key) {v : Value} → value_in k w ≡ some v → get_key k w.store.bloom ≡ some true

-- With no merge on its way the map is that of the store.
pub value_in-idle :
    (k : Key) (m : Master)
    → m.recent < num_files
    → value_in k (record { store = m; job = idle }) ≡ stored k m
unfolding chain
value_in-idle k m h =
    ap (λ c. or_else (get k m.bintree) (or_else (get_reserve k m.reserve) c))
      (sym (
        ap (λ is. chain m.filesys is k) (down_all m.recent h)
        ∙ chain-append m.filesys (down 8 m.recent) _ k
        ∙ ap (λ b. or_else (eight_value k m) (or_else (found k (m.filesys (second_oldest m))) b))
            (or_else-none (found k (m.filesys (oldest m))))))

-- An overwritten file of the two oldest is none of the eight others.
pub put_file_eight :
    (m : Master) (i : ℕ) (f : Level Key Value) (n : ℕ)
    → m.recent < num_files
    → (i ≡ second_oldest m) ⊎ (i ≡ oldest m)
    → n < 8
    → (put_file i f m).filesys (below n m.recent) ≡ m.filesys (below n m.recent)
unfolding below
put_file_eight m i f n h at l = ground arith

pub put_file-eight_value :
    (k : Key) (m : Master) (i : ℕ) (f : Level Key Value)
    → m.recent < num_files
    → (i ≡ second_oldest m) ⊎ (i ≡ oldest m)
    → eight_value k (put_file i f m) ≡ eight_value k m
put_file-eight_value k m i f h at =
    chain_agree m.filesys (put_file i f m).filesys 8 m.recent k h
      (λ n l. put_file_eight m i f n h at l)

pub update_at : (files : ℕ → Level Key Value) (i : ℕ) (f : Level Key Value) → update files i f i ≡ f
update_at files i f = ground arith

pub put_second-oldest :
    (m : Master) (f : Level Key Value)
    → m.recent < num_files
    → (put_file (second_oldest m) f m).filesys (oldest m) ≡ m.filesys (oldest m)
put_second-oldest m f h = ground arith

pub put_oldest-second :
    (m : Master) (f : Level Key Value)
    → m.recent < num_files
    → (put_file (oldest m) f m).filesys (second_oldest m) ≡ m.filesys (second_oldest m)
put_oldest-second m f h = ground arith
