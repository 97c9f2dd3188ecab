-- ===== src/BinaryTree/LogFile.antt =====
-- The log file behind a tree of include/RBTree/rbtree.hpp: `setLogFile`, `log_action` and the destructor
-- on a file system, with names and the stream that `logfile` points to.
pub mod Streams
use cs.Prelude.{
  ◌>>=◌, ℕ, Bool, true, false, ◌≡◌, ◌≢◌, refl, ap, sym, ◌∙◌, List, [], ◌∷◌, ◌++◌, Option, none,
  some, ◌==◌, ◌&&◌, arith, if◌then◌else◌, Bool-cases, inl, inr,
}
use mathlib.Core.Path.{subst}
use cs.BinaryTree.{LogEntry, append_log}

-- A name, as the bytes of the string.
abbrev pub Name : Type 0
Name = List ℕ

abbrev pub same_name : Name → Name → Bool
same_name [] [] = true
same_name [] (b ∷ n) = false
same_name (a ∷ m) [] = false
same_name (a ∷ m) (b ∷ n) = (a == b) && same_name m n

-- What `logfile` points to; a stream stays where it was after `fclose`, and is of no more use.
pub data Stream : Type 0 where
  null closed : Stream
  opened : Name → Stream

abbrev pub name_of : Stream → Name
name_of null = []
name_of closed = []
name_of (opened n) = n

-- The logs in the file system.
abbrev pub Files {ℓ κ} : (K : Type ℓ) (V : Type κ) → Type (ℓ ⊔ κ)
Files K V = Name → Option (List (LogEntry K V))

module _ {ℓ κ} {K : Type ℓ} {V : Type κ} where
  abbrev pub write_to : Name → List (LogEntry K V) → Files K V → Files K V
  write_to n log disk m = if same_name m n then some log else disk m

-- The fields of the tree that name its log, and the files.
pub record Log {ℓ κ} (K : Type ℓ) (V : Type κ) : Type (ℓ ⊔ κ) where
  pub logfilename : Name
  pub logfile : Stream
  pub disk : Files K V

module _ {ℓ κ} {K : Type ℓ} {V : Type κ} where
  -- `fclose(logfile)`; a stream that is closed already is a fault.
  unfoldable pub fclose : Stream → Log K V → Option (Log K V)
  fclose null s = some s
  fclose closed s = none
  fclose (opened n) s = some (record s { logfile = closed })

  -- `fopen(name, "wb")`, which empties the file.
  unfoldable pub fopen : Name → Log K V → Log K V
  fopen name s = record s { logfile = opened name; disk = write_to name [] s.disk }

  -- `setLogFile(name)`
  unfoldable pub set_log_file : Name → Log K V → Option (Log K V)
  unfolding fclose fopen
  set_log_file name s = do
    s' ← fclose s.logfile (record s { logfilename = name })
    if same_name name [] then some s' else some (fopen name s')

  -- `log_action`: the entry goes to the end of the open file.
  unfoldable pub write_stream : Stream → LogEntry K V → Log K V → Option (Log K V)
  write_stream null e s = some s
  write_stream closed e s = none
  write_stream (opened n) e s = do
    log ← s.disk n
    some (record s { disk = write_to n (log ++ e ∷ []) s.disk })

  abbrev pub write_log : LogEntry K V → Log K V → Option (Log K V)
  write_log e s = write_stream s.logfile e s

  -- The constructors: no log, or one that `setLogFile` opens.
  abbrev pub no_log : Files K V → Log K V
  no_log disk = record { logfilename = []; logfile = null; disk = disk }

-- What the other modules take for the log of a tree: the entries of the file that is open.
pub data Holds {ℓ κ} {K : Type ℓ} {V : Type κ} (s : Log K V)
    : Option (List (LogEntry K V)) → Type (ℓ ⊔ κ) where
  unlogged : s.logfile ≡ null → Holds s none
  logged :
      {es : List (LogEntry K V)}
      → s.logfile ≡ opened s.logfilename
      → s.disk s.logfilename ≡ some es
      → Holds s (some es)

module _ {ℓ κ} {K : Type ℓ} {V : Type κ} where
  -- How `fromFile` comes to its log: where the name is that of the open log, the tree goes on in the file
  -- `spare` first. `none` is the exit on a file that is not there.
  unfoldable pub read_backup : Name → Name → Log K V → Option (Log K V × List (LogEntry K V))
  unfolding set_log_file
  read_backup fname spare s = do
    s' ← if same_name fname s.logfilename then set_log_file spare s else some s
    log ← s'.disk fname
    some (s', log)
