-- ===== src/BinaryTree/LogFile/Streams.antt =====
-- What `setLogFile`, `log_action` and `fromFile` of include/RBTree/rbtree.hpp do to the log that is open.
use cs.Prelude.{
  ◌>>=◌, true, false, ◌≡◌, ◌≢◌, refl, ap, sym, ◌∙◌, List, [], ◌∷◌, ◌++◌, Option, none, some, arith,
  if◌then◌else◌, Bool-cases, inl, inr,
}
use mathlib.Core.Path.{subst}
use cs.BinaryTree.{LogEntry, append_log}
use cs.BinaryTree.LogFile.{
  Name, same_name, null, closed, opened, name_of, Files, write_to, Log, Holds, unlogged, logged,
  fclose, fopen, set_log_file, write_stream, write_log, read_backup,
}

pub same_name_refl : (n : Name) → same_name n n ≡ true
same_name_refl [] = refl
same_name_refl (a ∷ n) = ground (arith, same_name_refl n)

pub name_of_same : (m n : Name) → same_name m n ≡ true → m ≡ n
name_of_same [] [] e = refl
name_of_same [] (b ∷ n) e = cc
name_of_same (a ∷ m) [] e = cc
name_of_same (a ∷ m) (b ∷ n) e = ground (arith, name_of_same m n)

module _ {ℓ κ} {K : Type ℓ} {V : Type κ} where
  -- The file of another name is as it was.
  abbrev pub OthersKept : Name → Log K V → Log K V → Type (ℓ ⊔ κ)
  OthersKept n s s' = (m : Name) → same_name m n ≡ false → s'.disk m ≡ s.disk m

  written_there :
      (n : Name) (es : List (LogEntry K V)) (disk : Files K V) → write_to n es disk n ≡ some es
  written_there n es disk = ap (λ t. if t then some es else disk n) (same_name_refl n)

  written_elsewhere :
      (n m : Name) (es : List (LogEntry K V)) (disk : Files K V)
      → same_name m n ≡ false
      → write_to n es disk m ≡ disk m
  written_elsewhere n m es disk ne = ap (λ t. if t then some es else disk m) ne

  fclose_run :
      (s r : Log K V) {log : Option (List (LogEntry K V))}
      → Holds s log
      → (s' : Log K V) × (fclose s.logfile r ≡ some s')
        × (s'.disk ≡ r.disk)
        × (s'.logfilename ≡ r.logfilename)
  unfolding fclose
  fclose_run s r (unlogged e) = (r, ap (λ x. fclose x r) e, refl, refl)
  fclose_run s r (logged e there) =
      (record r { logfile = closed }, ap (λ x. fclose x r) e, refl, refl)

  -- On a log that is null or open `setLogFile` with a name leaves the named file open and empty, and every
  -- other file as it was.
  pub set_log_file-Holds :
      (name : Name) (s : Log K V) {log : Option (List (LogEntry K V))}
      → same_name name [] ≡ false
      → Holds s log
      → (s' : Log K V) × (set_log_file name s ≡ some s')
        × Holds s' (some [])
        × (s'.logfile ≡ opened name)
        × (s'.disk name ≡ some [])
        × OthersKept name s s'
  unfolding set_log_file fopen
  set_log_file-Holds name s named holds =
      let (s1, ran, disk1, name1) = fclose_run s (record s { logfilename = name }) holds in
      (
        fopen name s1,
        rw (ran, set_log_file) (rw named refl),
        logged (ap opened (sym name1))
            (ap (write_to name [] s1.disk) name1 ∙ written_there name [] s1.disk),
        refl,
        written_there name [] s1.disk,
        λ m other. written_elsewhere name m [] s1.disk other ∙ ap (λ f. f m) disk1,
      )

  -- `log_action` on a log that is null or open is an append to its entries, and leaves every other file.
  pub write_log-append_log :
      (e : LogEntry K V) (s : Log K V) {log : Option (List (LogEntry K V))}
      → Holds s log
      → (s' : Log K V) × (write_log e s ≡ some s')
        × Holds s' (append_log log e)
        × ((m : Name) → s.logfile ≢ opened m → s'.disk m ≡ s.disk m)
  unfolding write_stream append_log
  write_log-append_log e s (unlogged at) =
      (s, ap (λ x. write_stream x e s) at, unlogged at, λ m ne. refl)
  write_log-append_log e s (logged {es} at there) = (
    record s { disk = write_to s.logfilename (es ++ e ∷ []) s.disk },
    ap (λ x. write_stream x e s) at ∙ rw there refl,
    logged at (written_there s.logfilename (es ++ e ∷ []) s.disk),
    λ m ne. elim (Bool-cases (same_name m s.logfilename)) [
      | inl is_n ↦ absurd (ne (at ∙ ap opened (sym (name_of_same m s.logfilename is_n))))
      | inr other ↦ written_elsewhere s.logfilename m (es ++ e ∷ []) s.disk other
    ],
  )

  -- After `setLogFile("")` on an open log, as in the destructor, the stream is closed but not NULL: the
  -- next write to the log and the next `setLogFile` are faults.
  pub set_log_file_closed :
      (s : Log K V) (es : List (LogEntry K V))
      → Holds s (some es)
      → (s' : Log K V) × (set_log_file [] s ≡ some s')
        × (s'.disk ≡ s.disk)
        × ((e : LogEntry K V) → write_log e s' ≡ none)
        × ((name : Name) → set_log_file name s' ≡ none)
  unfolding set_log_file fclose write_stream
  set_log_file_closed s es (logged at there) = (
    record s { logfilename = []; logfile = closed },
    ap (λ x. fclose x (record s { logfilename = [] }) >>= λ s'. some s') at,
    refl,
    λ e. refl,
    λ name. refl,
  )

  not_open :
      (fname : Name) (s : Log K V) {log : Option (List (LogEntry K V))}
      → same_name fname s.logfilename ≡ false
      → Holds s log
      → s.logfile ≢ opened fname
  not_open fname s other (unlogged at) e = let clash : null ≡ opened fname = sym at ∙ e in cc
  not_open fname s other (logged at there) e =
      let clash : true ≡ false =
        sym (same_name_refl fname) ∙ ap (λ x. same_name fname (name_of x)) (sym e ∙ at) ∙ other in
      cc

  -- What `fromFile` reads is the whole log, also where it is the one that is open; and what the replay
  -- writes then goes to another file. The names are not empty, and `spare` is another one.
  pub read_backup-Holds :
      (fname spare : Name) (s : Log K V) {log : Option (List (LogEntry K V))}
      {es : List (LogEntry K V)}
      → same_name spare [] ≡ false
      → same_name fname spare ≡ false
      → Holds s log
      → s.disk fname ≡ some es
      → (s' : Log K V) × (read_backup fname spare s ≡ some (s', es))
        × Holds s' (if same_name fname s.logfilename then some [] else log)
        × (s'.logfile ≢ opened fname)
  unfolding read_backup
  read_backup-Holds fname spare s {log} {es} named other holds there =
      elim (Bool-cases (same_name fname s.logfilename)) [
        | inl own ↦
            let (s', ran, holds', at, here, kept) = set_log_file-Holds spare s named holds in
            let whole : s'.disk fname ≡ some es = kept fname other ∙ there in
            (
              s',
              rw (own, read_backup) (rw ran (rw whole refl)),
              subst (λ t. Holds s' (if t then some [] else log)) (sym own) holds',
              λ e.
                  let clash : true ≡ false =
                    sym (same_name_refl fname)
                    ∙ ap (λ x. same_name fname (name_of x)) (sym e ∙ at)
                    ∙ other in
                  cc,
            )
        | inr elsewhere ↦ (
          s,
          rw (elsewhere, read_backup) (rw there refl),
          subst (λ t. Holds s (if t then some [] else log)) (sym elsewhere) holds,
          not_open fname s elsewhere holds,
        )
      ]
