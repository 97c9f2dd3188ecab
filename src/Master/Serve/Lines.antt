-- ===== src/Master/Serve/Lines.antt =====
-- The lines that `serve` of master.cpp reads back as they were written.
use cs.Prelude.{
  ◌>>=◌, ℕ, zero, suc, ◌+◌, false, ◌≡◌, refl, ap, ap₂, sym, ◌∙◌, List, [], ◌∷◌, ◌++◌, Option, none,
  some, ltb, ◌==◌, get_or, length, length-append, take, drop, arith, inl, inr, Option-cases,
}
use mathlib.Core.Option
use mathlib.Core.List.{append_assoc}
use cs.Key.{Key, Words}
use cs.Key.Bytes.{bytes_of, InRange, length-bytes_of, of_bytes-bytes_of}
use cs.Master.Serve.{
  find_byte, get_lines, behind, substr, object, Line, read_line, write_line, other_line, parse,
}

drop-length : (xs ys : List ℕ) (n : ℕ) → n ≡ length xs → drop n (xs ++ ys) ≡ ys
drop-length [] ys zero h = refl
drop-length [] ys (suc n) h = absurd (omega arith)
drop-length (x ∷ xs) ys zero h = absurd (omega arith)
drop-length (x ∷ xs) ys (suc n) h = drop-length xs ys n (omega arith)

take_front : (xs ys : List ℕ) (n : ℕ) → n ≡ length xs → take n (xs ++ ys) ≡ xs
take_front [] ys zero h = refl
take_front [] ys (suc n) h = absurd (omega arith)
take_front (x ∷ xs) ys zero h = absurd (omega arith)
take_front (x ∷ xs) ys (suc n) h = ap (◌∷◌ x) (take_front xs ys n (omega arith))

substr_behind :
    (xs ys : List ℕ) (pos n : ℕ) → pos ≡ length xs → substr pos n (xs ++ ys) ≡ some (take n ys)
unfolding substr
substr_behind xs ys pos n h =
    let fits : ltb (length (xs ++ ys)) pos ≡ false = ground (arith, length-append xs ys) in
    rw (fits, substr) (ap (λ l. some (take n l)) (drop-length xs ys pos h))

-- A string that stands in another.
substr_of :
    (xs ys zs : List ℕ) (pos n : ℕ)
    → pos ≡ length xs
    → n ≡ length ys
    → substr pos n (xs ++ (ys ++ zs)) ≡ some ys
substr_of xs ys zs pos n h g = substr_behind xs (ys ++ zs) pos n h ∙ ap some (take_front ys zs n g)

find_byte-append :
    (b : ℕ) (xs ys : List ℕ) → find_byte b xs ≡ none → find_byte b (xs ++ b ∷ ys) ≡ some (length xs)
unfolding find_byte
find_byte-append b [] ys h = ground arith
find_byte-append b (x ∷ xs) ys h = elim (Option-cases (find_byte b xs)) [
  | inl e ↦ ground (arith, find_byte-append b xs ys e)
  | inr (i, e) ↦ ground arith
]

object-bytes_of : (ws : Words 8) → InRange 8 ws → object (bytes_of 8 ws) ≡ some ws
unfolding object
object-bytes_of ws r = ap some (of_bytes-bytes_of 8 ws (0 ∷ []) r)

-- The text of a line, with what stands behind it: data/datagen.py ends lines
-- with `;`.
abbrev pub text : Line → List ℕ → List ℕ
text (read_line k) e = (b'r' ∷ b' ' ∷ []) ++ (bytes_of 8 k ++ e)
text (write_line k v) e = (b'w' ∷ b' ' ∷ []) ++ (bytes_of 8 k ++ b',' ∷ b' ' ∷ (bytes_of 8 v ++ e))
text other_line e = e

-- The words have 64 bits, no byte of the key of a write is a comma, and a line that is neither a read
-- nor a write starts as neither.
abbrev pub IsPrintable : Line → List ℕ → Type 0
IsPrintable (read_line k) e = InRange 8 k
IsPrintable (write_line k v) e = InRange 8 k × InRange 8 v × (find_byte b',' (bytes_of 8 k) ≡ none)
IsPrintable other_line e = ((get_or e 0 0 == b'r') ≡ false) × ((get_or e 0 0 == b'w') ≡ false)

-- What `parse` makes of the two strings of a write.
abbrev both_objects : Option (List ℕ) → Option (List ℕ) → Option Line
both_objects y? z? =
    y? >>= λ y. z? >>= λ z. object y >>= λ k. object z >>= λ v. some (write_line k v)

abbrev one_object : Option (List ℕ) → Option Line
one_object y? = y? >>= λ y. object y >>= λ k. some (read_line k)

comma_at :
    (y z : List ℕ)
    → find_byte b',' y ≡ none
    → find_byte b',' (b'w' ∷ b' ' ∷ (y ++ b',' ∷ z)) ≡ some (suc (suc (length y)))
unfolding find_byte
comma_at y z h = ap (λ r. Option.map suc (Option.map suc r)) (find_byte-append b',' y z h)

parse-write_line :
    (y z e : List ℕ) {k v : Key}
    → find_byte b',' y ≡ none
    → length y ≡ 64
    → length z ≡ 64
    → object y ≡ some k
    → object z ≡ some v
    → parse ((b'w' ∷ b' ' ∷ []) ++ (y ++ b',' ∷ b' ' ∷ (z ++ e))) ≡ some (write_line k v)
unfolding parse find_byte
parse-write_line y z e h ly lz ok ov =
    let a = (b'w' ∷ b' ' ∷ []) ++ (y ++ b',' ∷ b' ' ∷ (z ++ e)) in
    let front = (b'w' ∷ b' ' ∷ []) ++ (y ++ b',' ∷ b' ' ∷ []) in
    let split : a ≡ front ++ (z ++ e) =
      ap (λ l. b'w' ∷ b' ' ∷ l) (sym (append_assoc y (b',' ∷ b' ' ∷ []) (z ++ e))) in
    let first : substr 2 64 a ≡ some y =
      substr_of (b'w' ∷ b' ' ∷ []) y (b',' ∷ b' ' ∷ (z ++ e)) 2 64 refl (sym ly) in
    let second : substr (behind 2 (find_byte b',' a)) 64 a ≡ some z =
      ap (λ i. substr (behind 2 i) 64 a) (comma_at y (b' ' ∷ (z ++ e)) h)
      ∙ ap (substr (suc (suc (length y)) + 2) 64) split
      ∙ substr_of front z e (suc (suc (length y)) + 2) 64
          (omega (arith, length-append y (b',' ∷ b' ' ∷ []))) (sym lz) in
    ap₂ both_objects first second ∙ rw (ok, ov)

parse-read_line :
    (y e : List ℕ) {k : Key}
    → length y ≡ 64
    → object y ≡ some k
    → parse ((b'r' ∷ b' ' ∷ []) ++ (y ++ e)) ≡ some (read_line k)
unfolding parse find_byte
parse-read_line y e ly ok =
    ap one_object (substr_of (b'r' ∷ b' ' ∷ []) y e 2 64 refl (sym ly)) ∙ rw ok

-- A line is read back as it was written.
pub parse-text : (l : Line) (e : List ℕ) → IsPrintable l e → parse (text l e) ≡ some l
parse-text (read_line k) e r =
    parse-read_line (bytes_of 8 k) e (length-bytes_of 8 k) (object-bytes_of k r)
parse-text (write_line k v) e (rk, rv, no_comma) =
    parse-write_line (bytes_of 8 k) (bytes_of 8 v) e no_comma (length-bytes_of 8 k)
      (length-bytes_of 8 v) (object-bytes_of k rk) (object-bytes_of v rv)
parse-text other_line e (not_r, not_w) = unfold parse in rw (not_r, not_w) refl

get_lines-append :
    (a cs : List ℕ) → find_byte 10 a ≡ none → get_lines (a ++ 10 ∷ cs) ≡ a ∷ get_lines cs
unfolding get_lines find_byte
get_lines-append [] cs h = refl
get_lines-append (x ∷ xs) cs h = elim (Option-cases (find_byte 10 xs)) [
  | inl e ↦ ground (arith, get_lines-append xs cs e)
  | inr (i, e) ↦ ground arith
]

-- A batch file: each line with what stands behind it, and the byte 10.
abbrev pub file_text : List (Line × List ℕ) → List ℕ
file_text [] = []
file_text ((l, e) ∷ ls) = text l e ++ 10 ∷ file_text ls

abbrev pub AllPrintable : List (Line × List ℕ) → Type 0
AllPrintable [] = Unit {0}
AllPrintable ((l, e) ∷ ls) = IsPrintable l e × (find_byte 10 (text l e) ≡ none) × AllPrintable ls

abbrev pub lines_of : List (Line × List ℕ) → List Line
lines_of [] = []
lines_of ((l, e) ∷ ls) = l ∷ lines_of ls

-- What `serve` takes from the lines of a file.
abbrev pub parse_all : List (List ℕ) → Option (List Line)
parse_all [] = some []
parse_all (a ∷ more) = do l ← parse a; ls ← parse_all more; some (l ∷ ls)

-- A batch file is read back by `getline` and the cuts of `serve` as the lines that were written, whatever
-- stands behind the key of a read and the value of a write, such as `;`. The words have 64 bits, no byte
-- of the key of a write is a comma, no byte of a line is 10, and the other lines start with neither `r`
-- nor `w`.
pub parse_all-file_text :
    (ls : List (Line × List ℕ))
    → AllPrintable ls
    → parse_all (get_lines (file_text ls)) ≡ some (lines_of ls)
parse_all-file_text [] h = unfold get_lines in refl
parse_all-file_text ((l, e) ∷ ls) (printable, one_line, h) =
    ap parse_all (get_lines-append (text l e) (file_text ls) one_line)
    ∙ rw (parse-text l e printable, parse_all-file_text ls h)
