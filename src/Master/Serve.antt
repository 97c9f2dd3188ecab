-- ===== src/Master/Serve.antt =====
-- `serve` of master.cpp: the lines of a batch file, and what is written for each.
pub mod Objects
pub mod Lines
pub mod Answers
pub mod Threads
pub mod Outputs
pub mod Run
mod Tests
use cs.Prelude.{
  ◌>>=◌, ℕ, zero, suc, ◌+◌, ◌-◌, Bool, true, false, List, [], ◌∷◌, ◌++◌, Option, none, some, ltb,
  leb, ◌==◌, if◌then◌else◌, length, get_or, take, drop,
}
use mathlib.Core.Option
use cs.Key.{Words, Key, Value}
use cs.Key.Bytes.{bytes_of, of_bytes}
use cs.Read.Searcher.{Searcher}
use cs.Master.{Master, dbread, dbwrite, must_swap, swap}

-- A byte in front of the first line.
abbrev pub in_front : ℕ → List (List ℕ) → List (List ℕ)
in_front c [] = (c ∷ []) ∷ []
in_front c (l ∷ ls) = (c ∷ l) ∷ ls

-- What the calls of `getline` take from a file, one after the other: a line ends at the byte 10, which is
-- dropped, and the last one may end with the file.
unfoldable pub get_lines : List ℕ → List (List ℕ)
get_lines [] = []
get_lines (c ∷ cs) = let rest = get_lines cs in if c == 10 then [] ∷ rest else in_front c rest

-- `find` of a string, with `none` for `npos`.
unfoldable pub find_byte : ℕ → List ℕ → Option ℕ
find_byte b [] = none
find_byte b (c ∷ cs) = if c == b then some 0 else Option.map suc (find_byte b cs)

-- A number added to what `find` gave; `npos` is -1.
abbrev pub behind : ℕ → Option ℕ → ℕ
behind n none = n - 1
behind n (some i) = i + n

-- `substr(pos, n)`; `none` is `out_of_range`.
unfoldable pub substr : ℕ → ℕ → List ℕ → Option (List ℕ)
substr pos n a = if ltb (length a) pos then none else some (take n (drop pos a))

-- `*(K *)y.c_str()`: 64 bytes of the string and the zero behind it; `none` is a read behind that.
unfoldable pub object : List ℕ → Option (Words 8)
object y = if leb 63 (length y) then some (of_bytes 8 (y ++ 0 ∷ [])) else none

pub data Line : Type 0 where
  read_line : Key → Line
  write_line : Key → Value → Line
  other_line : Line

-- What `serve` takes from a line.
unfoldable pub parse : List ℕ → Option Line
unfolding find_byte substr object
parse a =
    let read : Option Line = (do
      y ← substr (behind 1 (find_byte b' ' a)) 64 a
      k ← object y
      some (read_line k)) in
    let write : Option Line = (do
      y ← substr (behind 2 (find_byte b'w' a)) 64 a
      z ← substr (behind 2 (find_byte b',' a)) 64 a
      k ← object y
      v ← object z
      some (write_line k v)) in
    if get_or a 0 0 == b'r' then read else if get_or a 0 0 == b'w' then write else some other_line

-- `f2 << out1` of the bytes of a value: up to the first zero.
unfoldable pub c_string : List ℕ → List ℕ
c_string [] = []
c_string (b ∷ bs) = if b == 0 then [] else b ∷ c_string bs

-- What is written for a read.
abbrev pub answer_text : Option Value → List ℕ
answer_text none =
    b'K' ∷ b'e' ∷ b'y' ∷ b' ' ∷ b'N' ∷ b'o' ∷ b't' ∷ b' ' ∷ b'F' ∷ b'o' ∷ b'u' ∷ b'n' ∷ b'd' ∷ b'!'
    ∷ 10 ∷ []
answer_text (some v) = c_string (bytes_of 8 v) ++ 10 ∷ []

-- The test and the hand-over after each line; the thread that it starts runs `adjust`.
unfoldable pub after_line : Master → Master
after_line m = if must_swap m then swap m else m

-- The body of the loop of `serve`: the output, the store and the buffers.
unfoldable pub serve_line :
    (searcher : Searcher)
    → List ℕ
    → Master
    → searcher.State
    → Option (List ℕ × Master × searcher.State)
unfolding parse after_line
serve_line searcher a m s = do
  line ← parse a
  elim line [
    | read_line k ↦ do
      (found, s') ← dbread searcher k m s
      let done : List ℕ × Master × searcher.State = (answer_text found, after_line m, s')
      some done
    | write_line k v ↦ do
      m' ← dbwrite k v m
      let done : List ℕ × Master × searcher.State = ([], after_line m', s)
      some done
    | other_line ↦ some ([], after_line m, s)
  ]
