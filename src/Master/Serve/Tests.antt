-- ===== src/Master/Serve/Tests.antt =====
-- Lines of a batch file.
use cs.Prelude.{ℕ, ◌<◌, ◌^◌, ◌≡◌, ◌⊎◌, refl, List, [], ◌∷◌, none, some, arith}
use cs.Key.{Key}
use cs.Key.Bytes.{InRange}
use cs.Master.Serve.{
  find_byte, get_lines, Line, read_line, write_line, other_line, parse, serve_line,
}
use cs.Master.Serve.Objects.{IsBytes, all_bytes-IsBytes}
use cs.Master.Serve.Lines.{text, file_text, lines_of, AllPrintable, parse_all, parse_all-file_text}
use cs.Master.Serve.Answers.{Obeyed, serve_line-cases}
use cs.Master.Samples.{paged, unused, unused-IsIdle, store, store-IsValid}
use cs.Samples.{word_key, word_key-InRange}

abbrev line : Line
line = write_line (word_key 7) (word_key 70)

-- The 64 digits `a`, as a word each eight of them.
abbrev digits : Key
digits = (
  7016996765293437281,
  (
    7016996765293437281,
    (
      7016996765293437281,
      (
        7016996765293437281,
        (
          7016996765293437281,
          (7016996765293437281, (7016996765293437281, (7016996765293437281, tt))),
        ),
      ),
    ),
  ),
)

digits-InRange : InRange 8 digits
digits-InRange =
    let wide : 7016996765293437281 < 2 ^ 64 = omega arith in
    (wide, (wide, (wide, (wide, (wide, (wide, (wide, (wide, tt))))))))

-- As datagen.py writes lines: `;` behind a write, and behind some of the reads.
abbrev some_lines : List (Line × List ℕ)
some_lines =
    (write_line digits digits, b';' ∷ [])
    ∷ (read_line digits, b';' ∷ [])
    ∷ (read_line digits, [])
    ∷ (line, b';' ∷ [])
    ∷ (other_line, b'x' ∷ [])
    ∷ []

some_lines-AllPrintable : AllPrintable some_lines
unfolding find_byte
some_lines-AllPrintable =
    let all = digits-InRange in
    let others : AllPrintable ((other_line, b'x' ∷ []) ∷ []) = ((refl, refl), refl, tt) in
    let last : AllPrintable ((line, b';' ∷ []) ∷ (other_line, b'x' ∷ []) ∷ []) =
      ((word_key-InRange 7 (omega arith), word_key-InRange 70 (omega arith), refl), refl, others) in
    ((all, all, refl), refl, (all, refl, (all, refl, last)))

parse_all-file_text_example :
    parse_all (get_lines (file_text some_lines)) ≡ some (lines_of some_lines)
parse_all-file_text_example = parse_all-file_text some_lines some_lines-AllPrintable

-- The byte 10 of a key ends the line.
cut_key :
    get_lines (b'r' ∷ b' ' ∷ b'a' ∷ 10 ∷ b'b' ∷ []) ≡ (b'r' ∷ b' ' ∷ b'a' ∷ []) ∷ (b'b' ∷ []) ∷ []
unfolding get_lines
cut_key = refl

parse_other : parse (b'x' ∷ []) ≡ some other_line
unfolding parse
parse_other = refl

-- A line that is too short for the second string is refused by `substr`.
parse_short : parse (b'w' ∷ []) ≡ none
unfolding parse find_byte
parse_short = refl

abbrev line_text : List ℕ
line_text = text line (b';' ∷ [])

line_text-IsBytes : IsBytes line_text
line_text-IsBytes = all_bytes-IsBytes line_text refl

serve_line-cases_example :
    ((parse line_text ≡ none) × (serve_line paged line_text store unused ≡ none))
    ⊎ ((l : Line) × (parse line_text ≡ some l) × Obeyed paged l line_text store unused)
serve_line-cases_example =
    serve_line-cases paged line_text store unused line_text-IsBytes store-IsValid unused-IsIdle
