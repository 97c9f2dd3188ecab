-- ===== src/Setup/Tests.antt =====
-- The set-up program on a sample clock, then a run of the store.
use cs.Prelude.{
  ◌>>=◌, ap, sym, ◌∙◌, some_inj, ◌==◌, Bool-cases, inl, inr, ℕ, ◌≡◌, refl, List, [], ◌∷◌, Option,
  none, some, length, length-replicate, arith, if◌then◌else◌,
}
use mathlib.Core.Path.{subst}
use cs.Assoc.{find}
use cs.Key.{Key, Value}
use cs.Key.Laws.{words_ord}
use cs.Key.Bytes.{value_layout}
use cs.BinaryTree.{write}
use cs.FileIo.{Buffer}
use cs.Merge.Reference.{live_value}
use cs.Master.{Master, dbread, dbwrite}
use cs.Master.Boot.{Disk, Outside, boot}
use cs.Master.Reads.{dbwrite-stored}
use cs.Master.Steps.{Reach, writes}
use cs.Master.Steps
use cs.Master.View.{IsValid, stored}
use cs.Setup.{set_up}
use cs.Setup.Run.{IsSized, set_up-boot, fresh_store-Reach, main-Spec}
use cs.Layout.{is_tomb, all_tomb}
use cs.Master.Serve.{
  find_byte, get_lines, Line, read_line, write_line, other_line, parse, serve_line,
}
use cs.Master.Serve.Objects.{all_bytes-IsBytes}
use cs.Master.Serve.Lines.{text, IsPrintable, parse-text, file_text}
use cs.Master.Serve.Answers.{serve_line-Obeyed}
use cs.Master.Serve.Threads.{Program, run, main, served, Serial, start, serves}
use cs.Master.Serve.Outputs.{Spec, IsLive, AllGood}
use cs.Samples.{word_key, word_key-InRange, stamp}
use cs.Master.Samples.{paged, unused, unused-IsIdle}

-- The hour of each dump.
abbrev clock : ℕ → List ℕ
clock i = i ∷ []

abbrev dummy : Key × Value
dummy = (word_key 0, word_key 0)

abbrev outside : Outside
outside = record {
  time_of = length;
  clock = clock;
  dummy = dummy;
  block = stamp;
  entry = dummy;
  value = word_key 0;
  buff = record { act = write; key = word_key 0; value = word_key 0 };
}

outside-IsSized : IsSized outside
outside-IsSized = record {
  short = λ i. omega arith;
  whole = length-replicate {A = ℕ} 128 48;
  buffer = (word_key-InRange 0 (omega arith), word_key-InRange 0 (omega arith));
}

set_up-boot_example :
    (disk : Disk) × (m : Master) × (set_up clock dummy ≡ some disk)
    × (boot outside disk ≡ some m)
    × IsValid m
    × (m.reserve ≡ none)
    × ((k : Key) → stored k m ≡ none)
set_up-boot_example = set_up-boot clock dummy (λ i. omega arith) outside outside-IsSized

abbrev made :
    (disk : Disk) × (m : Master) × (set_up clock dummy ≡ some disk)
    × (boot outside disk ≡ some m)
    × IsValid m
made =
    let (disk, m, ran, booted, valid, _, _) =
      set_up-boot clock dummy (λ i. omega arith) outside outside-IsSized in
    (disk, m, ran, booted, valid)

abbrev written : (m : Master) × (dbwrite (word_key 7) (word_key 70) made.1 ≡ some m)
written =
    let (m, ran, _, _) =
      dbwrite-stored (word_key 7) (word_key 70) made.1 (word_key-InRange 7 (omega arith))
        (word_key-InRange 70 (omega arith)) made.4 in
    (m, ran)

fresh_store-Reach_example :
    (answer : Option Value) × (s' : Buffer) × (dbread paged (word_key 7) written.0 unused
      ≡ some (answer, s'))
    × (live_value answer ≡ live_value (find (word_key 7) ((word_key 7, word_key 70) ∷ [])))
fresh_store-Reach_example =
    fresh_store-Reach clock dummy outside paged (word_key 7) unused (λ i. omega arith)
      outside-IsSized made.2 made.3
      (writes (word_key 7) (word_key 70) (word_key-InRange 7 (omega arith))
        (word_key-InRange 70 (omega arith)) Steps.start written.1)
      unused-IsIdle

-- Two batch files: a write, with `;` behind it, and a read of its key, and an empty line.
abbrev line : Line
line = write_line (word_key 7) (word_key 70)

abbrev write_text : List ℕ
write_text = text line (b';' ∷ [])

abbrev read_text : List ℕ
read_text = text (read_line (word_key 7)) []

abbrev first_lines : List (Line × List ℕ)
first_lines = (line, b';' ∷ []) ∷ (read_line (word_key 7), []) ∷ []

abbrev files : ℕ → List ℕ
files i = if i == 0 then file_text first_lines else if i == 1 then 10 ∷ [] else []

line-IsPrintable : IsPrintable line (b';' ∷ [])
unfolding find_byte
line-IsPrintable = (word_key-InRange 7 (omega arith), word_key-InRange 70 (omega arith), refl)

write_parsed : parse write_text ≡ some line
write_parsed = parse-text line (b';' ∷ []) line-IsPrintable

read_parsed : parse read_text ≡ some (read_line (word_key 7))
read_parsed = parse-text (read_line (word_key 7)) [] (word_key-InRange 7 (omega arith))

empty_parsed : parse [] ≡ some other_line
unfolding parse
empty_parsed = refl

first_cut : get_lines (file_text first_lines) ≡ write_text ∷ read_text ∷ []
unfolding get_lines
first_cut = refl

second_cut : get_lines (10 ∷ []) ≡ [] ∷ []
unfolding get_lines
second_cut = refl

no_cut : get_lines [] ≡ []
unfolding get_lines
no_cut = refl

line-IsLive : IsLive line
unfolding is_tomb all_tomb
line-IsLive = refl

parsed-IsLive :
    (a : List ℕ) {l : Line} → parse a ≡ some l → IsLive l → (j : Line) → parse a ≡ some j → IsLive j
parsed-IsLive a e live j e' = subst IsLive (some_inj (sym e ∙ e')) live

-- A property of the lines of both files.
both_files :
    (P : List (List ℕ) → Type 0)
    → P (write_text ∷ read_text ∷ [])
    → P ([] ∷ [])
    → P []
    → (i : ℕ) → P (get_lines (files i))
both_files P one two rest i = elim (Bool-cases (i == 0)) [
  | inl e ↦ rw e (subst P (sym first_cut) one)
  | inr ne ↦ rw ne (elim (Bool-cases (i == 1)) [
    | inl e ↦ rw e (subst P (sym second_cut) two)
    | inr other ↦ rw other (subst P (sym no_cut) rest)
  ])
]

files-AllGood : (i : ℕ) → AllGood (get_lines (files i))
files-AllGood =
    both_files AllGood
      (
        all_bytes-IsBytes write_text refl,
        parsed-IsLive write_text write_parsed line-IsLive,
        (all_bytes-IsBytes read_text refl, parsed-IsLive read_text read_parsed tt, tt),
      )
      (tt, parsed-IsLive [] empty_parsed tt, tt) tt

abbrev first_done :
    (m : Master) × (s : Buffer) × (serve_line paged write_text made.1 unused ≡ some ([], m, s))
first_done =
    let (m, s, ran, _, _, _) =
      serve_line-Obeyed paged line write_text made.1 unused (all_bytes-IsBytes write_text refl)
        write_parsed made.4 unused-IsIdle in
    (m, s, ran)

abbrev half_way : Program paged
half_way =
    served paged 0 (read_text ∷ []) ([], first_done.0, first_done.1) (run paged made.1 unused files)

half_way-Serial : Serial paged (run paged made.1 unused files) half_way
half_way-Serial = serves 0 start first_cut first_done.2

began : main paged outside made.0 unused files ≡ some (run paged made.1 unused files)
unfolding main
began = ap (λ x. x >>= λ m. some (run paged m unused files)) made.3

main-Spec_example :
    (h : List (Key × Value)) × Spec (λ i. get_lines (files i)) h half_way.rest half_way.outs
    × ((k : Key) → stored k half_way.store ≡ find k h)
main-Spec_example =
    main-Spec clock dummy outside paged unused files (λ i. omega arith) outside-IsSized
      unused-IsIdle files-AllGood made.2 began half_way-Serial
