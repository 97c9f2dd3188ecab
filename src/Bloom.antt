-- ===== src/Bloom.antt =====
-- `BloomFile` and `Bloom` of include/Bloom/bloom.hpp: three bits for each key in an array of 2^16
-- bits, and the file that mirrors the array of a `BloomFile`.
pub mod Bits
pub mod Membership
pub mod Disk
mod Tests
use Prim.Native.Nat.{bit_and, bit_or}
use cs.Prelude.{
  ℕ, zero, suc, ◌+◌, ◌*◌, ◌/◌, ◌%◌, ◌^◌, Bool, true, false, not, List, [], ◌∷◌, Option, none, some,
  if◌then◌else◌, ◌==◌, ltb, get_or, set, length, replicate, take,
}
use mathlib.Core.Option
use cs.Key.{Words, Key}

-- `(1 << 16) / 8`
abbrev pub arr_size : ℕ
arr_size = 8192

-- `unsigned long` number `i` of a key, and nothing behind its end.
unfoldable pub word_at : (n : ℕ) → Words n → ℕ → Option ℕ
word_at zero k i = none
word_at (suc n) (x, xs) zero = some x
word_at (suc n) (x, xs) (suc i) = word_at n xs i

-- `((unsigned short *)&k)[i]` where the lower half of a word comes first in memory; `none` is a read
-- behind the key.
unfoldable pub short_at : Key → ℕ → Option ℕ
unfolding word_at
short_at k i = Option.map (λ w. w / 2 ^ (16 * (i % 4)) % 2 ^ 16) (word_at 8 k (i / 4))

-- `arr[s / 8] & (1 << (s % 8))`, as a test.
unfoldable pub has_bit : ℕ → ℕ → Bool
has_bit a j = not (bit_and a (2 ^ j) == 0)

unfoldable pub test_slot : List ℕ → ℕ → Bool
unfolding has_bit
test_slot arr s = has_bit (get_or arr (s / 8) 0) (s % 8)

-- `arr` and the bytes of the file.
pub record BloomFile : Type 0 where
  pub arr : List ℕ
  pub file : List ℕ

-- `setFile(i)`
unfoldable pub set_file : BloomFile → ℕ → BloomFile
set_file b i = record b { file = set b.file i (get_or b.arr i 0) }

-- The body of the loop of `BloomFile::set`: a byte that changes is written through.
unfoldable pub mark_slot : BloomFile → ℕ → BloomFile
unfolding set_file
mark_slot b s =
    let temp = bit_or (get_or b.arr (s / 8) 0) (2 ^ (s % 8)) in
    if temp == get_or b.arr (s / 8) 0
    then b
    else set_file (record b { arr = set b.arr (s / 8) temp }) (s / 8)

-- The loop of `set` over the given offsets, in units of `unsigned short`.
unfoldable pub set_loop : List ℕ → Key → BloomFile → Option BloomFile
set_loop [] k b = some b
set_loop (i ∷ is) k b = elim (short_at k i) [ none ↦ none | some s ↦ set_loop is k (mark_slot b s) ]

-- The loop of `get`, with its early return.
unfoldable pub get_loop : List ℕ → Key → List ℕ → Option Bool
get_loop [] k arr = some true
get_loop (i ∷ is) k arr =
    let rest = get_loop is k arr in
    elim (short_at k i) [ none ↦ none | some s ↦ if test_slot arr s then rest else some false ]

-- `BloomFile` reads the shorts 0, 1 and 2.
abbrev pub file_offsets : List ℕ
file_offsets = 0 ∷ 1 ∷ 2 ∷ []

unfoldable pub set_key : Key → BloomFile → Option BloomFile
unfolding set_loop
set_key k b = set_loop file_offsets k b

unfoldable pub get_key : Key → BloomFile → Option Bool
unfolding get_loop
get_key k b = get_loop file_offsets k b.arr

-- The constructor with `load == false`, for an array of `n` bytes: every byte 0, or every byte 255,
-- and the file written.
unfoldable pub fresh_sized : ℕ → Bool → BloomFile
fresh_sized n initial =
    let arr = replicate n (if initial then 255 else 0) in record { arr = arr; file = arr }

unfoldable pub fresh : Bool → BloomFile
fresh initial = fresh_sized arr_size initial

-- The constructor with `load == true`: `exit(1)` on a file that is shorter than the array, and else
-- its first bytes, which are written back.
unfoldable pub load_sized : ℕ → List ℕ → Option BloomFile
load_sized n bytes =
    if ltb (length bytes) n then none else some (record { arr = take n bytes; file = take n bytes })

unfoldable pub load : List ℕ → Option BloomFile
load bytes = load_sized arr_size bytes

-- `Bloom` steps by 16 shorts: it reads the shorts 0, 16 and 32.
abbrev pub memory_offsets : List ℕ
memory_offsets = 0 ∷ 16 ∷ 32 ∷ []

-- `Bloom::set`; its array has no file, so the `file` here only follows it.
unfoldable pub set_key_in_memory : Key → BloomFile → Option BloomFile
unfolding set_loop
set_key_in_memory k b = set_loop memory_offsets k b

unfoldable pub get_key_in_memory : Key → BloomFile → Option Bool
unfolding get_loop
get_key_in_memory k b = get_loop memory_offsets k b.arr
