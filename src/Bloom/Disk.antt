-- ===== src/Bloom/Disk.antt =====
-- The constructor of `BloomFile` of bloom.hpp: a new filter, and one loaded from its file.
use cs.Prelude.{
  ℕ, zero, suc, ◌/◌, ◌%◌, ◌<◌, Bool, true, false, ◌≡◌, refl, ap, ◌∙◌, List, [], ◌∷◌, none, some,
  if◌then◌else◌, lt→ltb, get_or, length, length-replicate, replicate, take, arith,
}
use cs.Key.{Key}
use cs.Bloom.{
  BloomFile, arr_size, test_slot, short_at, word_at, get_key, fresh_sized, fresh, load_sized, load,
}
use cs.Bloom.Bits.{has_bit_full, has_bit_empty}
use cs.Bloom.Membership.{IsValid}

get_or-replicate : (n a i : ℕ) → i < n → get_or (replicate n a) i 0 ≡ a
get_or-replicate zero a i h = absurd (omega arith)
get_or-replicate (suc n) a zero h = refl
get_or-replicate (suc n) a (suc i) h = get_or-replicate n a i (omega arith)

get_or-replicate-lt : (n a i : ℕ) → a < 256 → get_or (replicate n a) i 0 < 256
get_or-replicate-lt zero a i h = omega arith
get_or-replicate-lt (suc n) a zero h = h
get_or-replicate-lt (suc n) a (suc i) h = get_or-replicate-lt n a i h

take_all : (n : ℕ) (xs : List ℕ) → length xs ≡ n → take n xs ≡ xs
take_all zero [] h = refl
take_all zero (x ∷ xs) h = absurd (omega arith)
take_all (suc n) [] h = refl
take_all (suc n) (x ∷ xs) h = ap (◌∷◌ x) (take_all n xs (omega arith))

load_sized-file :
    (n : ℕ) (b : BloomFile) → length b.arr ≡ n → b.file ≡ b.arr → load_sized n b.file ≡ some b
unfolding load_sized
load_sized-file n b h m =
    let whole : take n b.file ≡ b.arr = ap (take n) m ∙ take_all n b.arr h in ground arith

load_sized_short : (n : ℕ) (bytes : List ℕ) → length bytes < n → load_sized n bytes ≡ none
unfolding load_sized
load_sized_short n bytes h = rw (lt→ltb _ _ h, load_sized)

-- What is on disk is enough: `BloomFile` loaded from the file of a valid filter is that filter, and
-- a file that is too short is refused.
pub load-file :
    (b : BloomFile)
    → IsValid b
    → (load b.file ≡ some b) × ((bytes : List ℕ) → length bytes < arr_size → load bytes ≡ none)
unfolding load
load-file b v =
    (load_sized-file arr_size b v.sized v.mirror, λ bytes h. load_sized_short arr_size bytes h)

fresh_sized-IsValid :
    (n : ℕ) (initial : Bool)
    → (length (fresh_sized n initial).arr ≡ n)
      × ((i : ℕ) → get_or (fresh_sized n initial).arr i 0 < 256)
      × ((fresh_sized n initial).file ≡ (fresh_sized n initial).arr)
unfolding fresh_sized
fresh_sized-IsValid n initial = (
  length-replicate n (if initial then 255 else 0),
  (λ i. get_or-replicate-lt n (if initial then 255 else 0) i (ground arith)),
  refl,
)

fresh_sized-test :
    (n : ℕ) (initial : Bool) (s : ℕ) → s / 8 < n → test_slot (fresh_sized n initial).arr s ≡ initial
unfolding fresh_sized test_slot
fresh_sized-test n true s h =
    rw (get_or-replicate n 255 (s / 8) h) (has_bit_full (s % 8) (omega arith))
fresh_sized-test n false s h =
    rw (get_or-replicate n 0 (s / 8) h) (has_bit_empty (s % 8) (omega arith))

-- Where every slot of the array reads the same, so does every key.
get_key_uniform :
    (k : Key) (b : BloomFile) (answer : Bool)
    → ((s : ℕ) → s < 65536 → test_slot b.arr s ≡ answer)
    → get_key k b ≡ some answer
unfolding get_key short_at word_at
get_key_uniform k b true h = rw (
  h (k.0 / 1 % 65536) (omega arith),
  h (k.0 / 65536 % 65536) (omega arith),
  h (k.0 / 4294967296 % 65536) (omega arith),
)
get_key_uniform k b false h = rw (h (k.0 / 1 % 65536) (omega arith))

-- A new filter is valid, and `get` gives `initial` of every key.
pub fresh-IsValid :
    (initial : Bool)
    → IsValid (fresh initial) × ((k : Key) → get_key k (fresh initial) ≡ some initial)
unfolding fresh
fresh-IsValid initial =
    let (sized, bytes, mirror) = fresh_sized-IsValid arr_size initial in
    (
      record { sized = sized; bytes = bytes; mirror = mirror },
      (λ k.
          get_key_uniform k (fresh_sized arr_size initial) initial
            (λ s h. fresh_sized-test arr_size initial s (omega arith))),
    )
