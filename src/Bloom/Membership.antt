-- ===== src/Bloom/Membership.antt =====
-- What `BloomFile` of bloom.hpp promises: no false negatives, and a file that mirrors the array.
use Prim.Native.Nat.{bit_or}
use cs.Prelude.{
  ℕ, zero, suc, ◌/◌, ◌%◌, ◌^◌, ◌<◌, Bool, true, false, ◌≡◌, refl, ap, sym, ◌∙◌, List, [], ◌∷◌, ◌++◌,
  Option, none, some, ◌&&◌, ◌||◌, if◌then◌else◌, ◌==◌, get_or, set, length, length-set, arith,
  Bool-cases, some_inj, Option-cases, inl, inr,
}
use mathlib.Core.Path.{ap₂, subst}
use cs.Key.{Key}
use cs.Bloom.{
  BloomFile, arr_size, test_slot, mark_slot, short_at, word_at, set_loop, get_loop, file_offsets,
  set_key, get_key,
}
use cs.Bloom.Bits.{has_bit-or, bit_or-lt}

pub get_or-set :
    (xs : List ℕ) (i j v : ℕ)
    → i < length xs
    → get_or (set xs i v) j 0 ≡ (if i == j then v else get_or xs j 0)
get_or-set [] i j v h = absurd (omega arith)
get_or-set (x ∷ xs) zero zero v h = ground arith
get_or-set (x ∷ xs) zero (suc j) v h = ground arith
get_or-set (x ∷ xs) (suc i) zero v h = ground arith
get_or-set (x ∷ xs) (suc i) (suc j) v h = ground (arith, get_or-set xs i j v (omega arith))

-- The array is whole and holds bytes, and the file is its copy.
pub record IsValid (b : BloomFile) : Type 0 where
  pub sized : length b.arr ≡ arr_size
  pub bytes : (i : ℕ) → get_or b.arr i 0 < 256
  pub mirror : b.file ≡ b.arr

slot_eq : (q s : ℕ) → (q == s) ≡ ((s / 8 == q / 8) && (q % 8 == s % 8))
slot_eq q s = ground arith

test-mark_slot :
    (b : BloomFile) (s q : ℕ)
    → IsValid b
    → s < 65536
    → test_slot (mark_slot b s).arr q ≡ ((q == s) || test_slot b.arr q)
unfolding mark_slot test_slot
test-mark_slot b s q v ls = ground (
  arith,
  get_or-set b.arr (s / 8) (q / 8) (bit_or (get_or b.arr (s / 8) 0) (2 ^ (s % 8))),
  has_bit-or (get_or b.arr (s / 8) 0) (s % 8) (q % 8) (v.bytes (s / 8)),
  slot_eq q s,
  v.sized,
)

mark_slot-IsValid : (b : BloomFile) (s : ℕ) → IsValid b → s < 65536 → IsValid (mark_slot b s)
unfolding mark_slot
mark_slot-IsValid b s v ls =
    let temp = bit_or (get_or b.arr (s / 8) 0) (2 ^ (s % 8)) in
    elim (Bool-cases (temp == get_or b.arr (s / 8) 0)) [
      | inl same ↦ rw (same, mark_slot) v
      | inr new ↦
          rw (new, mark_slot)
            (record {
              sized = length-set b.arr (s / 8) temp ∙ v.sized;
              bytes = λ i. ground (
                arith,
                get_or-set b.arr (s / 8) i temp,
                bit_or-lt (get_or b.arr (s / 8) 0) (s % 8) (v.bytes (s / 8)),
                v.bytes i,
                v.sized,
              );
              mirror =
                  ap₂ (λ zs w. set zs (s / 8) w) v.mirror
                    (get_or-set b.arr (s / 8) (s / 8) temp (omega (arith, v.sized)) ∙ ground arith);
            })
    ]

pub short-lt : (k : Key) (i : ℕ) {s : ℕ} → short_at k i ≡ some s → s < 65536
unfolding short_at
short-lt k i h = ground arith

-- Whether `q` is the slot of one of the shorts of the key.
abbrev slot_of : List ℕ → Key → ℕ → Bool
slot_of [] k q = false
slot_of (i ∷ is) k q = elim (short_at k i) [ none ↦ false | some s ↦ (q == s) ] || slot_of is k q

-- The loop of `set` sets the bits of the key's shorts and no other, and keeps the mirror.
set_loop_bits :
    (is : List ℕ) (k : Key) (b : BloomFile) {b' : BloomFile}
    → IsValid b
    → set_loop is k b ≡ some b'
    → IsValid b' × ((q : ℕ) → test_slot b'.arr q ≡ (slot_of is k q || test_slot b.arr q))
unfolding set_loop
set_loop_bits [] k b v h =
    let e = some_inj h in
    (subst IsValid e v, λ q. ap (λ (x : BloomFile). test_slot x.arr q) (sym e))
set_loop_bits (i ∷ is) k b v h = elim (Option-cases (short_at k i)) [
  | inl out ↦ cc (rw (out, set_loop) at h)
  | inr (s, e) ↦
      let ls = short-lt k i e in
      let (v', bits) =
        set_loop_bits is k (mark_slot b s) (mark_slot-IsValid b s v ls) (rw (e, set_loop) at h) in
      (v', λ q. bits q ∙ rw e (ground (arith, test-mark_slot b s q v ls)))
]

-- A bit that is set stays set, so what was found is found.
get_loop_mono :
    (is : List ℕ) (k : Key) (us ws : List ℕ)
    → ((q : ℕ) → test_slot us q ≡ true → test_slot ws q ≡ true)
    → get_loop is k us ≡ some true
    → get_loop is k ws ≡ some true
unfolding get_loop
get_loop_mono [] k us ws m h = refl
get_loop_mono (i ∷ is) k us ws m h = elim (Option-cases (short_at k i)) [
  | inl out ↦ cc (rw (out, get_loop) at h)
  | inr (s, e) ↦ ground (arith, m s, get_loop_mono is k us ws m)
]

-- The loop of `get` answers yes where every short of the key has its bit.
get_loop-true :
    (is : List ℕ) (k : Key) (b : BloomFile) (arr : List ℕ) {b' : BloomFile}
    → set_loop is k b ≡ some b'
    → ((q : ℕ) → slot_of is k q ≡ true → test_slot arr q ≡ true)
    → get_loop is k arr ≡ some true
unfolding set_loop get_loop
get_loop-true [] k b arr h g = refl
get_loop-true (i ∷ is) k b arr h g = elim (Option-cases (short_at k i)) [
  | inl out ↦ cc (rw (out, set_loop) at h)
  | inr (s, e) ↦
      let rest =
        get_loop-true is k (mark_slot b s) arr (rw (e, set_loop) at h)
          (λ q t. g q (rw e (ground arith))) in
      let hit : test_slot arr s ≡ true = g s (rw e (ground arith)) in ground arith
]

-- The shorts 0, 1 and 2 lie in the key.
set_key_total : (k : Key) (b : BloomFile) → (b' : BloomFile) × (set_key k b ≡ some b')
unfolding set_key short_at word_at
set_key_total k b = (_, refl)

-- A run of calls of `set`.
unfoldable pub set_all : List Key → BloomFile → Option BloomFile
set_all [] b = some b
set_all (k ∷ ks) b = elim (set_key k b) [ none ↦ none | some b' ↦ set_all ks b' ]

set_key_bits :
    (k : Key) (b : BloomFile) {b' : BloomFile}
    → IsValid b
    → set_key k b ≡ some b'
    → IsValid b' × ((q : ℕ) → test_slot b'.arr q ≡ (slot_of file_offsets k q || test_slot b.arr q))
unfolding set_key
set_key_bits k b v h = set_loop_bits file_offsets k b v h

set_all-cons :
    (k : Key) (ks : List Key) (b : BloomFile) {b' : BloomFile}
    → set_key k b ≡ some b'
    → set_all (k ∷ ks) b ≡ set_all ks b'
unfolding set_all
set_all-cons k ks b h = rw (h, set_all)

set_all_grows :
    (ks : List Key) (b : BloomFile)
    → IsValid b
    → (b' : BloomFile) × (set_all ks b ≡ some b')
      × IsValid b'
      × ((q : ℕ) → test_slot b.arr q ≡ true → test_slot b'.arr q ≡ true)
unfolding set_all
set_all_grows [] b v = (b, refl, v, λ q t. t)
set_all_grows (k ∷ ks) b v =
    let (b1, e) = set_key_total k b in
    let (v1, bits) = set_key_bits k b v e in
    let (b2, e2, v2, grows) = set_all_grows ks b1 v1 in
    (b2, set_all-cons k ks b e ∙ e2, v2, λ q t. grows q (ground (arith, bits q)))

set_all-append :
    (ks js : List Key) (b : BloomFile) {b' : BloomFile}
    → set_all ks b ≡ some b'
    → set_all (ks ++ js) b ≡ set_all js b'
unfolding set_all
set_all-append [] js b h = ap (set_all js) (some_inj h)
set_all-append (k ∷ ks) js b h =
    let (b1, e) = set_key_total k b in
    set_all-cons k (ks ++ js) b e ∙ set_all-append ks js b1 (sym (set_all-cons k ks b e) ∙ h)

get_key-true :
    (k : Key) (b c : BloomFile) {b' : BloomFile}
    → set_key k b ≡ some b'
    → ((q : ℕ) → slot_of file_offsets k q ≡ true → test_slot c.arr q ≡ true)
    → get_key k c ≡ some true
unfolding set_key get_key
get_key-true k b c h g = get_loop-true file_offsets k b c.arr h g

get_loop_total :
    (is : List ℕ) (k : Key) (b : BloomFile) (arr : List ℕ) {b' : BloomFile}
    → set_loop is k b ≡ some b'
    → (a : Bool) × (get_loop is k arr ≡ some a)
unfolding get_loop set_loop
get_loop_total [] k b arr h = (true, refl)
get_loop_total (i ∷ is) k b arr h = elim (Option-cases (short_at k i)) [
  | inl out ↦ cc (rw (out, set_loop) at h)
  | inr (s, e) ↦
      let (a, rest) = get_loop_total is k (mark_slot b s) arr (rw (e, set_loop) at h) in
      elim (Bool-cases (test_slot arr s)) [
        | inl hit ↦ (a, ground arith)
        | inr miss ↦ (false, ground arith)
      ]
]

-- `get` always answers.
pub get_key_total : (k : Key) (b : BloomFile) → (a : Bool) × (get_key k b ≡ some a)
unfolding get_key set_key
get_key_total k b = let (b', ran) = set_key_total k b in get_loop_total file_offsets k b b.arr ran

-- `set` ends in a valid filter, which says yes of the key and of all that the old one said yes of.
pub set_key-kept :
    (k : Key) (b : BloomFile)
    → IsValid b
    → (b' : BloomFile) × (set_key k b ≡ some b')
      × IsValid b'
      × (get_key k b' ≡ some true)
      × ((j : Key) → get_key j b ≡ some true → get_key j b' ≡ some true)
unfolding get_key
set_key-kept k b v =
    let (b', ran) = set_key_total k b in
    let (v', bits) = set_key_bits k b v ran in
    (
      b',
      ran,
      v',
      get_key-true k b b' ran (λ q t. ground (arith, bits q)),
      λ j h. get_loop_mono file_offsets j b.arr b'.arr (λ q t. ground (arith, bits q)) h,
    )

-- No false negatives: from a valid filter any run of calls of `set` ends in a valid filter, and
-- `get` says yes of each key among them, whatever was set before and after it.
pub get_key-set_all :
    (before after : List Key) (k : Key) (b : BloomFile)
    → IsValid b
    → (b' : BloomFile) × (set_all (before ++ k ∷ after) b ≡ some b')
      × IsValid b'
      × (get_key k b' ≡ some true)
get_key-set_all before after k b v =
    let (b1, ran1, v1, _) = set_all_grows before b v in
    let (b2, ran2) = set_key_total k b1 in
    let (v2, bits) = set_key_bits k b1 v1 ran2 in
    let (b3, ran3, v3, grows) = set_all_grows after b2 v2 in
    (
      b3,
      set_all-append before (k ∷ after) b ran1 ∙ set_all-cons k after b1 ran2 ∙ ran3,
      v3,
      get_key-true k b1 b3 ran2 (λ q t. grows q (ground (arith, bits q))),
    )
