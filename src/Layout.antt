-- ===== src/Layout.antt =====
-- The memory image of a value type, as Merge.hpp and rbtree.hpp use it: its bytes, their number
-- (`sizeof`), and the value that `memset` leaves. `TOMBSTONE_BYTE` is that of utils.hpp.
mod Tests
use cs.Prelude.{
  ℕ, suc, ◌<◌, Bool, true, false, ◌≡◌, refl, ap, ◌↔◌, List, [], ◌∷◌, length, replicate, ◌==◌,
  ==_iff, if◌then◌else◌, arith,
}

pub record Layout {ℓ} (V : Type ℓ) : Type ℓ where
  pub size : ℕ
  pub bytes : V → List ℕ
  pub memset : ℕ → V
  pub length-bytes : (v : V) → length (bytes v) ≡ size
  pub bytes-memset : (b : ℕ) → b < 256 → bytes (memset b) ≡ replicate size b

abbrev pub tombstone_byte : ℕ
tombstone_byte = 0xFF

-- The `for` loop of `isTomb`: one `memcmp` of one byte at a time, up to the first other byte.
unfoldable pub all_tomb : List ℕ → Bool
all_tomb [] = true
all_tomb (b ∷ bs) = if b == tombstone_byte then all_tomb bs else false

all_tomb-eq : (bs : List ℕ) → all_tomb bs ≡ true → bs ≡ replicate (length bs) tombstone_byte
unfolding all_tomb
all_tomb-eq [] h = refl
all_tomb-eq (b ∷ bs) h = ground (arith, all_tomb-eq bs)

all_tomb-replicate : (n : ℕ) → all_tomb (replicate n tombstone_byte) ≡ true
unfolding all_tomb
all_tomb-replicate ℕ.zero = refl
all_tomb-replicate (suc n) = all_tomb-replicate n

module _ {ℓ} {V : Type ℓ} ⦃w : Layout V⦄ where
  unfoldable pub is_tomb : V → Bool
  is_tomb v = all_tomb (w.bytes v)

  -- What `del` stores in a node.
  abbrev pub tomb : V
  tomb = w.memset tombstone_byte

  -- `isTomb` holds of a value exactly when each of its `sizeof(V)` bytes is the tombstone byte.
  pub is_tomb_iff : (v : V) → (is_tomb v ≡ true) ↔ (w.bytes v ≡ replicate w.size tombstone_byte)
  unfolding is_tomb
  is_tomb_iff v = (
    (λ h. rw (← w.length-bytes v) (all_tomb-eq (w.bytes v) h)),
    (λ h. rw h (all_tomb-replicate w.size)),
  )

-- What `del` stores reads as a tombstone.
pub is_tomb-tomb {ℓ} :
    {V : Type ℓ} (w : Layout V) → is_tomb ⦃w = w⦄ (w.memset tombstone_byte) ≡ true
unfolding is_tomb
is_tomb-tomb w = rw (w.bytes-memset 255 (omega arith)) (all_tomb-replicate w.size)
