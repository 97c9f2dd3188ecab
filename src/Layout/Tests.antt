-- ===== src/Layout/Tests.antt =====
-- `isTomb` on sample byte strings.
use cs.Prelude.{[], ◌∷◌, true, false, ◌≡◌, refl, ◌↔◌, replicate}
use cs.Layout.{all_tomb, is_tomb, is_tomb_iff, tombstone_byte}
use cs.Key.Bytes.{bytes_of, value_layout}
use cs.Samples.{word_key}

all_tomb_marked : all_tomb (255 ∷ 255 ∷ []) ≡ true
unfolding all_tomb
all_tomb_marked = refl

all_tomb_live : all_tomb (255 ∷ 254 ∷ []) ≡ false
unfolding all_tomb
all_tomb_live = refl

is_tomb_iff_example :
    (is_tomb (word_key 1) ≡ true) ↔ (bytes_of 8 (word_key 1) ≡ replicate 64 tombstone_byte)
is_tomb_iff_example = is_tomb_iff (word_key 1)
