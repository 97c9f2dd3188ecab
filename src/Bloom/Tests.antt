-- ===== src/Bloom/Tests.antt =====
-- The filters of bloom.hpp on sample keys.
use cs.Prelude.{ℕ, ◌<◌, true, false, ◌≡◌, refl, List, [], ◌∷◌, ◌++◌, none, some, length}
use cs.Bloom.{BloomFile, arr_size, get_key, fresh, load, set_key_in_memory, short_at, word_at}
use cs.Bloom.Membership.{IsValid, set_all, get_key-set_all}
use cs.Bloom.Disk.{fresh-IsValid, load-file}
use cs.Samples.{word_key}

abbrev filter : BloomFile
filter = fresh false

get_key-set_all_example :
    (b' : BloomFile) × (set_all (word_key 1 ∷ [] ++ word_key 2 ∷ word_key 3 ∷ []) filter ≡ some b')
    × IsValid b'
    × (get_key (word_key 2) b' ≡ some true)
get_key-set_all_example =
    get_key-set_all (word_key 1 ∷ []) (word_key 3 ∷ []) (word_key 2) filter (fresh-IsValid false).0

load-file_example :
    (load filter.file ≡ some filter)
    × ((bytes : List ℕ) → length bytes < arr_size → load bytes ≡ none)
load-file_example = load-file filter (fresh-IsValid false).0

-- `Bloom::set` reads two bytes behind the end of a key of 64 bytes: the third short that it reads.
in_memory_shorts :
    (short_at (word_key 1) 0 ≡ some 1)
    × (short_at (word_key 1) 16 ≡ some 0)
    × (short_at (word_key 1) 32 ≡ none)
    × (set_key_in_memory (word_key 1) filter ≡ none)
unfolding set_key_in_memory short_at word_at
in_memory_shorts = (refl, refl, refl, refl)
