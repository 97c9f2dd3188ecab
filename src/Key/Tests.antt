-- ===== src/Key/Tests.antt =====
-- `K::operator<` on sample keys.
use cs.Prelude.{true, ◌≡◌, refl}
use cs.Key.{lt_words}
use cs.Order.{IsOrder}
use cs.Key.Laws.{lt_words-IsOrder}

lt_words_second : lt_words 2 (3, (4, tt)) (3, (5, tt)) ≡ true
unfolding lt_words
lt_words_second = refl

lt_words-IsOrder_example : IsOrder (lt_words 8)
lt_words-IsOrder_example = lt_words-IsOrder 8
