-- ===== src/Master/Race/Ends.antt =====
-- The ends of a read and of a merge among the steps of other threads.
use cs.Key.{Key, Value}
use cs.Key.Laws.{words_ord}
use cs.Key.Bytes.{value_layout}
use cs.Level.{Level}
use cs.Read.Searcher.{Searcher}
use cs.Master.Race.{Race}

abbrev zero_words : Key
zero_words = (0, (0, (0, (0, (0, (0, (0, (0, tt))))))))

abbrev zero_entry : Key × Value
zero_entry = (zero_words, zero_words)
