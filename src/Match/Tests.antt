-- ===== src/Match/Tests.antt =====
-- Runs of the comparison of texts in src/recallpack/observe.py.
use recallpack.Base.{ℕ, List, true, ◌≡◌, refl, str_eq, any, all}
use recallpack.Match.{
  codes, is_word_code, lower_code, lower, split_words, join_words, normalize_text_for_match,
  has_all, same_retry_policy, dependency_restriction, meaning_equivalent,
}
use recallpack.Match.Words.{HasWords, normalize_text-words}

program : Unit {0}
unfolding is_word_code lower_code lower split_words join_words normalize_text_for_match has_all
    same_retry_policy dependency_restriction meaning_equivalent str_eq any all
program = tt

punctuation_is_ignored : meaning_equivalent "Do not retry!" "do NOT  retry" "retry_policy" ≡ true
unfolding program
punctuation_is_ignored = refl

normalize_text-words_example :
    ((words : List (List ℕ)) × HasWords (lower (codes "Do, NOT retry")) words
      × (normalize_text_for_match (codes "Do, NOT retry") ≡ join_words words)
      × HasWords (normalize_text_for_match (codes "Do, NOT retry")) words)
    × (normalize_text_for_match (normalize_text_for_match (codes "Do, NOT retry"))
        ≡ normalize_text_for_match (codes "Do, NOT retry"))
normalize_text-words_example = normalize_text-words (codes "Do, NOT retry")
