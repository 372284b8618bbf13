-- ===== src/Tests/TopicsTests.antt =====
-- Topic names and filters: the cases of tests/src/TopicTest.cpp and the theorems at inputs.
use eventhub.Prelude.{true, false, not, ◌&&◌, ◌≡◌, ◌↔◌, refl, codes, ◌∷◌, [], ◌++◌}
use eventhub.Topics.{
  split_levels, is_filter_matched, is_valid_topic, is_valid_topic_filter, is_valid_topic_or_filter,
  multi_level, at_level_end,
}
use eventhub.Topics.Matching.{Matches, IsBelow, is_filter_matched_iff, is_filter_matched-IsBelow}
use eventhub.Topics.Validity.{
  levels_valid, has_wildcard, words_to_end, is_valid_topic_filter_levels, is_valid_topic_levels,
  topic_or_filter_disjoint,
}

split_levels_test : split_levels (codes "a/bc//") ≡ codes "a" ∷ codes "bc" ∷ [] ∷ [] ∷ []
unfolding split_levels
split_levels_test = refl

matched_test :
    (is_filter_matched (codes "foo/+/baz/#") (codes "foo/b/baz") ≡ true)
    × (is_filter_matched (codes "test1/#") (codes "test1") ≡ true)
    × (is_filter_matched (codes "test1/+") (codes "test1") ≡ false)
    × (is_filter_matched (codes "a/b") (codes "a/b/c") ≡ false)
unfolding is_filter_matched
matched_test = (refl, refl, refl, refl)

valid_test :
    (is_valid_topic (codes "a/b_c-9") ≡ true)
    × (is_valid_topic (codes "a/b/") ≡ false)
    × (is_valid_topic (codes "a/+") ≡ false)
    × (is_valid_topic_filter (codes "a/+/#") ≡ true)
    × (is_valid_topic_filter (codes "a+/#") ≡ false)
    × (is_valid_topic_or_filter (codes "/a") ≡ false)
unfolding is_valid_topic_or_filter
valid_test = (refl, refl, refl, refl, refl, refl)

is_filter_matched_iff_example :
    (is_filter_matched (codes "a/+") (codes "a/b") ≡ true)
    ↔ Matches (split_levels (codes "a/+")) (split_levels (codes "a/b"))
is_filter_matched_iff_example = is_filter_matched_iff (codes "a/+") (codes "a/b")

is_filter_matched-IsBelow_example :
    (is_filter_matched (codes "a/b" ++ b'/' ∷ multi_level) (codes "a/b/c") ≡ true)
    ↔ IsBelow (codes "a/b") (codes "a/b/c")
unfolding is_valid_topic
is_filter_matched-IsBelow_example = is_filter_matched-IsBelow (codes "a/b") (codes "a/b/c") refl

is_valid_topic_filter_levels_example : is_valid_topic_filter (codes "a/+/#") ≡ (
    not (at_level_end (codes "a/+/#"))
    && levels_valid (split_levels (codes "a/+/#"))
    && has_wildcard (codes "a/+/#"))
is_valid_topic_filter_levels_example = is_valid_topic_filter_levels (codes "a/+/#")

is_valid_topic_levels_example :
    is_valid_topic (codes "a/b")
    ≡ (not (at_level_end (codes "a/b")) && words_to_end (split_levels (codes "a/b")))
is_valid_topic_levels_example = is_valid_topic_levels (codes "a/b")

topic_or_filter_disjoint_example : is_valid_topic_filter (codes "a/b") ≡ false
unfolding is_valid_topic
topic_or_filter_disjoint_example = topic_or_filter_disjoint (codes "a/b") refl
