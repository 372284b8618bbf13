-- ===== src/Topics.antt =====
-- The names of topics and topic filters, after src/TopicManager.cpp: the two validity checks and
-- the matching of a filter against a topic. The children prove what they decide.
pub mod Levels
pub mod Matching
pub mod Validity
use eventhub.Prelude.{
  ℕ, Bool, true, false, not, ◌&&◌, ◌||◌, List, [], ◌∷◌, ◌++◌, ◌==◌, if◌then◌else◌, Bytes, bytes_eq,
  is_alnum, any, is_empty,
}

-- `parts.emplace_back` at each '/' and at the end; `current` is `input[start .. i)`.
unfoldable pub split_levels_from : Bytes → Bytes → List Bytes
split_levels_from current [] = current ∷ []
split_levels_from current (c ∷ rest) =
    let cut = current ∷ split_levels_from [] rest in
    let longer = split_levels_from (current ++ c ∷ []) rest in if c == b'/' then cut else longer

unfoldable pub split_levels : Bytes → List Bytes
unfolding split_levels_from
split_levels input = split_levels_from [] input

abbrev pub multi_level : Bytes
multi_level = b'#' ∷ []

abbrev pub single_level : Bytes
single_level = b'+' ∷ []

-- The loop of `isFilterMatched` over the levels left of both; its two indices move together.
unfoldable pub levels_matched : List Bytes → List Bytes → Bool
levels_matched [] topic = is_empty topic
levels_matched (f ∷ fs) [] = bytes_eq f multi_level
levels_matched (f ∷ fs) (t ∷ ts) =
    let rest = levels_matched fs ts in
    if bytes_eq f multi_level
    then true
    else if bytes_eq f single_level
    then rest
    else if not (bytes_eq f t)
    then false
    else rest

unfoldable pub is_filter_matched : Bytes → Bytes → Bool
unfolding split_levels levels_matched bytes_eq
is_filter_matched filter_name topic_name =
    levels_matched (split_levels filter_name) (split_levels topic_name)

-- A byte that `isValidTopic` lets pass.
abbrev pub is_topic_byte : ℕ → Bool
is_topic_byte c = is_alnum c || c == b'-' || c == b'_' || c == b'/'

-- The loop of `isValidTopic`: each byte, and no '/' as the last.
unfoldable pub topic_bytes_valid : Bytes → Bool
topic_bytes_valid [] = true
topic_bytes_valid (c ∷ rest) =
    let later = topic_bytes_valid rest in
    if not (is_topic_byte c) then false else if is_empty rest && c == b'/' then false else later

unfoldable pub is_valid_topic : Bytes → Bool
unfolding topic_bytes_valid
is_valid_topic [] = false
is_valid_topic (c ∷ rest) =
    if c == b'/'
    then false
    else if any (λ x. x == b'+') (c ∷ rest) || any (λ x. x == b'#') (c ∷ rest)
    then false
    else topic_bytes_valid (c ∷ rest)

-- `(it + 1) == end() || *(it + 1) == '/'`
abbrev pub at_level_end : Bytes → Bool
at_level_end [] = true
at_level_end (c ∷ rest) = c == b'/'

-- The loop of `isValidTopicFilter`. `prev_ok` is `it == begin() || *(it - 1) == '/'`.
unfoldable pub filter_bytes_valid : Bool → Bool → Bytes → Bool
filter_bytes_valid prev_ok has_wildcard [] = has_wildcard
filter_bytes_valid prev_ok has_wildcard (c ∷ rest) =
    let wild = filter_bytes_valid (c == b'/') true rest in
    let plain = filter_bytes_valid (c == b'/') has_wildcard rest in
    if not (is_topic_byte c || c == b'+' || c == b'#')
    then false
    else if c == b'+'
    then if not prev_ok || not (at_level_end rest) then false else wild
    else if c == b'#'
    then if not prev_ok || not (is_empty rest) then false else wild
    else plain

unfoldable pub is_valid_topic_filter : Bytes → Bool
unfolding filter_bytes_valid
is_valid_topic_filter [] = false
is_valid_topic_filter (c ∷ rest) =
    if c == b'/' then false else filter_bytes_valid true false (c ∷ rest)

unfoldable pub is_valid_topic_or_filter : Bytes → Bool
unfolding is_valid_topic is_valid_topic_filter
is_valid_topic_or_filter topic =
    if is_valid_topic topic || is_valid_topic_filter topic then true else false
