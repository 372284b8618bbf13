-- ===== src/Topics/Validity.antt =====
-- What `isValidTopic` and `isValidTopicFilter` of src/TopicManager.cpp decide, in terms of levels.
use eventhub.Prelude.{
  ℕ, ◌≡◌, refl, sym, subst, ==_iff, ◌⊎◌, inl, inr, Bool, true, false, not, ◌&&◌, ◌||◌, List, [],
  ◌∷◌, ◌++◌, ◌==◌, arith, Bytes, any, all, drop, Bool-cases, bytes_eq, is_empty, is_alnum,
}
use eventhub.Topics.{
  split_levels, split_levels_from, is_valid_topic, is_valid_topic_filter, topic_bytes_valid,
  filter_bytes_valid, at_level_end, is_topic_byte, multi_level, single_level,
}

abbrev pub is_word_byte : ℕ → Bool
is_word_byte c = is_alnum c || c == b'-' || c == b'_'

abbrev pub is_word : Bytes → Bool
is_word = all is_word_byte

-- Each level is a word, perhaps an empty one, or '+'; the last may be '#'.
abbrev pub levels_valid : List Bytes → Bool
levels_valid [] = true
levels_valid (l ∷ ls) =
    (is_word l || bytes_eq l single_level || (is_empty ls && bytes_eq l multi_level))
    && levels_valid ls

abbrev pub has_wildcard : Bytes → Bool
has_wildcard = any (λ c. c == b'+' || c == b'#')

is_word-concat : (l : Bytes) (c : ℕ) → is_word (l ++ c ∷ []) ≡ (is_word l && is_word_byte c)
is_word-concat [] c = ground arith
is_word-concat (x ∷ l) c = ground (arith, is_word-concat l c)

is_empty-concat : (l : Bytes) (c : ℕ) → is_empty (l ++ c ∷ []) ≡ false
is_empty-concat [] c = refl
is_empty-concat (x ∷ l) c = refl

is_empty-split : (l s : Bytes) → is_empty (split_levels_from l s) ≡ false
unfolding split_levels_from
is_empty-split l [] = refl
is_empty-split l (c ∷ s) = ground (arith, is_empty-split (l ++ c ∷ []) s)

two_ne_one : (l : Bytes) (c w : ℕ) → is_empty l ≡ false → bytes_eq (l ++ c ∷ []) (w ∷ []) ≡ false
unfolding bytes_eq
two_ne_one [] c w h = cc
two_ne_one (x ∷ []) c w h = ground arith
two_ne_one (x ∷ y ∷ l) c w h = ground arith

word_nonempty : (l : Bytes) → is_word l ≡ false → is_empty l ≡ false
word_nonempty [] h = cc
word_nonempty (x ∷ l) h = refl

-- A level that is no good stays so, whatever follows.
levels_valid_bad :
    (l s : Bytes)
    → is_word l ≡ false
    → bytes_eq l single_level ≡ false
    → bytes_eq l multi_level ≡ false
    → levels_valid (split_levels_from l s) ≡ false
unfolding split_levels_from
levels_valid_bad l [] h p m = ground arith
levels_valid_bad l (c ∷ s) h p m = elim (Bool-cases (c == b'/')) [
  | inl e ↦ rw (e, split_levels_from) (ground arith)
  | inr e ↦
      let n = word_nonempty l h in
      rw (e, split_levels_from)
        (levels_valid_bad (l ++ c ∷ []) s (ground (arith, is_word-concat l c))
          (two_ne_one l c b'+' n) (two_ne_one l c b'#' n))
]

-- A byte that is neither a word's, nor '/', nor a whole level by itself, spoils the level.
levels_valid_spoiled :
    (l s : Bytes) (c : ℕ)
    → is_word_byte c ≡ false
    → (is_empty l ≡ false) ⊎ ((c == b'+' ≡ false) × (c == b'#' ≡ false))
    → levels_valid (split_levels_from (l ++ c ∷ []) s) ≡ false
levels_valid_spoiled [] s c h (inl n) = cc
levels_valid_spoiled [] s c h (inr n) =
    levels_valid_bad (c ∷ []) s (ground arith) (unfold bytes_eq in ground arith)
      (unfold bytes_eq in ground arith)
levels_valid_spoiled (x ∷ l) s c h n =
    levels_valid_bad (x ∷ (l ++ c ∷ [])) s (ground (arith, is_word-concat (x ∷ l) c))
      (two_ne_one (x ∷ l) c b'+' refl) (two_ne_one (x ∷ l) c b'#' refl)

abbrev Agree : Bytes → Bool → Bytes → Type 0
Agree l w s =
    filter_bytes_valid (is_empty l) w s
    ≡ (levels_valid (split_levels_from l s) && (w || has_wildcard s))

-- The loop just behind a '+' or, at the end, a '#'.
after_plus :
    (s : Bytes) (w : Bool) → at_level_end s ≡ true → Agree [] w (drop 1 s) → Agree single_level w s
unfolding filter_bytes_valid split_levels_from bytes_eq
after_plus [] w h next = ground arith
after_plus (c ∷ rest) w h next = ground (arith, next, is_empty-split [] rest)

Agree-slash :
    (l rest : Bytes) (w : Bool) → is_word l ≡ true → Agree [] w rest → Agree l w (b'/' ∷ rest)
unfolding filter_bytes_valid split_levels_from
Agree-slash l rest w h next = ground (arith, next)

Agree-word :
    (l rest : Bytes) (c : ℕ) (w : Bool)
    → is_word_byte c ≡ true
    → Agree (l ++ c ∷ []) w rest
    → Agree l w (c ∷ rest)
unfolding filter_bytes_valid split_levels_from
Agree-word l rest c w h next = ground (arith, next, is_empty-concat l c)

Agree-other :
    (l rest : Bytes) (c : ℕ) (w : Bool)
    → is_word_byte c ≡ false
    → c == b'/' ≡ false
    → c == b'+' ≡ false
    → c == b'#' ≡ false
    → Agree l w (c ∷ rest)
unfolding filter_bytes_valid split_levels_from
Agree-other l rest c w h s p m = ground (arith, levels_valid_spoiled l rest c h (inr (p, m)))

Agree-plus :
    (l rest : Bytes) (w : Bool)
    → (at_level_end rest ≡ true → Agree single_level true rest)
    → Agree l w (b'+' ∷ rest)
unfolding filter_bytes_valid split_levels_from
Agree-plus (x ∷ l) rest w next =
    ground (arith, levels_valid_spoiled (x ∷ l) rest b'+' refl (inl refl))
Agree-plus [] [] w next = ground (arith, next refl)
Agree-plus [] (d ∷ rest) w next = elim (Bool-cases (d == b'/')) [
  | inl e ↦ ground (arith, next)
  | inr e ↦ ground (
    arith,
    levels_valid_bad (b'+' ∷ d ∷ []) rest refl (two_ne_one (b'+' ∷ []) d b'+' refl)
        (two_ne_one (b'+' ∷ []) d b'#' refl),
  )
]

Agree-hash : (l rest : Bytes) (w : Bool) → Agree l w (b'#' ∷ rest)
unfolding filter_bytes_valid split_levels_from
Agree-hash (x ∷ l) rest w = ground (arith, levels_valid_spoiled (x ∷ l) rest b'#' refl (inl refl))
Agree-hash [] [] w = unfold bytes_eq in ground arith
Agree-hash [] (d ∷ rest) w = elim (Bool-cases (d == b'/')) [
  | inl e ↦ unfold bytes_eq in ground (arith, is_empty-split [] rest)
  | inr e ↦ ground (
    arith,
    levels_valid_bad (b'#' ∷ d ∷ []) rest refl (two_ne_one (b'#' ∷ []) d b'+' refl)
        (two_ne_one (b'#' ∷ []) d b'#' refl),
  )
]

Agree-step :
    (l rest : Bytes) (c : ℕ) (w : Bool)
    → is_word l ≡ true
    → Agree [] w rest
    → (is_word_byte c ≡ true → Agree (l ++ c ∷ []) w rest)
    → Agree [] true (drop 1 rest)
    → Agree l w (c ∷ rest)
Agree-step l rest c w h cut longer skipped = elim (Bool-cases (c == b'/')) [
  | inl e ↦
      subst (λ x. Agree l w (x ∷ rest)) (sym ((==_iff c b'/').0 e)) (Agree-slash l rest w h cut)
  | inr s ↦ elim (Bool-cases (c == b'+')) [
    | inl e ↦
        subst (λ x. Agree l w (x ∷ rest)) (sym ((==_iff c b'+').0 e))
          (Agree-plus l rest w (λ a. after_plus rest true a skipped))
    | inr p ↦ elim (Bool-cases (c == b'#')) [
      | inl e ↦ subst (λ x. Agree l w (x ∷ rest)) (sym ((==_iff c b'#').0 e)) (Agree-hash l rest w)
      | inr m ↦ elim (Bool-cases (is_word_byte c)) [
        | inl b ↦ Agree-word l rest c w b (longer b)
        | inr b ↦ Agree-other l rest c w b s p m
      ]
    ]
  ]
]

Agree-nil : (l : Bytes) (w : Bool) → is_word l ≡ true → Agree l w []
unfolding filter_bytes_valid split_levels_from
Agree-nil l w h = ground arith

agree : (l s : Bytes) (w : Bool) → is_word l ≡ true → Agree l w s
agree l [] w h = Agree-nil l w h
agree l (c ∷ []) w h =
    Agree-step l [] c w h (Agree-nil [] w refl)
      (λ b. Agree-nil (l ++ c ∷ []) w (ground (arith, is_word-concat l c))) (Agree-nil [] true refl)
agree l (c ∷ d ∷ rest) w h =
    Agree-step l (d ∷ rest) c w h (agree [] (d ∷ rest) w refl)
      (λ b. agree (l ++ c ∷ []) (d ∷ rest) w (ground (arith, is_word-concat l c)))
      (agree [] rest true refl)

-- A filter is accepted exactly when it is not empty, does not begin with '/', each of its levels is
-- a word, perhaps empty, or '+', or, at the end only, '#', and one of these two wildcards occurs. So
-- it may end with '/', and hold both wildcards, which the comment on the function denies.
pub is_valid_topic_filter_levels :
    (s : Bytes)
    → is_valid_topic_filter s
      ≡ (not (at_level_end s) && levels_valid (split_levels s) && has_wildcard s)
unfolding is_valid_topic_filter split_levels
is_valid_topic_filter_levels [] = refl
is_valid_topic_filter_levels (c ∷ rest) = ground (arith, agree [] (c ∷ rest) false refl)

abbrev pub last_level : List Bytes → Bytes
last_level [] = []
last_level (l ∷ []) = l
last_level (l ∷ m ∷ ls) = last_level (m ∷ ls)

last_level-cons :
    (l : Bytes) (ls : List Bytes) → is_empty ls ≡ false → last_level (l ∷ ls) ≡ last_level ls
last_level-cons l [] h = cc
last_level-cons l (m ∷ ls) h = refl

abbrev pub words_to_end : List Bytes → Bool
words_to_end ls = all is_word ls && not (is_empty (last_level ls))

words_bad : (l s : Bytes) → is_word l ≡ false → all is_word (split_levels_from l s) ≡ false
unfolding split_levels_from
words_bad l [] h = ground arith
words_bad l (c ∷ s) h = ground (arith, words_bad (l ++ c ∷ []) s, is_word-concat l c)

split_slash :
    (l : Bytes) (c : ℕ) (s : Bytes)
    → c == b'/' ≡ true
    → split_levels_from l (c ∷ s) ≡ l ∷ split_levels_from [] s
unfolding split_levels_from
split_slash l c s e = ground arith

split_other :
    (l : Bytes) (c : ℕ) (s : Bytes)
    → c == b'/' ≡ false
    → split_levels_from l (c ∷ s) ≡ split_levels_from (l ++ c ∷ []) s
unfolding split_levels_from
split_other l c s e = ground arith

topic_bytes_step :
    (c d : ℕ) (s : Bytes)
    → topic_bytes_valid (c ∷ d ∷ s) ≡ (is_topic_byte c && topic_bytes_valid (d ∷ s))
unfolding topic_bytes_valid
topic_bytes_step c d s = ground arith

topic_bytes_no_wildcard :
    (s : Bytes)
    → topic_bytes_valid s ≡ true
    → (any (λ x. x == b'+') s ≡ false) × (any (λ x. x == b'#') s ≡ false)
unfolding topic_bytes_valid
topic_bytes_no_wildcard [] h = (refl, refl)
topic_bytes_no_wildcard (c ∷ s) h = ground (arith, topic_bytes_no_wildcard s)

any_or : (p q : ℕ → Bool) (l : Bytes) → any (λ x. p x || q x) l ≡ (any p l || any q l)
any_or p q [] = refl
any_or p q (x ∷ l) = ground (arith, any_or p q l)

pub topic_no_wildcard : (s : Bytes) → is_valid_topic s ≡ true → has_wildcard s ≡ false
unfolding is_valid_topic
topic_no_wildcard [] h = refl
topic_no_wildcard (c ∷ s) h = ground (arith, any_or (λ x. x == b'+') (λ x. x == b'#') (c ∷ s))

topic_bytes_agree :
    (l : Bytes) (c : ℕ) (rest : Bytes)
    → is_word l ≡ true
    → topic_bytes_valid (c ∷ rest) ≡ words_to_end (split_levels_from l (c ∷ rest))
unfolding topic_bytes_valid split_levels_from
topic_bytes_agree l c [] h = ground (arith, is_word-concat l c, is_empty-concat l c)
topic_bytes_agree l c (d ∷ rest) h = elim (Bool-cases (c == b'/')) [
  | inl e ↦
      rw (split_slash l c (d ∷ rest) e, topic_bytes_step c d rest)
        (ground (
          arith,
          topic_bytes_agree [] d rest refl,
          last_level-cons l (split_levels_from [] (d ∷ rest)) (is_empty-split [] (d ∷ rest)),
        ))
  | inr e ↦
      rw (split_other l c (d ∷ rest) e, topic_bytes_step c d rest)
        (ground (
          arith,
          topic_bytes_agree (l ++ c ∷ []) d rest,
          is_word-concat l c,
          words_bad (l ++ c ∷ []) (d ∷ rest),
        ))
]

-- A topic is accepted exactly when each of its levels is a word, and neither the first nor the last
-- is empty: the topic is not empty and neither begins nor ends with '/'.
pub is_valid_topic_levels :
    (s : Bytes) → is_valid_topic s ≡ (not (at_level_end s) && words_to_end (split_levels s))
unfolding is_valid_topic split_levels
is_valid_topic_levels [] = refl
is_valid_topic_levels (c ∷ rest) =
    ground (arith, topic_bytes_agree [] c rest refl, topic_bytes_no_wildcard (c ∷ rest))

-- No text is both: with `isValidTopicOrFilter` a subscription is to a topic or to a filter.
pub topic_or_filter_disjoint :
    (s : Bytes) → is_valid_topic s ≡ true → is_valid_topic_filter s ≡ false
topic_or_filter_disjoint s h =
    rw (is_valid_topic_filter_levels s) (ground (arith, topic_no_wildcard s h))
