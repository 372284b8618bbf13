-- ===== src/AccessController/RateLimits.antt =====
-- Which limit holds for a topic, after `getRateLimitForTopic` of src/AccessController.cpp.
use eventhub.Prelude.{
  ℕ, ◌<◌, ◌≤◌, ◌≡◌, refl, ◌∙◌, true, false, ◌&&◌, ◌⊎◌, inl, inr, List, [], ◌∷◌, if◌then◌else◌,
  Bytes, bytes_eq, bytes_eq_iff, ltb, Option, none, some, length, arith, Bool-cases, All, Any,
}
use eventhub.Topics.{is_filter_matched}
use eventhub.AccessController.{RlimitConfig, find_rate_limit, get_rate_limit_for_topic}

-- The limit's topic is the topic itself.
abbrev pub IsExact : Bytes → RlimitConfig → Type 0
IsExact topic limit = bytes_eq limit.topic topic ≡ true

abbrev pub Applies : Bytes → RlimitConfig → Type 0
Applies topic limit =
    (bytes_eq limit.topic topic ≡ true) ⊎ (is_filter_matched limit.topic topic ≡ true)

-- No filter of the list that matches is longer than n.
abbrev pub Bounded : Bytes → ℕ → List RlimitConfig → Type 0
Bounded topic n = All (λ limit. is_filter_matched limit.topic topic ≡ true → length limit.topic ≤ n)

Any-weaken :
    {P Q : RlimitConfig → Type 0} (limits : List RlimitConfig)
    → ((l : RlimitConfig) → P l → Q l)
    → Any P limits
    → Any Q limits
Any-weaken [] f h = elim h [ ]
Any-weaken (l ∷ ls) f (inl p) = inl (f l p)
Any-weaken (l ∷ ls) f (inr p) = inr (Any-weaken ls f p)

find_rate_limit-next :
    (limit : RlimitConfig) (limits : List RlimitConfig) (found : Option RlimitConfig) (n : ℕ)
    (topic : Bytes)
    → bytes_eq limit.topic topic ≡ false
    → find_rate_limit (limit ∷ limits) found n topic
      ≡ find_rate_limit limits
          (if is_filter_matched limit.topic topic && ltb n (length limit.topic)
            then some limit
            else found)
          (if is_filter_matched limit.topic topic && ltb n (length limit.topic)
            then length limit.topic
            else n)
          topic
unfolding find_rate_limit
find_rate_limit-next limit limits found n topic e = rw e refl

-- A limit that names the topic itself is the one found, whatever stands before it and however long.
find_rate_limit-IsExact :
    (limits : List RlimitConfig) (found : Option RlimitConfig) (n : ℕ) (topic : Bytes)
    → Any (IsExact topic) limits
    → (r : RlimitConfig) × ((find_rate_limit limits found n topic ≡ some r) × IsExact topic r)
unfolding find_rate_limit
find_rate_limit-IsExact [] found n topic h = elim h [ ]
find_rate_limit-IsExact (l ∷ ls) found n topic h = elim (Bool-cases (bytes_eq l.topic topic)) [
  | inl e ↦ (l, (rw e refl, e))
  | inr e ↦ elim h [
    | inl p ↦ absurd (ground arith)
    | inr p ↦
        (let rest =
            find_rate_limit-IsExact ls
              (if is_filter_matched l.topic topic && ltb n (length l.topic) then some l else found)
              (if is_filter_matched l.topic topic && ltb n (length l.topic)
                then length l.topic
                else n)
              topic p in
          (rest.0, (find_rate_limit-next l ls found n topic e ∙ rest.1.0, rest.1.1)))
  ]
]

-- A limit that names the topic itself takes precedence over every filter.
pub exact_limit_first :
    (limits : List RlimitConfig) (topic : Bytes)
    → Any (λ limit. limit.topic ≡ topic) limits
    → (r : RlimitConfig) × ((get_rate_limit_for_topic limits topic ≡ some r) × (r.topic ≡ topic))
unfolding get_rate_limit_for_topic
exact_limit_first limits topic h =
    let r =
      find_rate_limit-IsExact limits none 0 topic
        (Any-weaken limits (λ l p. (bytes_eq_iff l.topic topic).1 p) h) in
    (r.0, (r.1.0, (bytes_eq_iff (r.0.topic) topic).0 r.1.1))

-- The filter found is the longest that matches.
find_rate_limit_longest :
    (limits : List RlimitConfig) (found : Option RlimitConfig) (n : ℕ) (topic : Bytes)
    → All (λ limit. bytes_eq limit.topic topic ≡ false) limits
    → ((find_rate_limit limits found n topic ≡ found) × Bounded topic n limits)
      ⊎ ((r : RlimitConfig) × ((find_rate_limit limits found n topic ≡ some r)
            × (Any (λ limit. limit ≡ r) limits
                × ((is_filter_matched r.topic topic ≡ true)
                    × ((n < length r.topic) × Bounded topic (length r.topic) limits)))))
unfolding find_rate_limit
find_rate_limit_longest [] found n topic h = inl (refl, tt)
find_rate_limit_longest (l ∷ ls) found n topic (h, hs) =
    elim (Bool-cases (is_filter_matched l.topic topic && ltb n (length l.topic))) [
      | inl e ↦
          rw (h, e)
            (elim (find_rate_limit_longest ls (some l) (length l.topic) topic hs) [
              | inl (f, b) ↦
                  inr (l, (f, (inl refl, (ground arith, (ground arith, (λ m. omega arith, b))))))
              | inr (r, (f, (i, (m, (lt, b))))) ↦
                  inr (r, (f, (inr i, (m, (ground arith, (λ m'. omega arith, b))))))
            ])
      | inr e ↦
          rw (h, e)
            (elim (find_rate_limit_longest ls found n topic hs) [
              | inl (f, b) ↦ inl (f, (λ m. ground arith, b))
              | inr (r, (f, (i, (m, (lt, b))))) ↦
                  inr (r, (f, (inr i, (m, (lt, (λ m'. ground arith, b))))))
            ])
    ]

-- Where no limit names the topic itself, the limit found is one of the list, its filter matches the
-- topic, and no matching filter of the list is longer; if there is none found, every matching
-- filter of the list is empty.
pub longest_limit :
    (limits : List RlimitConfig) (topic : Bytes)
    → All (λ limit. bytes_eq limit.topic topic ≡ false) limits
    → ((get_rate_limit_for_topic limits topic ≡ none) × Bounded topic 0 limits)
      ⊎ ((r : RlimitConfig) × ((get_rate_limit_for_topic limits topic ≡ some r)
            × (Any (λ limit. limit ≡ r) limits
                × ((is_filter_matched r.topic topic ≡ true)
                    × ((0 < length r.topic) × Bounded topic (length r.topic) limits)))))
unfolding get_rate_limit_for_topic
longest_limit limits topic h = find_rate_limit_longest limits none 0 topic h
