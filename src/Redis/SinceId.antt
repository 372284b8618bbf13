-- ===== src/Redis/SinceId.antt =====
-- Which events `getCacheSinceId` of src/Redis.cpp returns.
use eventhub.Prelude.{
  ℕ, suc, ◌+◌, ◌%◌, ◌≡◌, ◌<◌, ◌^◌, refl, ap, ◌∙◌, Bool, true, false, not, ◌&&◌, ◌||◌, List, [], ◌∷◌,
  ◌++◌, map, Option, none, some, if◌then◌else◌, ltb, leb, ◌==◌, Bytes, filter, All, all, length,
  length-append, drop, is_empty, is_digit, decimal, digits-all_digit, stoull, stoull-decimal,
  take_until, arith, if_false,
}
use eventhub.Redis.Server.{Run, RedisServer, or_throw, ◌>>=◌}
use eventhub.Redis.{
  RedisConfig, CacheItem, signed_lt, split_id_and_seq, since_id_step, after_since_id,
  get_cache_since, get_cache_since_id, caught,
}

-- A cached event, and its id as `getNextCacheId` prints it.
pub record Event : Type 0 where
  pub timestamp : ℕ
  pub seq_no : ℕ
  pub topic : Bytes
  pub message : Bytes
  pub origin : Bytes

abbrev pub id_text : ℕ → ℕ → Bytes
id_text timestamp seq_no = decimal timestamp ++ b'-' ∷ decimal seq_no

abbrev pub cached : Event → CacheItem
cached e = record {
  id = id_text e.timestamp e.seq_no;
  topic = e.topic;
  message = e.message;
  origin = e.origin;
}

-- The numbers of the ids are positive values of a `long long`.
abbrev pub InRange : Event → Type 0
InRange e = (e.timestamp < 2 ^ 63) × (e.seq_no < 2 ^ 63)

abbrev pub is_event : ℕ → ℕ → Event → Bool
is_event timestamp seq_no e = e.timestamp == timestamp && e.seq_no == seq_no

abbrev pub is_later : ℕ → ℕ → Event → Bool
is_later timestamp seq_no e =
    ltb timestamp e.timestamp || (e.timestamp == timestamp && ltb seq_no e.seq_no)

-- The event asked for is among the events, and no later one stands in front of it.
abbrev pub leads : ℕ → ℕ → List Event → Bool
leads timestamp seq_no [] = false
leads timestamp seq_no (e ∷ events) =
    is_event timestamp seq_no e
    || (not (is_later timestamp seq_no e) && leads timestamp seq_no events)

-- Not the event asked for, nor one before it in its millisecond.
abbrev pub is_kept : ℕ → ℕ → Event → Bool
is_kept timestamp seq_no e = not (e.timestamp == timestamp && leb e.seq_no seq_no)

take_until-digits : (s t : Bytes) → all is_digit s ≡ true → take_until b'-' (s ++ b'-' ∷ t) ≡ s
unfolding take_until
take_until-digits [] t h = refl
take_until-digits (c ∷ s) t h = ground (arith, take_until-digits s t)

drop_behind : (s t : Bytes) (c : ℕ) → drop (length s + 1) (s ++ c ∷ t) ≡ t
drop_behind [] t c = refl
drop_behind (x ∷ s) t c =
    ap (λ n. drop n (x ∷ (s ++ c ∷ t)))
      (let e : suc (length s) + 1 ≡ suc (length s + 1) = omega arith in e)
    ∙ drop_behind s t c

split_text :
    (head whole tail : Bytes) (t q : ℕ)
    → take_until b'-' whole ≡ head
    → (length head == length whole || length head == 0) ≡ false
    → drop (length head + 1) whole ≡ tail
    → stoull head ≡ some t
    → stoull tail ≡ some q
    → split_id_and_seq whole ≡ some (t, q)
unfolding split_id_and_seq
split_text head whole tail t q h l d a b = rw (h, l, a, h, d, b) refl

has_number : {n : ℕ} (s : Bytes) → stoull s ≡ some n → 0 < length s
unfolding stoull
has_number [] h = absurd (ground arith)
has_number (c ∷ s) h = omega arith

decimal-nonempty : (n : ℕ) → n < 2 ^ 64 → 0 < length (decimal n)
decimal-nonempty n h = has_number (decimal n) (stoull-decimal n h)

-- The id of an event is read back.
split_id_and_seq-id_text :
    (t q : ℕ) → t < 2 ^ 63 → q < 2 ^ 63 → split_id_and_seq (id_text t q) ≡ some (t, q)
split_id_and_seq-id_text t q h k =
    split_text (decimal t) (id_text t q) (decimal q) t q
      (take_until-digits (decimal t) (decimal q) (digits-all_digit (t + 1) t))
      (ground
        (arith, decimal-nonempty t (omega arith), length-append (decimal t) (b'-' ∷ decimal q)))
      (drop_behind (decimal t) (decimal q) b'-') (stoull-decimal t (omega arith))
      (stoull-decimal q (omega arith))

signed_lt_small : (a b : ℕ) → a < 2 ^ 63 → b < 2 ^ 63 → signed_lt a b ≡ ltb a b
unfolding signed_lt
signed_lt_small a b h k =
    let x : (a + 2 ^ 63) % 2 ^ 64 ≡ a + 2 ^ 63 = omega arith in
    let y : (b + 2 ^ 63) % 2 ^ 64 ≡ b + 2 ^ 63 = omega arith in ground (arith, x, y)

module _ (timestamp seq_no : ℕ) (t_small : timestamp < 2 ^ 63) (q_small : seq_no < 2 ^ 63) where
  abbrev answer : Bool → List Event → Option (List CacheItem)
  answer found events =
      if found || leads timestamp seq_no events
      then some (map cached (filter (is_kept timestamp seq_no) events))
      else none

  since_id_step_lem :
      (e : Event) (events : List Event) (found : Bool) (loop : Bool → Option (List CacheItem))
      → InRange e
      → ((f : Bool) → loop f ≡ answer f events)
      → since_id_step timestamp seq_no (cached e) found loop (some (e.timestamp, e.seq_no))
        ≡ answer found (e ∷ events)
  unfolding since_id_step
  since_id_step_lem e events found loop r ih =
      let a = signed_lt_small timestamp e.timestamp t_small r.0 in
      let b = signed_lt_small seq_no e.seq_no q_small r.1 in ground (arith, a, b, ih true, ih found)

  after_since_id_lem :
      (events : List Event) (found : Bool)
      → All InRange events
      → after_since_id timestamp seq_no found (map cached events) ≡ answer found events
  unfolding after_since_id
  after_since_id_lem [] true r = refl
  after_since_id_lem [] false r = refl
  after_since_id_lem (e ∷ events) found r =
      ap
        (since_id_step timestamp seq_no (cached e) found
          (λ f. after_since_id timestamp seq_no f (map cached events)))
        (split_id_and_seq-id_text e.timestamp e.seq_no r.0.0 r.0.1)
      ∙ since_id_step_lem e events found
          (λ f. after_since_id timestamp seq_no f (map cached events)) r.0
          (λ f. after_since_id_lem events f r.1)

-- The events that `getCacheSinceId` returns for an id.
abbrev pub events_since : ℕ → ℕ → List Event → List CacheItem
events_since timestamp seq_no events =
    if leads timestamp seq_no events
    then map cached (filter (is_kept timestamp seq_no) events)
    else []

module _ {S : Type 0} (redis : RedisServer S) (config : RedisConfig) where
  caught-answer :
      (b : Bool) (kept : List CacheItem) (s : S)
      → caught redis config (or_throw (if b then some kept else none) s)
        ≡ (some (if b then kept else []), s)
  unfolding caught
  caught-answer true kept s = refl
  caught-answer false kept s = refl

  -- What is done with the cached events.
  finish : ℕ → ℕ → List CacheItem → Run S (List CacheItem)
  finish timestamp seq_no items =
      or_throw (if is_empty items then some [] else after_since_id timestamp seq_no false items)

  caught-finish :
      (timestamp seq_no : ℕ) (events : List Event) (s : S)
      → timestamp < 2 ^ 63
      → seq_no < 2 ^ 63
      → All InRange events
      → caught redis config (finish timestamp seq_no (map cached events) s)
        ≡ (some (events_since timestamp seq_no events), s)
  unfolding caught finish
  caught-finish timestamp seq_no [] s t q r = refl
  caught-finish timestamp seq_no (e ∷ events) s t q r =
      ap (λ o. caught redis config (or_throw o s))
        (after_since_id_lem timestamp seq_no t q (e ∷ events) false r)
      ∙ caught-answer (leads timestamp seq_no (e ∷ events))
          (map cached (filter (is_kept timestamp seq_no) (e ∷ events))) s

  -- What `getCacheSinceId` returns for the id of an event, where `getCacheSince` finds cached events
  -- with ids within the range of a `long long`, from the time of this one on: if it is among them and
  -- no later one stands in front of it, all of them in their order, but it and those before it in its
  -- millisecond; else none.
  pub get_cache_since_id_lem :
      (now limit timestamp seq_no : ℕ) (pattern : Bytes) (is_pattern : Bool) (events : List Event)
      (s s' : S)
      → config.enable_cache ≡ true
      → 0 < timestamp
      → timestamp < 2 ^ 63
      → seq_no < 2 ^ 63
      → All InRange events
      → get_cache_since redis config now pattern timestamp limit is_pattern s
        ≡ (some (map cached events), s')
      → get_cache_since_id redis config now pattern (id_text timestamp seq_no) limit is_pattern s
        ≡ (some (events_since timestamp seq_no events), s')
  unfolding get_cache_since_id finish
  get_cache_since_id_lem now limit timestamp seq_no pattern is_pattern events s s' c p t q r g =
      let P = λ (z : Option (List CacheItem) × S).
        z ≡ (some (events_since timestamp seq_no events), s') in
      let run = λ (t q : ℕ).
        caught redis config
          ((get_cache_since redis config now pattern t limit is_pattern >>= finish t q) s) in
      ap
        (λ o.
          if not config.enable_cache
          then (some [], s)
          else elim o as (λ _. Option (List CacheItem) × S) [
            | none ↦ (some [], s)
            | some x ↦ if x.0 == 0 then (some [], s) else run x.0 x.1
          ])
        (split_id_and_seq-id_text timestamp seq_no t q)
      ∙ if_false P (not config.enable_cache) _ _ (ap not c) (
          if_false P (timestamp == 0) _ _ (ground arith) (
            ap (λ z. caught redis config (((λ _. z) >>= finish timestamp seq_no) s)) g
            ∙ caught-finish timestamp seq_no events s' t q r))
