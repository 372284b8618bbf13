-- ===== src/Topics/Matching.antt =====
-- What `isFilterMatched` of src/TopicManager.cpp decides.
use eventhub.Prelude.{
  ℕ, ◌≡◌, ◌≢◌, ◌↔◌, ◌⊎◌, inl, inr, refl, sym, ap, ◌∙◌, Bool, true, false, ◌||◌, List, [], ◌∷◌, ◌++◌,
  ◌==◌, arith, Bytes, append-nil, All, any, drop, subst, Bool-cases, bytes_eq, bytes_eq_iff,
}
use eventhub.Topics.{
  split_levels, levels_matched, is_filter_matched, is_valid_topic, multi_level, single_level,
}
use eventhub.Topics.Validity.{topic_no_wildcard}
use eventhub.Topics.Levels.{
  slashed, split_levels-injective, split_levels_from-lacks, split_levels-append, slashed-append,
  slashed-split_levels,
}

-- The MQTT reading of a filter, level by level: '#' takes all that is left, also nothing; '+' takes
-- one level, whatever it is; any other level takes itself.
pub data Matches : List Bytes → List Bytes → Type 0 where
  end : Matches [] []
  multi : {f : Bytes} {fs ts : List Bytes} → f ≡ multi_level → Matches (f ∷ fs) ts
  single :
      {f t : Bytes} {fs ts : List Bytes}
      → f ≡ single_level
      → Matches fs ts
      → Matches (f ∷ fs) (t ∷ ts)
  exact : {f t : Bytes} {fs ts : List Bytes} → f ≡ t → Matches fs ts → Matches (f ∷ fs) (t ∷ ts)

levels_matched_sound : (fs ts : List Bytes) → levels_matched fs ts ≡ true → Matches fs ts
unfolding levels_matched
levels_matched_sound [] [] h = end
levels_matched_sound [] (t ∷ ts) h = cc
levels_matched_sound (f ∷ fs) [] h = multi ((bytes_eq_iff f multi_level).0 h)
levels_matched_sound (f ∷ fs) (t ∷ ts) h = elim (Bool-cases (bytes_eq f multi_level)) [
  | inl e ↦ multi ((bytes_eq_iff f multi_level).0 e)
  | inr ne ↦ elim (Bool-cases (bytes_eq f single_level)) [
    | inl e ↦ single ((bytes_eq_iff f single_level).0 e) (levels_matched_sound fs ts (ground arith))
    | inr nf ↦
        exact ((bytes_eq_iff f t).0 (ground arith)) (levels_matched_sound fs ts (ground arith))
  ]
]

levels_matched_complete : {fs ts : List Bytes} → Matches fs ts → levels_matched fs ts ≡ true
unfolding levels_matched
levels_matched_complete end = refl
levels_matched_complete (multi {f} {fs} {ts = []} e) = (bytes_eq_iff f multi_level).1 e
levels_matched_complete (multi {f} {fs} {ts = t ∷ ts} e) =
    rw ((bytes_eq_iff f multi_level).1 e, levels_matched)
levels_matched_complete (single {f} {t} {fs} {ts} e m) =
    ground (arith, bytes_eq_iff f single_level, levels_matched_complete m)
levels_matched_complete (exact {f} {t} {fs} {ts} e m) =
    ground (arith, bytes_eq_iff f t, levels_matched_complete m)

-- `isFilterMatched` decides the level by level reading of the filter.
pub is_filter_matched_iff :
    (f t : Bytes) → (is_filter_matched f t ≡ true) ↔ Matches (split_levels f) (split_levels t)
unfolding is_filter_matched
is_filter_matched_iff f t = (levels_matched_sound _ _, levels_matched_complete)

abbrev is_wild : ℕ → Bool
is_wild x = x == b'+' || x == b'#'

abbrev IsPlain : Bytes → Type 0
IsPlain l = any is_wild l ≡ false

plain-ne : (l : Bytes) → IsPlain l → (l ≢ multi_level) × (l ≢ single_level)
plain-ne l h = (λ e. cc (rw e at h), λ e. cc (rw e at h))

-- Plain levels in front of a pattern take themselves.
Matches-plain :
    (fs gs ts : List Bytes)
    → All IsPlain fs
    → Matches (fs ++ gs) ts
    → (us : List Bytes) × (ts ≡ fs ++ us) × Matches gs us
Matches-plain [] gs ts h m = (ts, refl, m)
Matches-plain (f ∷ fs) gs ts h (multi e) = absurd ((plain-ne f h.0).0 e)
Matches-plain (f ∷ fs) gs _ h (single e m) = absurd ((plain-ne f h.0).1 e)
Matches-plain (f ∷ fs) gs _ h (exact {t = t} {ts = ts} e m) =
    let (us, p, n) = Matches-plain fs gs ts h.1 m in (us, cc, n)

Matches-append :
    (fs : List Bytes) {gs us : List Bytes} → Matches gs us → Matches (fs ++ gs) (fs ++ us)
Matches-append [] m = m
Matches-append (f ∷ fs) m = exact refl (Matches-append fs m)

split_levels-IsPlain : (f : Bytes) → is_valid_topic f ≡ true → All IsPlain (split_levels f)
unfolding split_levels
split_levels-IsPlain f v = split_levels_from-lacks is_wild [] f refl (topic_no_wildcard f v)

Matches-nil : {ts : List Bytes} → Matches [] ts → ts ≡ []
Matches-nil end = refl

-- A valid topic, used as a filter, matches itself and nothing else.
is_filter_matched_topic :
    (f t : Bytes) → is_valid_topic f ≡ true → (is_filter_matched f t ≡ true) ↔ (f ≡ t)
is_filter_matched_topic f t v = (
  λ h.
      let m : Matches (split_levels f ++ []) (split_levels t) =
        rw append-nil ((is_filter_matched_iff f t).0 h) in
      let (us, e, n) = Matches-plain (split_levels f) [] _ (split_levels-IsPlain f v) m in
      split_levels-injective f t
        (sym (append-nil _) ∙ sym (e ∙ ap (◌++◌ (split_levels f)) (Matches-nil n))),
  λ e. (is_filter_matched_iff f t).1 (
      subst (λ x. Matches (split_levels f) (split_levels x)) e
        (subst (λ l. Matches l l) (append-nil (split_levels f))
          (Matches-append (split_levels f) end))),
)

-- `p` itself, or `p`, a '/' and something more.
abbrev pub IsBelow : Bytes → Bytes → Type 0
IsBelow p t = (t ≡ p) ⊎ ((rest : Bytes) × (t ≡ p ++ b'/' ∷ rest))

IsBelow-of_levels :
    (p t : Bytes) (us : List Bytes) → split_levels t ≡ split_levels p ++ us → IsBelow p t
IsBelow-of_levels p t [] e = inl (split_levels-injective t p (e ∙ append-nil _))
IsBelow-of_levels p t (u ∷ us) e = inr (
  u ++ slashed us,
  ap (drop 1) (
      sym (slashed-split_levels t)
      ∙ ap slashed e
      ∙ slashed-append (split_levels p) (u ∷ us)
      ∙ ap (λ x. x ++ slashed (u ∷ us)) (slashed-split_levels p)),
)

levels-of_below :
    (p t : Bytes) → IsBelow p t → (us : List Bytes) × (split_levels t ≡ split_levels p ++ us)
levels-of_below p t (inl e) = ([], ap split_levels e ∙ sym (append-nil _))
levels-of_below p t (inr (rest, e)) =
    (split_levels rest, ap split_levels e ∙ split_levels-append p rest)

split_levels_hash : split_levels multi_level ≡ multi_level ∷ []
unfolding split_levels
split_levels_hash = refl

Matches-hash_intro : (us : List Bytes) → Matches (multi_level ∷ []) us
Matches-hash_intro us = multi refl

-- For a valid topic `p` the filter `p/#` matches `p` and all below it, and nothing else.
pub is_filter_matched-IsBelow :
    (p t : Bytes)
    → is_valid_topic p ≡ true
    → (is_filter_matched (p ++ b'/' ∷ multi_level) t ≡ true) ↔ IsBelow p t
is_filter_matched-IsBelow p t v = (
  λ h.
      let m =
        rw (split_levels-append p multi_level) at
          ((is_filter_matched_iff (p ++ b'/' ∷ multi_level) t).0 h) in
      let (us, e, n) =
        Matches-plain (split_levels p) (split_levels multi_level) _ (split_levels-IsPlain p v) m in
      IsBelow-of_levels p t us e,
  λ b.
      let (us, e) = levels-of_below p t b in
      (is_filter_matched_iff (p ++ b'/' ∷ multi_level) t).1 (
        rw (split_levels-append p multi_level, e, split_levels_hash)
          (Matches-append (split_levels p) (Matches-hash_intro us))),
)
