-- ===== src/Topics/Levels.antt =====
-- What `splitLevels` of src/TopicManager.cpp returns: the pieces between the '/'.
use eventhub.Prelude.{
  ℕ, ◌≡◌, refl, sym, ap, ◌∙◌, Bool, false, List, [], ◌∷◌, ◌++◌, ◌==◌, arith, Bytes, append_assoc,
  All, any, any-append, drop, Bool-cases, inl, inr, ==_iff,
}
use eventhub.Topics.{split_levels_from, split_levels}

-- Each level with a '/' in front.
abbrev pub slashed : List Bytes → Bytes
slashed [] = []
slashed (l ∷ ls) = b'/' ∷ (l ++ slashed ls)

abbrev pub join_levels : List Bytes → Bytes
join_levels ls = drop 1 (slashed ls)

slashed-split_levels_from :
    (current s : Bytes) → slashed (split_levels_from current s) ≡ b'/' ∷ (current ++ s)
unfolding split_levels_from
slashed-split_levels_from current [] = refl
slashed-split_levels_from current (c ∷ rest) = elim (Bool-cases (c == b'/')) [
  | inl e ↦ rw (e, split_levels_from) (rw (slashed-split_levels_from [] rest, (==_iff c b'/').0 e))
  | inr e ↦
      rw (e, split_levels_from)
        (slashed-split_levels_from (current ++ c ∷ []) rest ∙ rw append_assoc)
]

-- Joining the levels of a text by '/' gives the text back.
pub join_levels-split_levels : (s : Bytes) → join_levels (split_levels s) ≡ s
unfolding split_levels
join_levels-split_levels s = ap (drop 1) (slashed-split_levels_from [] s)

pub split_levels-injective : (s t : Bytes) → split_levels s ≡ split_levels t → s ≡ t
split_levels-injective s t e =
    sym (join_levels-split_levels s) ∙ ap join_levels e ∙ join_levels-split_levels t

-- A byte that the text lacks is in no level.
pub split_levels_from-lacks :
    (p : ℕ → Bool) (current s : Bytes)
    → any p current ≡ false
    → any p s ≡ false
    → All (λ l. any p l ≡ false) (split_levels_from current s)
unfolding split_levels_from
split_levels_from-lacks p current [] h k = (h, tt)
split_levels_from-lacks p current (c ∷ rest) h k = elim (Bool-cases (c == b'/')) [
  | inl e ↦ rw (e, split_levels_from) (h, split_levels_from-lacks p [] rest refl (ground arith))
  | inr e ↦
      rw (e, split_levels_from)
        (split_levels_from-lacks p (current ++ c ∷ []) rest
          (ground (arith, any-append p current (c ∷ []))) (ground arith))
]

-- A '/' splits a text into the levels before and after it.
split_levels_from-append :
    (current s t : Bytes)
    → split_levels_from current (s ++ b'/' ∷ t) ≡ split_levels_from current s ++ split_levels t
unfolding split_levels_from split_levels
split_levels_from-append current [] t = refl
split_levels_from-append current (c ∷ rest) t = elim (Bool-cases (c == b'/')) [
  | inl e ↦ rw (e, split_levels_from) (ap (◌∷◌ current) (split_levels_from-append [] rest t))
  | inr e ↦ rw (e, split_levels_from) (split_levels_from-append (current ++ c ∷ []) rest t)
]

pub split_levels-append :
    (s t : Bytes) → split_levels (s ++ b'/' ∷ t) ≡ split_levels s ++ split_levels t
unfolding split_levels
split_levels-append s t = split_levels_from-append [] s t

pub slashed-append : (ls ms : List Bytes) → slashed (ls ++ ms) ≡ slashed ls ++ slashed ms
slashed-append [] ms = refl
slashed-append (l ∷ ls) ms =
    ap (◌∷◌ b'/')
      (ap (◌++◌ l) (slashed-append ls ms) ∙ sym (append_assoc l (slashed ls) (slashed ms)))

pub slashed-split_levels : (s : Bytes) → slashed (split_levels s) ≡ b'/' ∷ s
unfolding split_levels
slashed-split_levels s = slashed-split_levels_from [] s
