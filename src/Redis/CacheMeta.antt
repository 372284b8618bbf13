-- ===== src/Redis/CacheMeta.antt =====
-- `CacheItemMeta` of src/Redis.cpp: the member of a topic's score set, "<id>:<expireAt>[:<origin>]".
use eventhub.Prelude.{
  ℕ, ◌+◌, ◌≡◌, ◌<◌, ◌^◌, refl, true, false, [], ◌∷◌, ◌++◌, if◌then◌else◌, ◌==◌, ltb, is_empty,
  Bytes, Option, none, some, any, all, is_digit, digits-all_digit, stoull-decimal, arith, stoull,
  decimal, append_assoc, append-nil, Bool-cases, if_true, if_false, ◌∙◌, ap, sym, inl, inr,
}

pub record CacheItemMeta : Type 0 where
  pub id : Bytes
  pub expire_at : ℕ
  pub origin : Bytes

unfoldable pub to_str : CacheItemMeta → Bytes
to_str m =
    if is_empty m.origin
    then m.id ++ b':' ∷ decimal m.expire_at
    else m.id ++ b':' ∷ (decimal m.expire_at ++ b':' ∷ m.origin)

-- The loop of the constructor: the number of ':' seen, and the three texts so far.
unfoldable pub scan_meta : ℕ → Bytes → Bytes → Bytes → Bytes → ℕ × Bytes × Bytes × Bytes
scan_meta j id expire_at_str origin [] = (j, id, expire_at_str, origin)
scan_meta j id expire_at_str origin (c ∷ s) =
    if c == b':'
    then scan_meta (j + 1) id expire_at_str origin s
    else scan_meta j (if j == 0 then id ++ c ∷ [] else id)
        (if j == 1 then expire_at_str ++ c ∷ [] else expire_at_str)
        (if j == 2 then origin ++ c ∷ [] else origin) s

unfoldable pub finish_meta : ℕ × Bytes × Bytes × Bytes → Option CacheItemMeta
unfolding stoull
finish_meta (j, id, expire_at_str, origin) = if ltb j 1 then none else elim (stoull expire_at_str) [
  | none ↦ none
  | some n ↦ some record { id = id; expire_at = n; origin = origin }
]

-- The constructor; none is an exception.
unfoldable pub from_str : Bytes → Option CacheItemMeta
unfolding scan_meta finish_meta
from_str s = finish_meta (scan_meta 0 [] [] [] s)

if_twice :
    (j k : ℕ) (a : Bytes) (x : ℕ) (s : Bytes)
    → (if j == k
        then (if j == k then a ++ x ∷ [] else a) ++ s
        else (if j == k then a ++ x ∷ [] else a))
      ≡ (if j == k then a ++ x ∷ s else a)
if_twice j k a x s = elim (Bool-cases (j == k)) [
  | inl e ↦ rw e (append_assoc a (x ∷ []) s)
  | inr e ↦ rw e refl
]

scan_meta_cong :
    (j : ℕ) (a b c a' b' c' t : Bytes)
    → a ≡ a'
    → b ≡ b'
    → c ≡ c'
    → scan_meta j a b c t ≡ scan_meta j a' b' c' t
scan_meta_cong j a b c a' b' c' t p q r = cc

scan_meta-append :
    (j : ℕ) (a b c s t : Bytes)
    → any (λ x. x == b':') s ≡ false
    → scan_meta j a b c (s ++ t)
      ≡ scan_meta j
          (if j == 0 then a ++ s else a)
          (if j == 1 then b ++ s else b)
          (if j == 2 then c ++ s else c)
          t
unfolding scan_meta
scan_meta-append j a b c [] t h = ground (arith, append-nil a, append-nil b, append-nil c)
scan_meta-append j a b c (x ∷ s) t h = elim (Bool-cases (x == b':')) [
  | inl e ↦ absurd (ground arith)
  | inr e ↦
      if_false
        (λ r.
          r
          ≡ scan_meta j (if j == 0 then a ++ x ∷ s else a) (if j == 1 then b ++ x ∷ s else b)
              (if j == 2 then c ++ x ∷ s else c) t)
        (x == b':') _ _ e
        (scan_meta-append j (if j == 0 then a ++ x ∷ [] else a) (if j == 1 then b ++ x ∷ [] else b)
            (if j == 2 then c ++ x ∷ [] else c) s t (ground arith)
          ∙ scan_meta_cong j _ _ _ _ _ _ t (if_twice j 0 a x s) (if_twice j 1 b x s)
              (if_twice j 2 c x s))
]

digit_lacks_colon : (s : Bytes) → all is_digit s ≡ true → any (λ x. x == b':') s ≡ false
digit_lacks_colon [] h = refl
digit_lacks_colon (x ∷ s) h = ground (arith, digit_lacks_colon s)

is_empty-eq : (s : Bytes) → is_empty s ≡ true → s ≡ []
is_empty-eq [] h = refl
is_empty-eq (x ∷ s) h = absurd (ground arith)

-- The first two texts of a member, and what is left to scan.
scan_meta_two :
    (id expire_at_str t : Bytes)
    → any (λ x. x == b':') id ≡ false
    → any (λ x. x == b':') expire_at_str ≡ false
    → scan_meta 0 [] [] [] (id ++ b':' ∷ (expire_at_str ++ t)) ≡ scan_meta 1 id expire_at_str [] t
unfolding scan_meta
scan_meta_two id expire_at_str t h k =
    scan_meta-append 0 [] [] [] id (b':' ∷ (expire_at_str ++ t)) h
    ∙ scan_meta-append 1 id [] [] expire_at_str t k

finish_meta-decimal :
    (j : ℕ) (m : CacheItemMeta)
    → ltb j 1 ≡ false
    → m.expire_at < 2 ^ 64
    → finish_meta (j, m.id, decimal m.expire_at, m.origin) ≡ some m
unfolding finish_meta
finish_meta-decimal j m h t = rw (h, stoull-decimal m.expire_at t) refl

-- The meta data of a cached message are read back from the text that holds them, if neither the id
-- nor the origin has a ':' and the time is one of 64 bits.
pub from_str-to_str :
    (m : CacheItemMeta)
    → any (λ x. x == b':') m.id ≡ false
    → any (λ x. x == b':') m.origin ≡ false
    → m.expire_at < 2 ^ 64
    → from_str (to_str m) ≡ some m
unfolding from_str to_str scan_meta
from_str-to_str m i o t =
    let d =
      digit_lacks_colon (decimal m.expire_at) (digits-all_digit (m.expire_at + 1) m.expire_at) in
    elim (Bool-cases (is_empty m.origin)) [
      | inl e ↦
          if_true (λ s. from_str s ≡ some m) _ _ _ e
            (ap (λ s. from_str (m.id ++ b':' ∷ s)) (sym (append-nil (decimal m.expire_at)))
              ∙ ap finish_meta (
                  scan_meta_two m.id (decimal m.expire_at) [] i d
                  ∙ ap (λ z. (1, m.id, decimal m.expire_at, z)) (sym (is_empty-eq m.origin e)))
              ∙ finish_meta-decimal 1 m refl t)
      | inr e ↦
          if_false (λ s. from_str s ≡ some m) _ _ _ e
            (ap finish_meta (
                scan_meta_two m.id (decimal m.expire_at) (b':' ∷ m.origin) i d
                ∙ ap (scan_meta 2 m.id (decimal m.expire_at) []) (sym (append-nil m.origin))
                ∙ scan_meta-append 2 m.id (decimal m.expire_at) [] m.origin [] o)
              ∙ finish_meta-decimal 2 m refl t)
    ]
