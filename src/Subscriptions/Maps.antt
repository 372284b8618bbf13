-- ===== src/Subscriptions/Maps.antt =====
-- The maps of src/TopicManager.cpp and src/Connection.cpp by what `find` answers, and the elements of
-- the subscriber lists.
use eventhub.Prelude.{
  ℕ, ◌≡◌, refl, sym, ap, ◌∙◌, Bool, true, false, ◌⊎◌, inl, inr, List, [], ◌∷◌, ◌++◌, none, some,
  if_true, if_false, Bool-cases, ◌==◌, filter, Bytes, bytes_eq, bytes_eq_iff, bytes_eq_refl, arith,
}
use eventhub.Subscriptions.{Subscriber, update}
use eventhub.StringMap.{find, erase}

pub bytes-cases : (f g : Bytes) → (f ≡ g) ⊎ (bytes_eq f g ≡ false)
bytes-cases f g = elim (Bool-cases (bytes_eq f g)) [
  | inl e ↦ inl ((bytes_eq_iff f g).0 e)
  | inr e ↦ inr e
]

pub nat-cases : (a b : ℕ) → (a ≡ b) ⊎ ((a == b) ≡ false)
nat-cases a b = ground arith

pub update_self : {A : Type 0} (a : ℕ) (v : A) (f : ℕ → A) → update a v f a ≡ v
update_self a v f = if_true (λ x. x ≡ v) (a == a) _ _ (ground arith) refl

pub update_other :
    {A : Type 0} (a b : ℕ) (v : A) (f : ℕ → A) → (b == a) ≡ false → update a v f b ≡ f b
update_other a b v f h = if_false (λ x. x ≡ f b) (b == a) _ _ h refl

module _ {A : Type 0} where
  pub find_head : (f : Bytes) (v : A) (m : List (Bytes × A)) → find f ((f, v) ∷ m) ≡ some v
  unfolding find
  find_head f v m = if_true (λ x. x ≡ some v) (bytes_eq f f) _ _ (bytes_eq_refl f) refl

  pub find_tail :
      (f g : Bytes) (v : A) (m : List (Bytes × A))
      → bytes_eq f g ≡ false
      → find g ((f, v) ∷ m) ≡ find g m
  unfolding find
  find_tail f g v m h = if_false (λ x. x ≡ find g m) (bytes_eq f g) _ _ h refl

  -- Each key occurs once.
  abbrev pub HasDistinctKeys : List (Bytes × A) → Type 0
  HasDistinctKeys [] = Unit
  HasDistinctKeys ((k, v) ∷ m) = (find k m ≡ none) × HasDistinctKeys m

  pub find-erase_self : (f : Bytes) (m : List (Bytes × A)) → find f (erase f m) ≡ none
  unfolding find erase
  find-erase_self f [] = refl
  find-erase_self f ((k, v) ∷ m) = ground (arith, find-erase_self f m)

  pub find-erase_other :
      (f g : Bytes) (m : List (Bytes × A)) → bytes_eq f g ≡ false → find g (erase f m) ≡ find g m
  unfolding find erase
  find-erase_other f g [] h = refl
  find-erase_other f g ((k, v) ∷ m) h =
      ground (arith, find-erase_other f g m h, bytes_eq_iff k f, bytes_eq_iff k g, bytes_eq_iff f g)

  pub find-erase-none :
      (f g : Bytes) (m : List (Bytes × A)) → find g m ≡ none → find g (erase f m) ≡ none
  find-erase-none f g m h = elim (bytes-cases f g) [
    | inl e ↦ ap (λ x. find x (erase f m)) (sym e) ∙ find-erase_self f m
    | inr e ↦ find-erase_other f g m e ∙ h
  ]

  pub erase-HasDistinctKeys :
      (f : Bytes) (m : List (Bytes × A)) → HasDistinctKeys m → HasDistinctKeys (erase f m)
  unfolding erase
  erase-HasDistinctKeys f [] h = tt
  erase-HasDistinctKeys f ((k, v) ∷ m) (n, h) = elim (Bool-cases (bytes_eq k f)) [
    | inl e ↦ if_true HasDistinctKeys (bytes_eq k f) _ _ e (erase-HasDistinctKeys f m h)
    | inr e ↦
        if_false HasDistinctKeys (bytes_eq k f) _ _ e
          (find-erase-none f k m n, erase-HasDistinctKeys f m h)
  ]

-- The subscriber is an element of the list.
abbrev pub In : Subscriber → List Subscriber → Type 0
In s [] = ⊥
In s (x ∷ xs) = (x ≡ s) ⊎ In s xs

pub In-filter :
    (p : Subscriber → Bool) (s : Subscriber) (xs : List Subscriber)
    → In s xs
    → p s ≡ true
    → In s (filter p xs)
In-filter p s [] h k = elim h [ ]
In-filter p s (x ∷ xs) (inl e) k = if_true (In s) (p x) _ _ (ap p e ∙ k) (inl e)
In-filter p s (x ∷ xs) (inr h) k = elim (Bool-cases (p x)) [
  | inl e ↦ if_true (In s) (p x) _ _ e (inr (In-filter p s xs h k))
  | inr e ↦ if_false (In s) (p x) _ _ e (In-filter p s xs h k)
]

pub filter-In :
    (p : Subscriber → Bool) (s : Subscriber) (xs : List Subscriber)
    → In s (filter p xs)
    → In s xs × (p s ≡ true)
filter-In p s [] h = elim h [ ]
filter-In p s (x ∷ xs) h = elim (Bool-cases (p x)) [
  | inl e ↦ ground (arith, e, filter-In p s xs)
  | inr e ↦ ground (arith, e, filter-In p s xs)
]

pub In-append_left : (s : Subscriber) (xs ys : List Subscriber) → In s xs → In s (xs ++ ys)
In-append_left s [] ys h = elim h [ ]
In-append_left s (x ∷ xs) ys (inl e) = inl e
In-append_left s (x ∷ xs) ys (inr h) = inr (In-append_left s xs ys h)

pub In-append_right : (s : Subscriber) (xs ys : List Subscriber) → In s ys → In s (xs ++ ys)
In-append_right s [] ys h = h
In-append_right s (x ∷ xs) ys h = inr (In-append_right s xs ys h)

pub append-In : (s : Subscriber) (xs ys : List Subscriber) → In s (xs ++ ys) → In s xs ⊎ In s ys
append-In s [] ys h = inr h
append-In s (x ∷ xs) ys (inl e) = inl (inl e)
append-In s (x ∷ xs) ys (inr h) = elim (append-In s xs ys h) [ inl k ↦ inl (inr k) | inr k ↦ inr k ]
