-- ===== src/Subscriptions/Delivery.antt =====
-- Whom a publish goes through, after `TopicManager::publish` of src/TopicManager.cpp.
use eventhub.Prelude.{
  ℕ, ◌≡◌, ◌≢◌, refl, sym, ap, ◌∙◌, subst, true, false, inl, inr, List, [], ◌∷◌, ◌++◌, some, some-eq,
  if◌then◌else◌, if_both, if_true, Bool-cases, Bytes, bytes_eq, bytes_eq_refl, arith,
}
use eventhub.Topics.{is_filter_matched}
use eventhub.Subscriptions.{Subscriber, TopicSubscription, World, publish}
use eventhub.StringMap.{find}
use eventhub.Subscriptions.Maps.{
  bytes-cases, find_head, find_tail, HasDistinctKeys, In, In-append_left, In-append_right,
  append-In,
}
use eventhub.Subscriptions.Consistency.{IsConsistent, HasDistinctNodes, entry, none-some}
use eventhub.Subscriptions.WellFormed.{subscription_of, IsWellFormed}

publish-In :
    (t : Bytes) (topics : List (Bytes × ℕ)) (store : ℕ → List Subscriber) (s : Subscriber)
    → HasDistinctKeys topics
    → In s (publish t topics store)
    → (f : Bytes) × (a : ℕ) × (find f topics ≡ some a)
      × (is_filter_matched f t ≡ true)
      × In s (store a)
unfolding publish
publish-In t [] store s h m = elim m [ ]
publish-In t ((k, v) ∷ topics) store s (n, h) m = elim (Bool-cases (is_filter_matched k t)) [
  | inr e ↦ behind (publish-In t topics store s h (ground (arith, m, e)))
  | inl e ↦
      elim (append-In s (store v) (publish t topics store) (
        subst (λ b. In s (if b then store v ++ publish t topics store else publish t topics store))
          e m)) [
            | inl m' ↦ (k, v, find_head k v topics, e, m')
            | inr m' ↦ behind (publish-In t topics store s h m')
          ]
]
  where
    behind :
        (f : Bytes) × (a : ℕ) × (find f topics ≡ some a)
          × (is_filter_matched f t ≡ true)
          × In s (store a)
        → (f : Bytes) × (a : ℕ) × (find f ((k, v) ∷ topics) ≡ some a)
          × (is_filter_matched f t ≡ true)
          × In s (store a)
    behind (f, a, e, r, m') = elim (bytes-cases k f) [
      | inl kf ↦ none-some n (ap (λ z. find z topics) kf ∙ e)
      | inr kf ↦ (f, a, find_tail k f v topics kf ∙ e, r, m')
    ]

find_nil : (f : Bytes) {a : ℕ} → find f [] ≡ some a → ⊥
unfolding find
find_nil f e = ground arith

pub In-publish :
    (t f : Bytes) (a : ℕ) (topics : List (Bytes × ℕ)) (store : ℕ → List Subscriber) (s : Subscriber)
    → find f topics ≡ some a
    → is_filter_matched f t ≡ true
    → In s (store a)
    → In s (publish t topics store)
unfolding publish
In-publish t f a [] store s e m h = absurd (find_nil f e)
In-publish t f a ((k, v) ∷ topics) store s e m h = elim (bytes-cases k f) [
  | inl kf ↦
      (let va : v ≡ a =
          some-eq (sym (find_head k v topics) ∙ ap (λ z. find z ((k, v) ∷ topics)) kf ∙ e) in
        if_true (In s) (is_filter_matched k t) _ _ (ap (λ z. is_filter_matched z t) kf ∙ m) (
          In-append_left s (store v) (publish t topics store)
            (subst (λ z. In s (store z)) (sym va) h)))
  | inr kf ↦
      (let rest = In-publish t f a topics store s (sym (find_tail k f v topics kf) ∙ e) m h in
        if_both (In s) (is_filter_matched k t) _ _
          (In-append_right s (store v) (publish t topics store) rest) rest)
]

append-HasDistinctNodes :
    (xs ys : List Subscriber)
    → HasDistinctNodes xs
    → HasDistinctNodes ys
    → ((x y : Subscriber) → In x xs → In y ys → x.node ≢ y.node)
    → HasDistinctNodes (xs ++ ys)
append-HasDistinctNodes [] ys h k d = k
append-HasDistinctNodes (x ∷ xs) ys (n, h) k d = (
  λ y m. (elim (append-In y xs ys m) [ inl m' ↦ n y m' | inr m' ↦ d x y (inl refl) m' ]),
  append-HasDistinctNodes xs ys h k (λ u y m. d u y (inr m)),
)

publish-HasDistinctNodes :
    (t : Bytes) (topics : List (Bytes × ℕ)) (store : ℕ → List Subscriber)
    → HasDistinctKeys topics
    → ((f : Bytes) (a : ℕ) → find f topics ≡ some a → HasDistinctNodes (store a))
    → ((f g : Bytes) (a b : ℕ) (x y : Subscriber)
        → find f topics ≡ some a
        → find g topics ≡ some b
        → bytes_eq f g ≡ false
        → In x (store a)
        → In y (store b)
        → x.node ≢ y.node)
    → HasDistinctNodes (publish t topics store)
unfolding publish
publish-HasDistinctNodes t [] store h each cross = tt
publish-HasDistinctNodes t ((k, v) ∷ topics) store (n, h) each cross =
    let rest =
      publish-HasDistinctNodes t topics store h (λ f a e. each f a (later f a e))
        (λ f g a b x y e e'. cross f g a b x y (later f a e) (later g b e')) in
    if_both HasDistinctNodes (is_filter_matched k t) _ _
      (append-HasDistinctNodes (store v) (publish t topics store) (each k v (find_head k v topics))
        rest
        (λ x y m m'.
          (let (f, a, e, _, i) = publish-In t topics store y h m' in
            cross k f v a x y (find_head k v topics) (later f a e) (differ f a e) m i)))
      rest
  where
    differ : (f : Bytes) (a : ℕ) → find f topics ≡ some a → bytes_eq k f ≡ false
    differ f a e = elim (bytes-cases k f) [
      | inl kf ↦ none-some n (ap (λ z. find z topics) kf ∙ e)
      | inr kf ↦ kf
    ]

    later : (f : Bytes) (a : ℕ) → find f topics ≡ some a → find f ((k, v) ∷ topics) ≡ some a
    later f a e = elim (bytes-cases k f) [
      | inl kf ↦ none-some n (ap (λ z. find z topics) kf ∙ e)
      | inr kf ↦ find_tail k f v topics kf ∙ e
    ]

-- The subscribers that a publish to `t` goes through are those of the subscriptions whose filter
-- matches `t`, no subscription twice.
pub record IsExact (w : World) (t : Bytes) (out : List Subscriber) : Type 0 where
  pub complete :
      (c : ℕ) (f : Bytes) (sub : TopicSubscription)
      → subscription_of w c f ≡ some sub
      → is_filter_matched f t ≡ true
      → In (entry c sub) out
  pub sound :
      (s : Subscriber)
      → In s out
      → (f : Bytes) × (sub : TopicSubscription) × (subscription_of w s.connection f ≡ some sub)
        × (is_filter_matched f t ≡ true)
        × (entry s.connection sub ≡ s)
  pub once : HasDistinctNodes out

-- In a well-formed world a publish goes through exactly the subscriptions whose filter matches the
-- topic, each of them once.
pub publish-IsExact :
    (w : World) (t : Bytes) → IsWellFormed w → IsExact w t (publish t w.topic_list w.store)
publish-IsExact w t v = record {
  complete = λ c f sub e m.
      (let (at, i) = IsConsistent.linked (IsWellFormed.consistent v) c f sub e in
        In-publish t f sub.topic w.topic_list w.store (entry c sub) at m i);
  sound = λ s m.
      (let (f, a, e, k, i) = publish-In t w.topic_list w.store s (IsWellFormed.topics_once v) m in
        let (sub, r) = IsConsistent.owned (IsWellFormed.consistent v) f a s e i in
        (f, sub, r.0, k, r.1));
  once =
      publish-HasDistinctNodes t w.topic_list w.store (IsWellFormed.topics_once v)
        (IsConsistent.once (IsWellFormed.consistent v))
        (λ f g a b x y e e' d m m' same.
          (let (p, r) = IsConsistent.owned (IsWellFormed.consistent v) f a x e m in
            let (q, r') = IsConsistent.owned (IsWellFormed.consistent v) g b y e' m' in
            let (cd, fg) =
              IsConsistent.unique (IsWellFormed.consistent v) x.connection y.connection f g p q r.0
                r'.0
                (ap (λ z. Subscriber.node z) r.1 ∙ same ∙ sym (ap (λ z. Subscriber.node z) r'.1)) in
            let eq : bytes_eq f g ≡ true = ap (bytes_eq f) (sym fg) ∙ bytes_eq_refl f in
            ground arith));
}
