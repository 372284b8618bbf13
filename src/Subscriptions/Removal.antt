-- ===== src/Subscriptions/Removal.antt =====
-- The end of a subscription, and of a topic that nobody is subscribed to any more, keep what
-- Subscriptions/Consistency says.
use eventhub.Prelude.{
  ℕ, ◌≡◌, sym, ap, ◌∙◌, subst, Bool, true, false, not, inl, inr, List, [], ◌∷◌, Option, none, some,
  some-eq, ◌==◌, ==_iff, filter, if_true, if_false, Bool-cases, Bytes, bytes_eq, arith,
}
use eventhub.Subscriptions.{Subscriber, TopicSubscription, update}
use eventhub.Subscriptions.Maps.{
  bytes-cases, nat-cases, update_self, update_other, In, In-filter, filter-In,
}
use eventhub.Subscriptions.Consistency.{
  IsConsistent, HasDistinctNodes, entry, Differ, pair-cases, not-Differ, none-some,
}

abbrev pub is_other : ℕ → Subscriber → Bool
is_other it s = not (s.node == it)

filter-HasDistinctNodes :
    (p : Subscriber → Bool) (xs : List Subscriber)
    → HasDistinctNodes xs
    → HasDistinctNodes (filter p xs)
filter-HasDistinctNodes p [] h = tt
filter-HasDistinctNodes p (x ∷ xs) (n, h) = elim (Bool-cases (p x)) [
  | inl e ↦
      if_true HasDistinctNodes (p x) _ _ e
        (λ y m. n y (filter-In p y xs m).0, filter-HasDistinctNodes p xs h)
  | inr e ↦ if_false HasDistinctNodes (p x) _ _ e (filter-HasDistinctNodes p xs h)
]

module _ (store : ℕ → List Subscriber) (a it : ℕ) where
  abbrev pub without_node : ℕ → List Subscriber
  without_node = update a (filter (is_other it) (store a)) store

  In-without_node :
      (b : ℕ) (s : Subscriber)
      → In s (store b)
      → (b ≡ a → is_other it s ≡ true)
      → In s (without_node b)
  In-without_node b s m k = elim (nat-cases b a) [
    | inl e ↦
        subst (λ z. In s (without_node z)) (sym e)
          (subst (In s) (sym (update_self a (filter (is_other it) (store a)) store))
            (In-filter (is_other it) s (store a) (subst (λ z. In s (store z)) e m) (k e)))
    | inr e ↦ subst (In s) (sym (update_other a b (filter (is_other it) (store a)) store e)) m
  ]

  without_node-In :
      (b : ℕ) (s : Subscriber)
      → In s (without_node b)
      → In s (store b) × (b ≡ a → is_other it s ≡ true)
  without_node-In b s m = elim (nat-cases b a) [
    | inl e ↦
        (let r = filter-In (is_other it) s (store a) (
            subst (In s) (ap without_node e ∙ update_self a (filter (is_other it) (store a)) store)
              m) in
          (subst (λ z. In s (store z)) (sym e) r.0, λ _. r.1))
    | inr e ↦ (
      subst (In s) (update_other a b (filter (is_other it) (store a)) store e) m,
      λ k. absurd (ground arith),
    )
  ]

  without_node-HasDistinctNodes :
      (b : ℕ) → HasDistinctNodes (store b) → HasDistinctNodes (without_node b)
  without_node-HasDistinctNodes b h = elim (nat-cases b a) [
    | inl e ↦
        subst HasDistinctNodes
          (sym (ap without_node e ∙ update_self a (filter (is_other it) (store a)) store))
          (filter-HasDistinctNodes (is_other it) (store a)
            (subst (λ z. HasDistinctNodes (store z)) e h))
    | inr e ↦
        subst HasDistinctNodes (sym (update_other a b (filter (is_other it) (store a)) store e)) h
  ]

-- A subscription ends, and its element is taken from the topic's list.
pub leave-IsConsistent :
    (T : Bytes → Option ℕ) (S S' : ℕ → Bytes → Option TopicSubscription)
    (store : ℕ → List Subscriber) (next c : ℕ) (f : Bytes) (sub : TopicSubscription)
    → S c f ≡ some sub
    → S' c f ≡ none
    → ((d : ℕ) (g : Bytes) → Differ c d f g → S' d g ≡ S d g)
    → IsConsistent T S store next
    → IsConsistent T S' (without_node store sub.topic sub.topic_list_iterator) next
leave-IsConsistent T S S' store next c f sub at gone rest i = record {
  linked = λ d g q e.
      (let (k, h) = before d g q e in
        let (t, m) = IsConsistent.linked i d g q h in
        (
          t,
          In-without_node store sub.topic sub.topic_list_iterator q.topic (entry d q) m (λ _.
              elim (Bool-cases (q.topic_list_iterator == sub.topic_list_iterator)) [
                | inl e' ↦
                    (let (cd, fg) =
                        IsConsistent.unique i c d f g sub q at h
                          (sym ((==_iff q.topic_list_iterator sub.topic_list_iterator).0 e')) in
                      absurd (not-Differ c d f g cd fg k))
                | inr e' ↦ ap not e'
              ]),
        ));
  owned = λ g b s e m.
      (let (m', other) = without_node-In store sub.topic sub.topic_list_iterator b s m in
        let (q, r) = IsConsistent.owned i g b s e m' in
        (
          q,
          (
            elim (pair-cases c s.connection f g) [
              | inr k ↦ rest s.connection g k ∙ r.0
              | inl (cs, fg) ↦ absurd (
                  let same : q ≡ sub =
                    some-eq (sym r.0 ∙ ap (λ z. S z g) (sym cs) ∙ ap (S c) (sym fg) ∙ at) in
                  let ba : b ≡ sub.topic =
                    some-eq (sym e ∙ ap T (sym fg) ∙ (IsConsistent.linked i c f sub at).0) in
                  let it : s.node ≡ sub.topic_list_iterator =
                    sym (ap (λ z. Subscriber.node z) r.1)
                    ∙ ap (λ z. TopicSubscription.topic_list_iterator z) same in
                  let o = other ba in ground arith)
            ],
            r.1,
          ),
        ));
  made = IsConsistent.made i;
  fresh = λ d g q e. IsConsistent.fresh i d g q (before d g q e).1;
  apart = IsConsistent.apart i;
  unique =
      λ d e g h p q u v. IsConsistent.unique i d e g h p q (before d g p u).1 (before e h q v).1;
  once = λ g b e.
      without_node-HasDistinctNodes store sub.topic sub.topic_list_iterator b
        (IsConsistent.once i g b e);
}
  where
    before :
        (d : ℕ) (g : Bytes) (q : TopicSubscription)
        → S' d g ≡ some q
        → Differ c d f g × (S d g ≡ some q)
    before d g q e = elim (pair-cases c d f g) [
      | inl (cd, fg) ↦ none-some gone (ap (S' c) fg ∙ ap (λ z. S' z g) cd ∙ e)
      | inr k ↦ (k, sym (rest d g k) ∙ e)
    ]

-- A topic whose list is empty is taken from the manager's map.
pub drop_topic-IsConsistent :
    (T T' : Bytes → Option ℕ) (S : ℕ → Bytes → Option TopicSubscription)
    (store : ℕ → List Subscriber) (next : ℕ) (f : Bytes) (a : ℕ)
    → T f ≡ some a
    → store a ≡ []
    → T' f ≡ none
    → ((g : Bytes) → bytes_eq f g ≡ false → T' g ≡ T g)
    → IsConsistent T S store next
    → IsConsistent T' S store next
drop_topic-IsConsistent T T' S store next f a at empty gone rest i = record {
  linked = λ c g q e.
      (let (t, m) = IsConsistent.linked i c g q e in
        (
          elim (bytes-cases f g) [
            | inl fg ↦ absurd (
                let k : q.topic ≡ a = some-eq (sym t ∙ ap T (sym fg) ∙ at) in
                subst (In (entry c q)) (ap store k ∙ empty) m)
            | inr k ↦ rest g k ∙ t
          ],
          m,
        ));
  owned = λ g b s e. IsConsistent.owned i g b s (before g b e);
  made = λ g b e. IsConsistent.made i g b (before g b e);
  fresh = IsConsistent.fresh i;
  apart = λ g h b e k. IsConsistent.apart i g h b (before g b e) (before h b k);
  unique = IsConsistent.unique i;
  once = λ g b e. IsConsistent.once i g b (before g b e);
}
  where
    before : (g : Bytes) (b : ℕ) → T' g ≡ some b → T g ≡ some b
    before g b e = elim (bytes-cases f g) [
      | inl fg ↦ none-some gone (ap T' fg ∙ e)
      | inr k ↦ sym (rest g k) ∙ e
    ]
