-- ===== src/Subscriptions/Consistency.antt =====
-- How the topic manager's map, the subscriber lists and the connections' subscriptions hang together,
-- and that each single change of src/TopicManager.cpp and src/Topic.cpp keeps it. The maps are taken
-- as functions here: `T` is the topic of a filter, `S` a connection's subscription to a filter.
use eventhub.Prelude.{
  ℕ, ◌+◌, ◌<◌, ◌≡◌, ◌≢◌, sym, ap, ◌∙◌, subst, true, false, ◌⊎◌, inl, inr, List, [], ◌∷◌, Option,
  none, some, some-eq, ◌==◌, Bytes, bytes_eq, bytes_eq_refl, arith,
}
use eventhub.Subscriptions.{Subscriber, TopicSubscription, update}
use eventhub.Subscriptions.Maps.{bytes-cases, nat-cases, update_self, update_other, In}

-- The element of a topic's list that belongs to a connection's subscription.
abbrev pub entry : ℕ → TopicSubscription → Subscriber
entry conn sub = record {
  node = sub.topic_list_iterator;
  connection = conn;
  request_id = sub.rpc_subscription_request_id;
}

abbrev pub HasDistinctNodes : List Subscriber → Type 0
HasDistinctNodes [] = Unit
HasDistinctNodes (x ∷ xs) = ((y : Subscriber) → In y xs → x.node ≢ y.node) × HasDistinctNodes xs

pub record IsConsistent (T : Bytes → Option ℕ) (S : ℕ → Bytes → Option TopicSubscription)
    (store : ℕ → List Subscriber) (next : ℕ) : Type 0 where
  -- A subscription is to the manager's topic of that name, and in its list.
  pub linked :
      (c : ℕ) (f : Bytes) (sub : TopicSubscription)
      → S c f ≡ some sub
      → (T f ≡ some sub.topic) × In (entry c sub) (store sub.topic)
  -- An element of a topic's list belongs to a subscription.
  pub owned :
      (f : Bytes) (a : ℕ) (s : Subscriber)
      → T f ≡ some a
      → In s (store a)
      → (sub : TopicSubscription) × ((S s.connection f ≡ some sub) × (entry s.connection sub ≡ s))
  pub made : (f : Bytes) (a : ℕ) → T f ≡ some a → a < next
  pub fresh :
      (c : ℕ) (f : Bytes) (sub : TopicSubscription)
      → S c f ≡ some sub
      → sub.topic_list_iterator < next
  pub apart : (f g : Bytes) (a : ℕ) → T f ≡ some a → T g ≡ some a → f ≡ g
  pub unique :
      (c d : ℕ) (f g : Bytes) (p q : TopicSubscription)
      → S c f ≡ some p
      → S d g ≡ some q
      → p.topic_list_iterator ≡ q.topic_list_iterator
      → (c ≡ d) × (f ≡ g)
  pub once : (f : Bytes) (a : ℕ) → T f ≡ some a → HasDistinctNodes (store a)

pub none-some : {A : Type 0} {a : A} {B : Type 0} {o : Option A} → o ≡ none → o ≡ some a → B
none-some e h = absurd (let k : none ≡ some _ = sym e ∙ h in ground arith)

-- A topic is made for a filter that has none.
pub make_topic-IsConsistent :
    (T T' : Bytes → Option ℕ) (S : ℕ → Bytes → Option TopicSubscription)
    (store : ℕ → List Subscriber) (next : ℕ) (f : Bytes)
    → T f ≡ none
    → T' f ≡ some next
    → ((g : Bytes) → bytes_eq f g ≡ false → T' g ≡ T g)
    → IsConsistent T S store next
    → IsConsistent T' S (update next [] store) (next + 1)
make_topic-IsConsistent T T' S store next f n at rest i = record {
  linked = λ c g sub e.
      (let (t, m) = IsConsistent.linked i c g sub e in
        (kept g sub.topic t, subst (In (entry c sub)) (sym (same g sub.topic t)) m));
  owned = λ g a s e m. (elim (old_or_new g a e) [
    | inl (k, an) ↦
        absurd (subst (In s) (ap (update next [] store) an ∙ update_self next [] store) m)
    | inr t ↦ IsConsistent.owned i g a s t (subst (In s) (same g a t) m)
  ]);
  made = λ g a e. (elim (old_or_new g a e) [
    | inl (k, an) ↦ omega arith
    | inr t ↦ (let lt = IsConsistent.made i g a t in omega arith)
  ]);
  fresh = λ c g sub e. (let lt = IsConsistent.fresh i c g sub e in omega arith);
  apart = λ g h a e k. (elim (old_or_new g a e) [
    | inl (x, an) ↦ elim (old_or_new h a k) [
      | inl (y, an') ↦ sym x ∙ y
      | inr t ↦ absurd (let lt = IsConsistent.made i h a t in omega arith)
    ]
    | inr t ↦ elim (old_or_new h a k) [
      | inl (y, an') ↦ absurd (let lt = IsConsistent.made i g a t in omega arith)
      | inr u ↦ IsConsistent.apart i g h a t u
    ]
  ]);
  unique = IsConsistent.unique i;
  once = λ g a e. (elim (old_or_new g a e) [
    | inl (k, an) ↦
        subst HasDistinctNodes (sym (ap (update next [] store) an ∙ update_self next [] store)) tt
    | inr t ↦ subst HasDistinctNodes (sym (same g a t)) (IsConsistent.once i g a t)
  ]);
}
  where
    kept : (g : Bytes) (a : ℕ) → T g ≡ some a → T' g ≡ some a
    kept g a t = elim (bytes-cases f g) [
      | inl e ↦ none-some (ap T (sym e) ∙ n) t
      | inr e ↦ rest g e ∙ t
    ]

    same : (g : Bytes) (a : ℕ) → T g ≡ some a → update next [] store a ≡ store a
    same g a t = update_other next a [] store (let lt = IsConsistent.made i g a t in ground arith)

    old_or_new : (g : Bytes) (a : ℕ) → T' g ≡ some a → ((f ≡ g) × (a ≡ next)) ⊎ (T g ≡ some a)
    old_or_new g a e = elim (bytes-cases f g) [
      | inl k ↦ inl (k, some-eq (sym e ∙ ap T' (sym k) ∙ at))
      | inr k ↦ inr (sym (rest g k) ∙ e)
    ]

-- Two pairs of a connection and a filter are the same, or differ.
abbrev pub Differ : ℕ → ℕ → Bytes → Bytes → Type 0
Differ c d f g = ((c == d) ≡ false) ⊎ (bytes_eq f g ≡ false)

pub pair-cases : (c d : ℕ) (f g : Bytes) → ((c ≡ d) × (f ≡ g)) ⊎ Differ c d f g
pair-cases c d f g = elim (nat-cases c d) [
  | inr k ↦ inr (inl k)
  | inl e ↦ elim (bytes-cases f g) [ inr k ↦ inr (inr k) | inl e' ↦ inl (e, e') ]
]

pub not-Differ : (c d : ℕ) (f g : Bytes) → c ≡ d → f ≡ g → Differ c d f g → ⊥
not-Differ c d f g e k (inl h) = ground arith
not-Differ c d f g e k (inr h) =
    (let r : bytes_eq f g ≡ true = ap (bytes_eq f) (sym k) ∙ bytes_eq_refl f in ground arith)

In-add :
    (x s : Subscriber) (a b : ℕ) (store : ℕ → List Subscriber)
    → In s (store b)
    → In s (update a (x ∷ store a) store b)
In-add x s a b store m = elim (nat-cases b a) [
  | inl e ↦
      subst (λ k. In s (update a (x ∷ store a) store k)) (sym e)
        (subst (In s) (sym (update_self a (x ∷ store a) store))
          (inr (subst (λ k. In s (store k)) e m)))
  | inr k ↦ subst (In s) (sym (update_other a b (x ∷ store a) store k)) m
]

add-In :
    (x s : Subscriber) (a b : ℕ) (store : ℕ → List Subscriber)
    → In s (update a (x ∷ store a) store b)
    → ((b ≡ a) × (x ≡ s)) ⊎ In s (store b)
add-In x s a b store m = elim (nat-cases b a) [
  | inl e ↦
      elim (let m' : In s (x ∷ store a) =
          subst (In s) (ap (update a (x ∷ store a) store) e ∙ update_self a (x ∷ store a) store)
            m in
        m') [ inl k ↦ inl (e, k) | inr k ↦ inr (subst (λ z. In s (store z)) (sym e) k) ]
  | inr k ↦ inr (subst (In s) (update_other a b (x ∷ store a) store k) m)
]

-- A subscription is entered, and its element put in front of the topic's list.
pub enter-IsConsistent :
    (T : Bytes → Option ℕ) (S S' : ℕ → Bytes → Option TopicSubscription)
    (store : ℕ → List Subscriber) (next c : ℕ) (f : Bytes) (sub : TopicSubscription)
    → T f ≡ some sub.topic
    → sub.topic_list_iterator ≡ next
    → S c f ≡ none
    → S' c f ≡ some sub
    → ((d : ℕ) (g : Bytes) → Differ c d f g → S' d g ≡ S d g)
    → IsConsistent T S store next
    → IsConsistent T S' (update sub.topic (entry c sub ∷ store sub.topic) store) (next + 1)
enter-IsConsistent T S S' store next c f sub t new n at rest i = record {
  linked = λ d g q e. (elim (old_or_new d g q e) [
    | inr h ↦
        (let (t', m) = IsConsistent.linked i d g q h in
          (t', In-add (entry c sub) (entry d q) sub.topic q.topic store m))
    | inl (cd, (fg, qs)) ↦ (
      ap T (sym fg) ∙ t ∙ ap (λ z. some (TopicSubscription.topic z)) (sym qs),
      subst
          (λ z.
            In (entry d z)
              (update sub.topic (entry c sub ∷ store sub.topic) store (TopicSubscription.topic z)))
          (sym qs)
          (subst (In (entry d sub))
            (sym (update_self sub.topic (entry c sub ∷ store sub.topic) store))
            (inl (ap (λ z. entry z sub) cd))),
    )
  ]);
  owned = λ g b s e m. (elim (add-In (entry c sub) s sub.topic b store m) [
    | inl (ba, es) ↦
        (let fg = IsConsistent.apart i f g sub.topic t (e ∙ ap some ba) in
          (
            sub,
            (
              ap (λ z. S' (Subscriber.connection z) g) (sym es) ∙ ap (S' c) (sym fg) ∙ at,
              ap (λ z. entry (Subscriber.connection z) sub) (sym es) ∙ es,
            ),
          ))
    | inr m' ↦
        (let (q, r) = IsConsistent.owned i g b s e m' in (q, (keep s.connection g q r.0, r.1)))
  ]);
  made = λ g a e. (let lt = IsConsistent.made i g a e in omega arith);
  fresh = λ d g q e. (elim (old_or_new d g q e) [
    | inl (cd, (fg, qs)) ↦
        (let k : q.topic_list_iterator ≡ next =
            ap (λ z. TopicSubscription.topic_list_iterator z) qs ∙ new in
          omega arith)
    | inr h ↦ (let lt = IsConsistent.fresh i d g q h in omega arith)
  ]);
  apart = IsConsistent.apart i;
  unique = λ d e g h p q u v k. (elim (old_or_new d g p u) [
    | inl (cd, (fg, ps)) ↦ elim (old_or_new e h q v) [
      | inl (ce, (fh, qs)) ↦ (sym cd ∙ ce, sym fg ∙ fh)
      | inr v' ↦ absurd (
          let lt = IsConsistent.fresh i e h q v' in
          let k' : p.topic_list_iterator ≡ next =
            ap (λ z. TopicSubscription.topic_list_iterator z) ps ∙ new in
          omega arith)
    ]
    | inr u' ↦ elim (old_or_new e h q v) [
      | inl (ce, (fh, qs)) ↦ absurd (
          let lt = IsConsistent.fresh i d g p u' in
          let k' : q.topic_list_iterator ≡ next =
            ap (λ z. TopicSubscription.topic_list_iterator z) qs ∙ new in
          omega arith)
      | inr v' ↦ IsConsistent.unique i d e g h p q u' v' k
    ]
  ]);
  once = λ g b e. (elim (nat-cases b sub.topic) [
    | inr k ↦
        subst HasDistinctNodes
          (sym (update_other sub.topic b (entry c sub ∷ store sub.topic) store k))
          (IsConsistent.once i g b e)
    | inl k ↦
        subst HasDistinctNodes
          (sym (
            ap (update sub.topic (entry c sub ∷ store sub.topic) store) k
            ∙ update_self sub.topic (entry c sub ∷ store sub.topic) store))
          (
            λ y m. (λ eq.
                (let (q, (h, en)) = IsConsistent.owned i f sub.topic y t m in
                  let lt = IsConsistent.fresh i y.connection f q h in
                  let k' : q.topic_list_iterator ≡ y.node = ap (λ z. Subscriber.node z) en in
                  omega arith)),
            IsConsistent.once i f sub.topic t,
          )
  ]);
}
  where
    keep : (d : ℕ) (g : Bytes) (q : TopicSubscription) → S d g ≡ some q → S' d g ≡ some q
    keep d g q h = elim (pair-cases c d f g) [
      | inl (cd, fg) ↦ none-some n (ap (S c) fg ∙ ap (λ z. S z g) cd ∙ h)
      | inr k ↦ rest d g k ∙ h
    ]

    old_or_new :
        (d : ℕ) (g : Bytes) (q : TopicSubscription)
        → S' d g ≡ some q
        → ((c ≡ d) × ((f ≡ g) × (q ≡ sub))) ⊎ (S d g ≡ some q)
    old_or_new d g q e = elim (pair-cases c d f g) [
      | inl (cd, fg) ↦
          inl (cd, (fg, some-eq (sym e ∙ ap (λ z. S' z g) (sym cd) ∙ ap (S' c) (sym fg) ∙ at)))
      | inr k ↦ inr (sym (rest d g k) ∙ e)
    ]
