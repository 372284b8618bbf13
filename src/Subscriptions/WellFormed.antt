-- ===== src/Subscriptions/WellFormed.antt =====
-- Well-formed worlds, and the maps of the connections of src/Connection.cpp with one replaced.
use eventhub.Prelude.{
  ℕ, ◌≡◌, refl, sym, ap, ◌∙◌, subst, false, inl, inr, List, Option, some, Bytes, bytes_eq, is_empty,
  arith,
}
use eventhub.Subscriptions.{TopicSubscription, World, new_world, update}
use eventhub.StringMap.{find}
use eventhub.Subscriptions.Maps.{nat-cases, update_self, update_other, HasDistinctKeys}
use eventhub.Subscriptions.Consistency.{IsConsistent, Differ, none-some}

abbrev pub topic_of : World → Bytes → Option ℕ
topic_of w f = find f w.topic_list

abbrev pub subscription_of : World → ℕ → Bytes → Option TopicSubscription
subscription_of w c f = find f (w.subscribed_topics c)

abbrev pub IsWorldConsistent : World → Type 0
IsWorldConsistent w = IsConsistent (topic_of w) (subscription_of w) w.store w.next

-- The maps agree, no key occurs twice, and every topic has a subscriber.
pub record IsWellFormed (w : World) : Type 0 where
  pub consistent : IsWorldConsistent w
  pub topics_once : HasDistinctKeys w.topic_list
  pub subscriptions_once : (c : ℕ) → HasDistinctKeys (w.subscribed_topics c)
  pub busy : (f : Bytes) (a : ℕ) → topic_of w f ≡ some a → is_empty (w.store a) ≡ false

pub new_world-IsWellFormed : IsWellFormed new_world
unfolding find
new_world-IsWellFormed = record {
  consistent = record {
    linked = λ c f sub e. none-some refl e;
    owned = λ f a s e. none-some refl e;
    made = λ f a e. none-some refl e;
    fresh = λ c f sub e. none-some refl e;
    apart = λ f g a e. none-some refl e;
    unique = λ c d f g p q e. none-some refl e;
    once = λ f a e. none-some refl e;
  };
  topics_once = tt;
  subscriptions_once = λ c. tt;
  busy = λ f a e. none-some refl e;
}

-- A connection's map, and that of no other, is replaced.
module _ (S : ℕ → List (Bytes × TopicSubscription)) (c : ℕ)
    (m : List (Bytes × TopicSubscription)) where
  pub replaced_self : (f : Bytes) → find f (update c m S c) ≡ find f m
  replaced_self f = ap (find f) (update_self c m S)

  pub replaced_other :
      (f : Bytes)
      → ((g : Bytes) → bytes_eq f g ≡ false → find g m ≡ find g (S c))
      → (d : ℕ) (g : Bytes) → Differ c d f g
      → find g (update c m S d) ≡ find g (S d)
  replaced_other f rest d g h = elim (nat-cases d c) [
    | inr k ↦ ap (find g) (update_other c d m S k)
    | inl e ↦ elim h [
      | inl k ↦ absurd (ground arith)
      | inr k ↦
          ap (λ z. find g (update c m S z)) e
          ∙ replaced_self g
          ∙ rest g k
          ∙ ap (λ z. find g (S z)) (sym e)
    ]
  ]

  pub replaced-HasDistinctKeys :
      HasDistinctKeys m
      → ((d : ℕ) → HasDistinctKeys (S d))
      → (d : ℕ) → HasDistinctKeys (update c m S d)
  replaced-HasDistinctKeys h k d = elim (nat-cases d c) [
    | inl e ↦ subst HasDistinctKeys (sym (ap (update c m S) e ∙ update_self c m S)) h
    | inr e ↦ subst HasDistinctKeys (sym (update_other c d m S e)) (k d)
  ]
