-- ===== src/Subscriptions/Spec.antt =====
-- What the subscriptions of a worker promise, and that src/TopicManager.cpp, src/Topic.cpp and
-- src/Connection.cpp keep it: the abstract state is a table, which gives for a connection and a
-- filter the id of the request that subscribed it, if it is subscribed.
use eventhub.Prelude.{
  ℕ, ◌≡◌, refl, sym, ap, ◌∙◌, subst, Bool, true, false, ◌&&◌, inl, inr, List, [], ◌∷◌, Option, none,
  some, some-eq, Option-cases, if◌then◌else◌, ◌==◌, Bytes, bytes_eq, bytes_eq_refl, arith,
}
use eventhub.Topics.{is_filter_matched}
use eventhub.Subscriptions.{
  Subscriber, TopicSubscription, World, new_world, get_topic, subscribe, unsubscribe,
  unsubscribe_all, publish,
}
use mathlib.Core.Path.{fun_ext}
use eventhub.Subscriptions.Maps.{In, bytes-cases, nat-cases}
use eventhub.Subscriptions.Consistency.{HasDistinctNodes, entry, none-some}
use eventhub.Subscriptions.WellFormed.{subscription_of, IsWellFormed, new_world-IsWellFormed}
use eventhub.Subscriptions.Subscribing.{subscribe-IsWellFormed, new_entry}
use eventhub.Subscriptions.Unsubscribing.{unsubscribe-IsWellFormed, unsubscribe_all-IsWellFormed}
use eventhub.Subscriptions.Views.{
  subscribe_new, subscribe_old, unsubscribe_find, unsubscribe_all_find,
}
use eventhub.Subscriptions.Delivery.{IsExact, publish-IsExact}

abbrev pub Table : Type 0
Table = ℕ → Bytes → Option Bytes

abbrev request_of : Option TopicSubscription → Option Bytes
request_of none = none
request_of (some sub) = some sub.rpc_subscription_request_id

-- The table of a world.
abbrev pub view : World → Table
view w c f = request_of (subscription_of w c f)

-- What a client asks for.
pub data Command : Type 0 where
  subscribing : ℕ → Bytes → Bytes → Command
  unsubscribing : ℕ → Bytes → Command
  unsubscribing_all : ℕ → Command

unfoldable pub run : Command → World → World
run (subscribing c f id) w = subscribe c f id w
run (unsubscribing c f) w = (unsubscribe c f w).1
run (unsubscribing_all c) w = (unsubscribe_all c w).1

-- A second subscription to a filter changes nothing.
unfoldable pub enact : Command → Table → Table
enact (subscribing c f id) t d g =
    if d == c && bytes_eq f g then elim (t c f) [ none ↦ some id | some old ↦ some old ] else t d g
enact (unsubscribing c f) t d g = if d == c && bytes_eq f g then none else t d g
enact (unsubscribing_all c) t d g = if d == c then none else t d g

unfoldable pub run_all : List Command → World → World
run_all [] w = w
run_all (x ∷ xs) w = run_all xs (run x w)

unfoldable pub enact_all : List Command → Table → Table
enact_all [] t = t
enact_all (x ∷ xs) t = enact_all xs (enact x t)

run-IsWellFormed : (x : Command) (w : World) → IsWellFormed w → IsWellFormed (run x w)
unfolding run
run-IsWellFormed (subscribing c f id) w v = subscribe-IsWellFormed c f id w v
run-IsWellFormed (unsubscribing c f) w v = unsubscribe-IsWellFormed c f w v
run-IsWellFormed (unsubscribing_all c) w v = unsubscribe_all-IsWellFormed c w v

run_all-IsWellFormed :
    (xs : List Command) (w : World) → IsWellFormed w → IsWellFormed (run_all xs w)
unfolding run_all
run_all-IsWellFormed [] w v = v
run_all-IsWellFormed (x ∷ xs) w v = run_all-IsWellFormed xs (run x w) (run-IsWellFormed x w v)

request_of_if :
    (b : Bool) (o p : Option TopicSubscription)
    → request_of (if b then o else p) ≡ (if b then request_of o else request_of p)
request_of_if true o p = refl
request_of_if false o p = refl

enact_old :
    (c d : ℕ) (f g id r : Bytes) (t : Table)
    → t c f ≡ some r
    → t d g ≡ enact (subscribing c f id) t d g
unfolding enact
enact_old c d f g id r t e = elim (nat-cases d c) [
  | inr k ↦ ground (arith, k)
  | inl dc ↦ elim (bytes-cases f g) [
    | inr k ↦ ground (arith, k)
    | inl fg ↦
        (let same : t d g ≡ some r = ap (λ z. t z g) dc ∙ ap (t c) (sym fg) ∙ e in
          let b : bytes_eq f g ≡ true = ap (bytes_eq f) (sym fg) ∙ bytes_eq_refl f in
          ground (arith, same, b, e, dc))
  ]
]

pub subscribe-view :
    (c : ℕ) (f id : Bytes) (w : World)
    → view (subscribe c f id w) ≡ enact (subscribing c f id) (view w)
unfolding enact
subscribe-view c f id w = fun_ext λ d. fun_ext λ g. (elim (Option-cases (subscription_of w c f)) [
  | inr (sub, e) ↦
      ap (λ z. view z d g) (subscribe_old c f id w e)
      ∙ enact_old c d f g id sub.rpc_subscription_request_id (view w) (ap request_of e)
  | inl e ↦
      ap request_of (subscribe_new c d f g id w e)
      ∙ request_of_if (d == c && bytes_eq f g) (some (new_entry f id (get_topic f w)))
          (subscription_of w d g)
      ∙ ap
          (λ z.
            if d == c && bytes_eq f g
            then elim (request_of z) as (λ _. Option Bytes) [ none ↦ some id | some old ↦ some old ]
            else view w d g)
          (sym e)
])

-- Each command does to a world what it does to the table.
run-view : (x : Command) (w : World) → view (run x w) ≡ enact x (view w)
unfolding run enact
run-view (subscribing c f id) w = subscribe-view c f id w
run-view (unsubscribing c f) w = fun_ext λ d. fun_ext λ g.
    (ap request_of (unsubscribe_find c d f g w)
      ∙ request_of_if (d == c && bytes_eq f g) none (subscription_of w d g))
run-view (unsubscribing_all c) w = fun_ext λ d. fun_ext λ g.
    (ap request_of (unsubscribe_all_find c d g w)
      ∙ request_of_if (d == c) none (subscription_of w d g))

-- Whatever is asked for, in whatever order, the world stands for the table that the requests
-- describe.
pub run_all-view : (xs : List Command) (w : World) → view (run_all xs w) ≡ enact_all xs (view w)
unfolding run_all enact_all
run_all-view [] w = refl
run_all-view (x ∷ xs) w = run_all-view xs (run x w) ∙ ap (enact_all xs) (run-view x w)

-- The deliveries that a table promises for a publish to `t`.
pub record Keeps (table : Table) (t : Bytes) (out : List Subscriber) : Type 0 where
  pub reached :
      (c : ℕ) (f id : Bytes)
      → table c f ≡ some id
      → is_filter_matched f t ≡ true
      → (s : Subscriber) × (In s out × ((s.connection ≡ c) × (s.request_id ≡ id)))
  pub asked_for :
      (s : Subscriber)
      → In s out
      → (f : Bytes) × ((table s.connection f ≡ some s.request_id) × (is_filter_matched f t ≡ true))
  pub once : HasDistinctNodes out

-- What is delivered exactly to the subscriptions of a world keeps what its table promises.
IsExact-Keeps :
    (w : World) (t : Bytes) (out : List Subscriber) → IsExact w t out → Keeps (view w) t out
IsExact-Keeps w t out x = record {
  reached = λ c f id e m. (elim (Option-cases (subscription_of w c f)) [
    | inl n ↦ none-some (ap request_of n) e
    | inr (sub, h) ↦
        (entry c sub, (IsExact.complete x c f sub h m, (refl, some-eq (sym (ap request_of h) ∙ e))))
  ]);
  asked_for = λ s i.
      (let (f, sub, h, m, e) = IsExact.sound x s i in
        (f, (ap request_of h ∙ ap (λ z. some (Subscriber.request_id z)) e, m)));
  once = IsExact.once x;
}

-- After any sequence of requests of any connections to a worker that has just started, a publish to
-- a topic goes to the connections that the table of these requests names for a matching filter,
-- each time with the id of its request, to no other, and once for each subscription.
pub publish-Keeps :
    (xs : List Command) (t : Bytes)
    → Keeps
        (enact_all xs (view new_world))
        t
        (publish t (World.topic_list (run_all xs new_world)) (World.store (run_all xs new_world)))
publish-Keeps xs t =
    subst
      (λ z.
        Keeps z t (
          publish t (World.topic_list (run_all xs new_world)) (World.store (run_all xs new_world))))
      (run_all-view xs new_world)
      (IsExact-Keeps (run_all xs new_world) t
        (publish t (World.topic_list (run_all xs new_world)) (World.store (run_all xs new_world)))
        (publish-IsExact (run_all xs new_world) t
          (run_all-IsWellFormed xs new_world new_world-IsWellFormed)))
