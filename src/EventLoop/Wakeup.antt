-- ===== src/EventLoop/Wakeup.antt =====
-- The fire time kept by include/EventLoop.hpp is the earliest of the queue, and the timers that are
-- due are run, each once.
use eventhub.Prelude.{
  ℕ, ◌+◌, ◌≤◌, ◌<◌, ◌≡◌, refl, sym, ◌⊎◌, inl, inr, Bool, true, ◌||◌, List, [], ◌∷◌, ◌++◌,
  if◌then◌else◌, ltb, leb, is_empty, All, Any, arith, Bool-cases, if_both, ltb→lt,
}
use eventhub.EventLoop.{
  TimerCtx, EventLoop, World, decrease_next, run_timers, process_timers, add_timer,
}

-- `next` is the earliest fire time of the queue; 0 stands for no timer at all.
pub record Earliest (next : ℕ) (queue : List TimerCtx) : Type 0 where
  pub below : All (λ t. next ≤ t.fire_time) queue
  pub attained : ((queue ≡ []) × (next ≡ 0)) ⊎ Any (λ t. next ≡ t.fire_time) queue
  pub positive : All (λ t. 0 < t.fire_time) queue

abbrev pub IsScheduled : EventLoop → Type 0
IsScheduled ev = Earliest ev.next_timer_fire_time ev.timer_queue

All-snoc :
    (P : TimerCtx → Type 0) (q : List TimerCtx) {t : TimerCtx} → All P q → P t → All P (q ++ t ∷ [])
All-snoc P [] h p = (p, tt)
All-snoc P (u ∷ q) h p = (h.0, All-snoc P q h.1 p)

All-le :
    (m n : ℕ) (q : List TimerCtx)
    → m ≤ n
    → All (λ t. n ≤ t.fire_time) q
    → All (λ t. m ≤ t.fire_time) q
All-le m n [] h a = tt
All-le m n (t ∷ q) h a = (omega arith, All-le m n q h a.1)

Any-snoc_left :
    (P : TimerCtx → Type 0) (q : List TimerCtx) (t : TimerCtx) → Any P q → Any P (q ++ t ∷ [])
Any-snoc_left P [] t h = absurd h
Any-snoc_left P (u ∷ q) t (inl h) = inl h
Any-snoc_left P (u ∷ q) t (inr h) = inr (Any-snoc_left P q t h)

Any-snoc_right :
    (P : TimerCtx → Type 0) (q : List TimerCtx) (t : TimerCtx) → P t → Any P (q ++ t ∷ [])
Any-snoc_right P [] t p = inl p
Any-snoc_right P (u ∷ q) t p = inr (Any-snoc_right P q t p)

decrease_next_cases :
    (n f : ℕ)
    → ((decrease_next n f ≡ f) × ((n ≡ 0) ⊎ (f ≤ n)))
      ⊎ ((decrease_next n f ≡ n) × (0 < n) × (n ≤ f))
unfolding decrease_next
decrease_next_cases n f = ground arith

-- The earliest of `next` (if not 0) and of a queue.
abbrev From : ℕ → ℕ → List TimerCtx → Type 0
From n m q =
    All (λ t. m ≤ t.fire_time) q
    × ((n ≡ 0) ⊎ (m ≤ n))
    × (((m ≡ n) × ((q ≡ []) ⊎ (0 < n))) ⊎ Any (λ t. m ≡ t.fire_time) q)

From-cons :
    (n m : ℕ) (t : TimerCtx) (q : List TimerCtx)
    → 0 < t.fire_time
    → From (decrease_next n t.fire_time) m q
    → From n m (t ∷ q)
From-cons n m t q pos h = elim (decrease_next_cases n t.fire_time) [
  | inl (e, c) ↦ ground (arith, e, c)
  | inr (e, p, c) ↦ ground (arith, e, p, c)
]

Any-positive :
    (n : ℕ) (q : List TimerCtx)
    → Any (λ t. n ≡ t.fire_time) q
    → All (λ t. 0 < t.fire_time) q
    → 0 < n
Any-positive n [] a p = absurd a
Any-positive n (t ∷ q) (inl e) p = omega (arith, p.0)
Any-positive n (t ∷ q) (inr a) p = Any-positive n q a p.1

below-Earliest :
    (n f : ℕ) (q : List TimerCtx) → Earliest n q → (n ≡ 0) ⊎ (f ≤ n) → All (λ t. f ≤ t.fire_time) q
below-Earliest n f [] v c = tt
below-Earliest n f (t ∷ q) v (inr c) = All-le f n (t ∷ q) c v.below
below-Earliest n f (t ∷ q) v (inl c) = elim v.attained [
  | inl (e, z) ↦ cc
  | inr a ↦ absurd (omega (arith, Any-positive n (t ∷ q) a v.positive))
]

Earliest-add :
    (n : ℕ) (q : List TimerCtx) (t : TimerCtx)
    → Earliest n q
    → 0 < t.fire_time
    → Earliest (decrease_next n t.fire_time) (q ++ t ∷ [])
Earliest-add n q t v pos = elim (decrease_next_cases n t.fire_time) [
  | inl (d, c) ↦ rw d (record {
    below =
        All-snoc (λ u. t.fire_time ≤ u.fire_time) q (below-Earliest n t.fire_time q v c)
          (omega arith);
    attained = inr (Any-snoc_right (λ u. t.fire_time ≡ u.fire_time) q t refl);
    positive = All-snoc (λ u. 0 < u.fire_time) q v.positive pos;
  })
  | inr (d, p, c) ↦ rw d (record {
    below = All-snoc (λ u. n ≤ u.fire_time) q v.below c;
    attained = elim v.attained [
      | inl (e, z) ↦ absurd (omega arith)
      | inr a ↦ inr (Any-snoc_left (λ u. n ≡ u.fire_time) q t a)
    ];
    positive = All-snoc (λ u. 0 < u.fire_time) q v.positive pos;
  })
]

-- The timers of a queue that are due at `start`, each run once, in the order of the queue.
pub run_due : {S : Type 0} → World S → ℕ → List TimerCtx → S → S
run_due world start [] s = s
run_due world start (t ∷ q) s =
    run_due world start q (if leb t.fire_time start then (world.fire t s).1 else s)

none_due :
    {S : Type 0} (world : World S) (start n : ℕ) (q : List TimerCtx) (s : S)
    → start < n
    → All (λ t. n ≤ t.fire_time) q
    → run_due world start q s ≡ s
unfolding run_due
none_due world start n [] s h a = refl
none_due world start n (t ∷ q) s h a = ground (arith, none_due world start n q s h a.1)

nothing_due :
    {S : Type 0} (world : World S) (start n : ℕ) (q : List TimerCtx) (s : S)
    → (is_empty q || ltb start n) ≡ true
    → All (λ t. n ≤ t.fire_time) q
    → run_due world start q s ≡ s
nothing_due world start n [] s e a = unfold run_due in refl
nothing_due world start n (t ∷ q) s e a = none_due world start n (t ∷ q) s (ltb→lt start n e) a

run_timers-run_due :
    {S : Type 0} (world : World S) (start : ℕ) (q : List TimerCtx) (n : ℕ) (s : S)
    → (run_timers world start q n s).2 ≡ run_due world start q s
unfolding run_timers run_due
run_timers-run_due world start [] n s = refl
run_timers-run_due world start (t ∷ q) n s = ground (
  arith,
  run_timers-run_due world start q
      (decrease_next n (world.now (world.fire t s).1 + (world.fire t s).0.repeat_delay))
      (world.fire t s).1,
  run_timers-run_due world start q n (world.fire t s).1,
  run_timers-run_due world start q (decrease_next n t.fire_time) s,
)

-- `processTimers` runs exactly the timers that are due when it begins, each once and in the order
-- of the queue. So the early return on `_next_timer_fire_time` never passes over a due timer.
pub process_timers-run_due :
    {S : Type 0} (world : World S) (ev : EventLoop) (s : S)
    → IsScheduled ev
    → (process_timers world ev s).1 ≡ run_due world (world.now s) ev.timer_queue s
unfolding process_timers
process_timers-run_due world ev s v =
    elim (Bool-cases (is_empty ev.timer_queue || ltb (world.now s) ev.next_timer_fire_time)) [
      | inl e ↦ rw e (sym (nothing_due world _ _ ev.timer_queue s e v.below))
      | inr e ↦ rw e (run_timers-run_due world (world.now s) ev.timer_queue 0 s)
    ]

module _ {S : Type 0} (world : World S) (ticking : (s : S) → 0 < world.now s) where
  abbrev Good : ℕ → List TimerCtx × ℕ × S → Type 0
  Good n r = From n r.1 r.0 × All (λ t. 0 < t.fire_time) r.0

  run_timers-Good :
      (start : ℕ) (q : List TimerCtx) (n : ℕ) (s : S)
      → All (λ t. 0 < t.fire_time) q
      → Good n (run_timers world start q n s)
  unfolding run_timers
  run_timers-Good start [] n s h = ((tt, inr (omega arith), inl (refl, inl refl)), tt)
  run_timers-Good start (t ∷ q) n s h =
      let t' = (world.fire t s).0 in
      let s' = (world.fire t s).1 in
      let again = record t' { fire_time = world.now s' + t'.repeat_delay } in
      let pos : 0 < again.fire_time = omega (arith, ticking s') in
      let repeated = run_timers-Good start q (decrease_next n again.fire_time) s' h.1 in
      let waiting = run_timers-Good start q (decrease_next n t.fire_time) s h.1 in
      if_both (Good n) (leb t.fire_time start) _ _
        (if_both (Good n) t'.repeat _ _ (From-cons n _ again _ pos repeated.0, (pos, repeated.1))
          (run_timers-Good start q n s' h.1))
        (From-cons n _ t _ h.0 waiting.0, (h.0, waiting.1))

  Earliest-of_From :
      (m : ℕ) (q : List TimerCtx) → From 0 m q → All (λ t. 0 < t.fire_time) q → Earliest m q
  Earliest-of_From m q (a, b, inl (e, inl f)) p = record {
    below = a;
    attained = inl (f, e);
    positive = p;
  }
  Earliest-of_From m q (a, b, inl (e, inr f)) p = absurd (omega arith)
  Earliest-of_From m q (a, b, inr f) p = record { below = a; attained = inr f; positive = p }

  -- Processing the timers keeps the fire time the earliest of the queue.
  pub process_timers-IsScheduled :
      (ev : EventLoop) (s : S) → IsScheduled ev → IsScheduled (process_timers world ev s).0
  unfolding process_timers
  process_timers-IsScheduled ev s v =
      let (f, p) = run_timers-Good (world.now s) ev.timer_queue 0 s v.positive in
      if_both {A = EventLoop × S} (λ r. IsScheduled r.0) _ _ _ v (Earliest-of_From _ _ f p)

  -- Adding a timer keeps the fire time the earliest of the queue.
  pub add_timer-IsScheduled :
      (ev : EventLoop) (delay callback : ℕ) (repeat : Bool) (s : S)
      → IsScheduled ev
      → IsScheduled (add_timer world ev delay callback repeat s)
  unfolding add_timer
  add_timer-IsScheduled ev delay callback repeat s v =
      Earliest-add ev.next_timer_fire_time ev.timer_queue _ v (omega (arith, ticking s))
