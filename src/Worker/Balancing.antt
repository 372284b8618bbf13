-- ===== src/Worker/Balancing.antt =====
-- The choice of a worker for each connection: `getWorker` of src/Server.cpp in the loop of
-- `_acceptConnection` of src/ConnectionWorker.cpp.
use eventhub.Prelude.{
  ℕ, zero, suc, ◌+◌, ◌≤◌, ◌<◌, ◌≡◌, refl, sym, ap, subst, Bool, true, false, ◌⊎◌, inl, inr, List,
  [], ◌∷◌, ◌==◌, leb, if◌then◌else◌, Bool-cases, map, arith,
}
use eventhub.Worker.{
  get_worker, AcceptResult, accepted, interrupted, drained, failed, accept_connections,
}

-- The workers of a number of calls.
abbrev pub choices : ℕ → ℕ → ℕ → List ℕ
choices workers cur zero = []
choices workers cur (suc calls) =
    (get_worker workers cur).0 ∷ choices workers (get_worker workers cur).1 calls

abbrev pub Among : ℕ → List ℕ → Type 0
Among w [] = ⊥
Among w (x ∷ xs) = (x ≡ w) ⊎ Among w xs

-- The connections accepted before the loop ends.
abbrev pub accepted_count : List AcceptResult → ℕ
accepted_count [] = 0
accepted_count (accepted fd ∷ results) = suc (accepted_count results)
accepted_count (interrupted ∷ results) = accepted_count results
accepted_count (drained ∷ results) = 0
accepted_count (failed ∷ results) = 0

accept_connections-choices :
    (workers cur : ℕ) (results : List AcceptResult)
    → map (λ g. g.0) (accept_connections workers cur results).0
      ≡ choices workers cur (accepted_count results)
unfolding accept_connections
accept_connections-choices workers cur [] = refl
accept_connections-choices workers cur (accepted fd ∷ results) =
    ap (λ z. (get_worker workers cur).0 ∷ z)
      (accept_connections-choices workers (get_worker workers cur).1 results)
accept_connections-choices workers cur (interrupted ∷ results) =
    accept_connections-choices workers cur results
accept_connections-choices workers cur (drained ∷ results) = refl
accept_connections-choices workers cur (failed ∷ results) = refl

next : (cur : ℕ) (b : Bool) → b ≡ false → cur + 1 ≡ (if b then 0 else cur) + 1
next cur true e = absurd (ground arith)
next cur false e = refl

-- From a position in front of it, a worker is reached before the end of the list.
choices-ahead :
    (workers cur w calls : ℕ)
    → cur ≤ w
    → w < workers
    → w < cur + calls
    → Among w (choices workers cur calls)
unfolding get_worker
choices-ahead workers cur w zero h k l = absurd (omega arith)
choices-ahead workers cur w (suc calls) h k l = elim (Bool-cases (cur == w)) [
  | inl e ↦ inl (ground (arith, e))
  | inr e ↦ inr (
      subst (λ z. Among w (choices workers z calls))
        (next cur (cur == workers) (ground (arith, h, k)))
        (choices-ahead workers (cur + 1) w calls (ground (arith, e)) k (omega arith)))
]

-- From anywhere, it is reached on the next round at the latest.
choices-round :
    (workers cur w calls : ℕ)
    → cur ≤ workers
    → w < workers
    → workers + w < calls + cur
    → Among w (choices workers cur calls)
unfolding get_worker
choices-round workers cur w zero h k l = absurd (omega arith)
choices-round workers cur w (suc calls) h k l = elim (Bool-cases (cur == workers)) [
  | inl e ↦
      subst (λ z. Among w (z ∷ choices workers (z + 1) calls))
        (first (cur == workers) (0 == workers) e (ground (arith, k)))
        (choices-ahead workers 0 w (suc calls) (omega arith) k (ground (arith, e, l)))
  | inr e ↦ inr (
      subst (λ z. Among w (choices workers z calls)) (next cur (cur == workers) e)
        (choices-round workers (cur + 1) w calls (ground (arith, e)) k (omega arith)))
]
  where
    first : (b c : Bool) → b ≡ true → c ≡ false → (if c then 0 else 0) ≡ (if b then 0 else cur)
    first true c e k = ground arith
    first false c e k = absurd (ground arith)

-- Of the connections accepted in one go, each worker is given at least one if there are no fewer
-- connections than workers, wherever in its list, or at its end, the server stands.
pub accept_connections_reach :
    (workers cur w : ℕ) (results : List AcceptResult)
    → cur ≤ workers
    → w < workers
    → workers ≤ accepted_count results
    → Among w (map (λ g. g.0) (accept_connections workers cur results).0)
accept_connections_reach workers cur w results h k l =
    subst (Among w) (sym (accept_connections-choices workers cur results))
      (elim (Bool-cases (leb cur w)) [
        | inl e ↦
            choices-ahead workers cur w (accepted_count results) (ground (arith, e)) k (omega arith)
        | inr e ↦ choices-round workers cur w (accepted_count results) h k (ground (arith, e, l))
      ])
