-- ===== src/StringMap.antt =====
-- Maps from strings, which the code keeps in `std::unordered_map` and `std::map`: association lists.
-- `find` and `erase` serve both. `assign` is `map[key] = value`: it keeps the order of the keys, as
-- `std::map` does; the order of an unordered map is left open by the language, and is the same here.
use eventhub.Prelude.{
  ◌≡◌, inl, inr, ap, ◌∙◌, Bool, true, false, ◌&&◌, ◌||◌, List, [], ◌∷◌, Option, none, some, ltb,
  ◌==◌, if◌then◌else◌, Bytes, bytes_eq, bytes_eq_refl, bytes_eq_iff, Bool-cases, arith,
}

-- `find`, `count` and `at`
unfoldable pub find : {A : Type 0} → Bytes → List (Bytes × A) → Option A
find key [] = none
find key ((k, v) ∷ entries) = let rest = find key entries in if bytes_eq k key then some v else rest

unfoldable pub erase : {A : Type 0} → Bytes → List (Bytes × A) → List (Bytes × A)
erase key [] = []
erase key ((k, v) ∷ entries) =
    let rest = erase key entries in if bytes_eq k key then rest else (k, v) ∷ rest

-- `operator<` of `std::string`
unfoldable pub bytes_lt : Bytes → Bytes → Bool
bytes_lt [] [] = false
bytes_lt [] (b ∷ bs) = true
bytes_lt (a ∷ as') [] = false
bytes_lt (a ∷ as') (b ∷ bs) = ltb a b || (a == b && bytes_lt as' bs)

unfoldable pub assign : {A : Type 0} → Bytes → A → List (Bytes × A) → List (Bytes × A)
unfolding bytes_lt
assign key value [] = (key, value) ∷ []
assign key value ((k, v) ∷ entries) =
    let rest = assign key value entries in
    if bytes_eq k key
    then (k, value) ∷ entries
    else if bytes_lt key k
    then (key, value) ∷ (k, v) ∷ entries
    else (k, v) ∷ rest

pub find-assign_self :
    {A : Type 0} (key : Bytes) (value : A) (m : List (Bytes × A))
    → find key (assign key value m) ≡ some value
unfolding find assign
find-assign_self key value [] = ground (arith, bytes_eq_refl key)
find-assign_self key value ((k, v) ∷ m) =
    ground (arith, bytes_eq_refl key, find-assign_self key value m)

pub find-assign_other :
    {A : Type 0} (key other : Bytes) (value : A) (m : List (Bytes × A))
    → bytes_eq key other ≡ false
    → find other (assign key value m) ≡ find other m
unfolding find assign
find-assign_other key other value [] h = ground (arith, h)
find-assign_other key other value ((k, v) ∷ m) h = elim (Bool-cases (bytes_eq k key)) [
  | inl e ↦
      (let d : bytes_eq k other ≡ false =
          ap (λ z. bytes_eq z other) ((bytes_eq_iff k key).0 e) ∙ h in
        ground (arith, e, d))
  | inr e ↦ ground (arith, h, e, find-assign_other key other value m h)
]
