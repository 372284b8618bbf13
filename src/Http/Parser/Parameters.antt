-- ===== src/Http/Parser/Parameters.antt =====
-- What a request's path and parameters are, `parse` and `getQueryString` of src/http/Parser.cpp.
use eventhub.Prelude.{
  ℕ, ◌+◌, ◌≡◌, refl, ap, ap₂, ◌∙◌, subst, true, false, not, ◌&&◌, inl, inr, List, [], ◌∷◌, ◌++◌,
  some, leb, if◌then◌else◌, is_empty, Bool-cases, Bytes, bytes_eq, bytes_eq_iff, to_lower,
  str_to_lower, arith,
}
use eventhub.StringMap.{find, assign, find-assign_self, find-assign_other}
use eventhub.Http.Parser.{
  Parser, cut, add_parameter, parse_query_string, set_path, text_of, get_query_string,
}
use eventhub.Http.Parser.QueryString.{
  lacks, cut-append, query_string, add_parameters, AreSeparable, parse_query_string-query_string,
}

-- A name without regard to case: its capital letters made small.
abbrev pub lowered : Bytes → Bytes
lowered [] = []
lowered (c ∷ s) = (if leb b'A' c && leb c b'Z' then c + 32 else c) ∷ lowered s

-- The value of the last parameter that has the name, without regard to case, a name and a value that
-- are not empty; `otherwise` if there is none.
abbrev pub last_value : Bytes → List (Bytes × Bytes) → Bytes → Bytes
last_value name [] otherwise = otherwise
last_value name ((param, val) ∷ entries) otherwise = last_value name entries (
    if bytes_eq (lowered param) (lowered name) && not (is_empty param) && not (is_empty val)
    then val
    else otherwise)

str_to_lower-lowered : (s : Bytes) → str_to_lower s ≡ lowered s
unfolding str_to_lower
str_to_lower-lowered [] = refl
str_to_lower-lowered (c ∷ s) = ap (◌∷◌ (to_lower c)) (str_to_lower-lowered s)

find-add_parameter :
    (key param val : Bytes) (qsmap : List (Bytes × Bytes))
    → text_of (find key (add_parameter param val qsmap)) ≡ (
        if bytes_eq (str_to_lower param) key && not (is_empty param) && not (is_empty val)
        then val
        else text_of (find key qsmap))
unfolding add_parameter
find-add_parameter key param val qsmap =
    elim (Bool-cases (not (is_empty param) && not (is_empty val))) [
      | inr e ↦ ground (arith, e)
      | inl e ↦ elim (Bool-cases (bytes_eq (str_to_lower param) key)) [
        | inl k ↦
            (let f : find key (assign (str_to_lower param) val qsmap) ≡ some val =
                subst (λ z. find z (assign (str_to_lower param) val qsmap) ≡ some val)
                  ((bytes_eq_iff (str_to_lower param) key).0 k)
                  (find-assign_self (str_to_lower param) val qsmap) in
              ground (arith, e, k, f))
        | inr k ↦ ground (arith, e, k, find-assign_other (str_to_lower param) key val qsmap k)
      ]
    ]

find-add_parameters :
    (name : Bytes) (entries qsmap : List (Bytes × Bytes))
    → text_of (find (str_to_lower name) (add_parameters entries qsmap))
      ≡ last_value name entries (text_of (find (str_to_lower name) qsmap))
find-add_parameters name [] qsmap = refl
find-add_parameters name ((param, val) ∷ entries) qsmap =
    find-add_parameters name entries (add_parameter param val qsmap)
    ∙ ap (last_value name entries) (
        find-add_parameter (str_to_lower name) param val qsmap
        ∙ ap₂
            (λ x y.
              if bytes_eq x y && not (is_empty param) && not (is_empty val)
              then val
              else text_of (find (str_to_lower name) qsmap))
            (str_to_lower-lowered param) (str_to_lower-lowered name))

set_path-cut :
    (raw_path path q_str : Bytes) (p : Parser)
    → is_empty raw_path ≡ false
    → cut b'?' raw_path ≡ some (path, q_str)
    → set_path raw_path p ≡ record p { path = path; qsmap = parse_query_string q_str p.qsmap }
unfolding set_path
set_path-cut raw_path path q_str p h e = ground (arith, h, e)

is_empty-append : (s t : Bytes) (c : ℕ) → is_empty (s ++ c ∷ t) ≡ false
is_empty-append [] t c = refl
is_empty-append (x ∷ s) t c = refl

-- A request for `path?param=val&param=val...`, where the path has no '?', no name an '=' and no value
-- an '&', has this path, and asked for a parameter, it gives the value of the last entry with that
-- name, without regard to case. An entry whose name or value is empty does not count. A parameter
-- that no entry names has the value that it had before.
pub get_query_string-set_path :
    (path name : Bytes) (entries : List (Bytes × Bytes)) (p : Parser)
    → lacks b'?' path ≡ true
    → AreSeparable entries
    → ((set_path (path ++ b'?' ∷ query_string entries) p).path ≡ path)
      × (get_query_string name (set_path (path ++ b'?' ∷ query_string entries) p)
          ≡ last_value name entries (get_query_string name p))
unfolding get_query_string
get_query_string-set_path path name entries p h k =
    let q = query_string entries in
    let e =
      set_path-cut (path ++ b'?' ∷ q) path q p (is_empty-append path q b'?')
        (cut-append b'?' path q h) in
    (
      ap (λ z. z.path) e,
      ap (λ z. text_of (find (str_to_lower name) (z.qsmap))) e
          ∙ ap (λ m. text_of (find (str_to_lower name) m))
              (parse_query_string-query_string entries p.qsmap k)
          ∙ find-add_parameters name entries p.qsmap,
    )
