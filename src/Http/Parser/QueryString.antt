-- ===== src/Http/Parser/QueryString.antt =====
-- The query string of a request, `_parse_query_string` of src/http/Parser.cpp.
use eventhub.Prelude.{
  ℕ, zero, suc, ◌≡◌, ◌≤◌, ◌<◌, refl, sym, ap, ◌∙◌, subst, Bool, true, false, not, List, [], ◌∷◌,
  ◌++◌, Option, none, some, some-eq, ◌==◌, Option-cases, inl, inr, length, length-append, Bytes,
  all, arith,
}
use eventhub.Http.Parser.{cut, token, add_parameter, query_loop, parse_query_string}

-- The text has no such character.
abbrev pub lacks : ℕ → Bytes → Bool
lacks c s = all (λ b. not (b == c)) s

pub cut-append : (c : ℕ) (s t : Bytes) → lacks c s ≡ true → cut c (s ++ c ∷ t) ≡ some (s, t)
unfolding cut
cut-append c [] t h = ground arith
cut-append c (b ∷ s) t h = ground (arith, cut-append c s t)

cut-lacks : (c : ℕ) (s : Bytes) → lacks c s ≡ true → cut c s ≡ none
unfolding cut
cut-lacks c [] h = refl
cut-lacks c (b ∷ s) h = ground (arith, cut-lacks c s)

-- The text `param=val&param=val`, and the parameters that it names, in order.
abbrev pub query_string : List (Bytes × Bytes) → Bytes
query_string [] = []
query_string ((param, val) ∷ []) = param ++ b'=' ∷ val
query_string ((param, val) ∷ entry ∷ entries) =
    param ++ (b'=' ∷ (val ++ (b'&' ∷ query_string (entry ∷ entries))))

abbrev pub add_parameters : List (Bytes × Bytes) → List (Bytes × Bytes) → List (Bytes × Bytes)
add_parameters [] qsmap = qsmap
add_parameters ((param, val) ∷ entries) qsmap =
    add_parameters entries (add_parameter param val qsmap)

-- No parameter has an `=` and no value an `&`.
abbrev pub AreSeparable : List (Bytes × Bytes) → Type 0
AreSeparable [] = Unit {0}
AreSeparable ((param, val) ∷ entries) =
    (lacks b'=' param ≡ true) × ((lacks b'&' val ≡ true) × AreSeparable entries)

-- One pass of the loop.
query_loop-cut :
    (fuel : ℕ) (s param rest : Bytes) (qsmap : List (Bytes × Bytes))
    → cut b'=' s ≡ some (param, rest)
    → query_loop (suc fuel) s qsmap
      ≡ query_loop fuel (token b'&' rest).1 (add_parameter param (token b'&' rest).0 qsmap)
unfolding query_loop
query_loop-cut fuel s param rest qsmap e =
    ap
      (λ z. elim z as (λ _. List (Bytes × Bytes)) [
        | none ↦ qsmap
        | some (param, rest) ↦
            query_loop fuel (token b'&' rest).1 (add_parameter param (token b'&' rest).0 qsmap)
      ])
      e

token-cut :
    (c : ℕ) (s : Bytes) (o : Option (Bytes × Bytes))
    → cut c s ≡ o
    → token c s ≡ elim o [ none ↦ (s, []) | some parts ↦ parts ]
unfolding token
token-cut c s o e =
    ap (λ z. elim z as (λ _. Bytes × Bytes) [ none ↦ (s, []) | some parts ↦ parts ]) e

query_loop_nil : (fuel : ℕ) (qsmap : List (Bytes × Bytes)) → query_loop fuel [] qsmap ≡ qsmap
unfolding query_loop
query_loop_nil zero qsmap = refl
query_loop_nil (suc fuel) qsmap = refl

-- A parameter, and its value up to the next one.
query_loop_entry :
    (fuel : ℕ) (param val s tail : Bytes) (qsmap : List (Bytes × Bytes))
    → lacks b'=' param ≡ true
    → token b'&' s ≡ (val, tail)
    → query_loop (suc fuel) (param ++ b'=' ∷ s) qsmap
      ≡ query_loop fuel tail (add_parameter param val qsmap)
query_loop_entry fuel param val s tail qsmap p t =
    query_loop-cut fuel (param ++ b'=' ∷ s) param s qsmap (cut-append b'=' param s p)
    ∙ ap (λ (z : Bytes × Bytes). query_loop fuel z.1 (add_parameter param z.0 qsmap)) t

query_loop-query_string :
    (fuel : ℕ) (entries qsmap : List (Bytes × Bytes))
    → length (query_string entries) ≤ fuel
    → AreSeparable entries
    → query_loop fuel (query_string entries) qsmap ≡ add_parameters entries qsmap
query_loop-query_string fuel [] qsmap f h = query_loop_nil fuel qsmap
query_loop-query_string zero ((param, val) ∷ []) qsmap f h =
    absurd (omega (arith, f, length-append param (b'=' ∷ val)))
query_loop-query_string zero ((param, val) ∷ e ∷ es) qsmap f h =
    absurd (omega (arith, f, length-append param (b'=' ∷ (val ++ (b'&' ∷ query_string (e ∷ es))))))
query_loop-query_string (suc fuel) ((param, val) ∷ []) qsmap f (p, (v, h)) =
    query_loop_entry fuel param val val [] qsmap p (token-cut b'&' val none (cut-lacks b'&' val v))
    ∙ query_loop_nil fuel (add_parameter param val qsmap)
query_loop-query_string (suc fuel) ((param, val) ∷ e ∷ es) qsmap f (p, (v, h)) =
    let rest = query_string (e ∷ es) in
    query_loop_entry fuel param val (val ++ b'&' ∷ rest) rest qsmap p
      (token-cut b'&' (val ++ b'&' ∷ rest) (some (val, rest)) (cut-append b'&' val rest v))
    ∙ query_loop-query_string fuel (e ∷ es) (add_parameter param val qsmap)
        (omega (
          arith,
          f,
          length-append param (b'=' ∷ (val ++ (b'&' ∷ rest))),
          length-append val (b'&' ∷ rest),
        ))
        h

-- A query string is read as its parameters, added in order.
pub parse_query_string-query_string :
    (entries qsmap : List (Bytes × Bytes))
    → AreSeparable entries
    → parse_query_string (query_string entries) qsmap ≡ add_parameters entries qsmap
unfolding parse_query_string
parse_query_string-query_string entries qsmap h =
    query_loop-query_string (length (query_string entries)) entries qsmap (omega arith) h

length-cut : (c : ℕ) (s front back : Bytes) → cut c s ≡ some (front, back) → length back < length s
unfolding cut
length-cut c [] front back e = absurd (ground arith)
length-cut c (b ∷ s) front back e = go (b == c) (cut c s) (length-cut c s) refl e
  where
    go :
        (t : Bool) (o : Option (Bytes × Bytes))
        → ((f r : Bytes) → cut c s ≡ some (f, r) → length r < length s)
        → cut c s ≡ o
        → (elim t as (λ _. Option (Bytes × Bytes)) [
          | true ↦ some ([], s)
          | false ↦ elim o as (λ _. Option (Bytes × Bytes)) [
            | none ↦ none
            | some (front, back) ↦ some (b ∷ front, back)
          ]
        ])
          ≡ some (front, back)
        → length back < suc (length s)
    go true o i k e = (let q = ap (λ z. length (z.1)) (some-eq e) in omega arith)
    go false none i k e = absurd (ground arith)
    go false (some (f, r)) i k e =
        (let q = ap (λ z. length (z.1)) (some-eq e) in let j = i f r k in omega arith)

length-token : (c : ℕ) (s : Bytes) → length (token c s).1 ≤ length s
length-token c s = elim (Option-cases (cut c s)) [
  | inl e ↦ subst (λ z. length (z.1) ≤ length s) (sym (token-cut c s none e)) (omega arith)
  | inr ((f, r), e) ↦
      subst (λ z. length (z.1) ≤ length s) (sym (token-cut c s (some (f, r)) e))
        (let k = length-cut c s f r e in omega arith)
]

query_loop-none :
    (n : ℕ) (t : Bytes) (m : List (Bytes × Bytes)) → cut b'=' t ≡ none → query_loop (suc n) t m ≡ m
unfolding query_loop
query_loop-none n t m e = rw (e, query_loop) refl

-- The loop ends by itself on every text: fuel beyond the text's length changes nothing.
pub query_loop_enough :
    (f g : ℕ) (s : Bytes) (qsmap : List (Bytes × Bytes))
    → length s ≤ f
    → length s ≤ g
    → query_loop f s qsmap ≡ query_loop g s qsmap
query_loop_enough f g [] qsmap h k = query_loop_nil f qsmap ∙ sym (query_loop_nil g qsmap)
query_loop_enough zero g (c ∷ s) qsmap h k = absurd (omega arith)
query_loop_enough (suc f) zero (c ∷ s) qsmap h k = absurd (omega arith)
query_loop_enough (suc f) (suc g) (c ∷ s) qsmap h k = elim (Option-cases (cut b'=' (c ∷ s))) [
  | inl e ↦ query_loop-none f (c ∷ s) qsmap e ∙ sym (query_loop-none g (c ∷ s) qsmap e)
  | inr ((param, rest), e) ↦
      query_loop-cut f (c ∷ s) param rest qsmap e
      ∙ query_loop_enough f g (token b'&' rest).1 (add_parameter param (token b'&' rest).0 qsmap)
          (shorter f rest h (length-cut b'=' (c ∷ s) param rest e))
          (shorter g rest k (length-cut b'=' (c ∷ s) param rest e))
      ∙ sym (query_loop-cut g (c ∷ s) param rest qsmap e)
]
  where
    shorter :
        (n : ℕ) (rest : Bytes)
        → suc (length s) ≤ suc n
        → length rest < suc (length s)
        → length (token b'&' rest).1 ≤ n
    shorter n rest h k = omega (arith, length-token b'&' rest)
