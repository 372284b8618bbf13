-- ===== src/Util/UriDecoding.antt =====
-- What `Util::uriDecode` of src/Util.cpp accepts and gives.
use eventhub.Prelude.{
  ℕ, ◌+◌, ◌-◌, ◌*◌, ◌/◌, ◌%◌, ◌<◌, ◌≤◌, ◌≡◌, refl, sym, ap, ap₂, subst, inl, inr, if_true, if_false,
  ◌∙◌, Bool, true, false, ◌&&◌, ◌||◌, ◌⊎◌, any, leb, codes, is_digit, is_alnum, [], ◌∷◌, Option,
  none, some, some-eq, ltb, ◌==◌, if◌then◌else◌, Bool-cases, Option-cases, Bytes, length, all,
  arith,
}
use eventhub.Util.{is_unescaped, is_xdigit, hex_value, cons, unescape, uri_decode}

-- The characters that may stand for themselves: letters, digits and seven marks.
pub data StandsForItself : ℕ → Type 0 where
  capital : {c : ℕ} → b'A' ≤ c → c ≤ b'Z' → StandsForItself c
  small : {c : ℕ} → b'a' ≤ c → c ≤ b'z' → StandsForItself c
  figure : {c : ℕ} → b'0' ≤ c → c ≤ b'9' → StandsForItself c
  mark : {c : ℕ} → any (λ m. c == m) (codes "-_.~*/+") ≡ true → StandsForItself c

-- The character is a hexadecimal digit, of either case, and this is its value.
pub data HexDigit : ℕ → ℕ → Type 0 where
  decimal_digit : {c v : ℕ} → v < 10 → c ≡ b'0' + v → HexDigit c v
  capital_digit : {c v : ℕ} → 10 ≤ v → v < 16 → c + 10 ≡ b'A' + v → HexDigit c v
  small_digit : {c v : ℕ} → 10 ≤ v → v < 16 → c + 10 ≡ b'a' + v → HexDigit c v

-- The percent-encodings of a text: a character that may stand for itself does, and every byte
-- may be written as '%' with its two hexadecimal digits.
pub data Encodes : Bytes → Bytes → Type 0 where
  nothing : Encodes [] []
  plain : {s t : Bytes} (c : ℕ) → StandsForItself c → Encodes s t → Encodes (c ∷ s) (c ∷ t)
  escape :
      {s t : Bytes} (ch1 ch2 v1 v2 : ℕ)
      → HexDigit ch1 v1
      → HexDigit ch2 v2
      → Encodes s t
      → Encodes (b'%' ∷ ch1 ∷ ch2 ∷ s) ((v1 * 16 + v2) ∷ t)

is_unescaped-of : (c : ℕ) → StandsForItself c → is_unescaped c ≡ true
is_unescaped-of c (capital h k) = ground arith
is_unescaped-of c (small h k) = ground arith
is_unescaped-of c (figure h k) = ground arith
is_unescaped-of c (mark h) = ground arith

or-cases : (a b : Bool) → (a || b) ≡ true → (a ≡ true) ⊎ (b ≡ true)
or-cases true b h = inl refl
or-cases false b h = inr h

StandsForItself-of : (c : ℕ) → is_unescaped c ≡ true → StandsForItself c
StandsForItself-of c h = elim (Bool-cases (is_alnum c)) [
  | inr n ↦ mark (ground (arith, h, n))
  | inl y ↦ elim (Bool-cases (is_digit c)) [
    | inl d ↦ figure (ground (arith, d)) (ground (arith, d))
    | inr d ↦ elim (Bool-cases (leb b'a' c && leb c b'z')) [
      | inl l ↦ small (ground (arith, l)) (ground (arith, l))
      | inr l ↦ capital (ground (arith, y, d, l)) (ground (arith, y, d, l))
    ]
  ]
]

hex_value-of : (c v : ℕ) → HexDigit c v → (is_xdigit c ≡ true) × (hex_value c ≡ v) × (v < 16)
hex_value-of c v (decimal_digit h e) = (ground arith, ground arith, omega arith)
hex_value-of c v (capital_digit h k e) = (ground arith, ground arith, omega arith)
hex_value-of c v (small_digit h k e) = (ground arith, ground arith, omega arith)

HexDigit-of : (c : ℕ) → is_xdigit c ≡ true → HexDigit c (hex_value c)
HexDigit-of c h = elim (Bool-cases (is_digit c)) [
  | inl d ↦ decimal_digit (ground (arith, d)) (ground (arith, d))
  | inr d ↦ elim (Bool-cases (leb b'a' c && leb c b'f')) [
    | inl l ↦ small_digit (ground (arith, d, l)) (ground (arith, d, l)) (ground (arith, d, l))
    | inr l ↦
        capital_digit (ground (arith, h, d, l)) (ground (arith, h, d, l)) (ground (arith, h, d, l))
  ]
]

unescape-plain :
    (c : ℕ) (s : Bytes) → is_unescaped c ≡ true → unescape (c ∷ s) ≡ cons c (unescape s)
unfolding unescape
unescape-plain c [] h = ground arith
unescape-plain c (a ∷ []) h = ground arith
unescape-plain c (a ∷ b ∷ s) h = ground arith

unescape-Encodes : {s t : Bytes} → Encodes s t → unescape s ≡ some t
unfolding unescape
unescape-Encodes nothing = refl
unescape-Encodes (plain {s} c h e) =
    unescape-plain c s (is_unescaped-of c h) ∙ ap (cons c) (unescape-Encodes e)
unescape-Encodes (escape {s} {t} a b v w h k e) =
    let x = hex_value-of a v h in
    let y = hex_value-of b w k in
    ap
      (λ z. elim z as (λ _. Option Bytes) [
        | true ↦ cons (hex_value a * 16 + hex_value b) (unescape s)
        | false ↦ none
      ])
      (ap₂ (λ i j. i && j) x.0 y.0)
    ∙ ap (cons (hex_value a * 16 + hex_value b)) (unescape-Encodes e)
    ∙ ap₂ (λ i j. some ((i * 16 + j) ∷ t)) x.1 y.1

cons-some :
    (c : ℕ) (o : Option Bytes) {t : Bytes}
    → cons c o ≡ some t
    → (u : Bytes) × ((o ≡ some u) × (c ∷ u ≡ t))
cons-some c none e = absurd (ground arith)
cons-some c (some u) e = (u, (refl, some-eq e))

and-true : (a b : Bool) → a && b ≡ true → (a ≡ true) × (b ≡ true)
and-true a b h = (ground (arith, h), ground (arith, h))

Encodes-unescape : (s t : Bytes) → unescape s ≡ some t → Encodes s t
unfolding unescape
Encodes-unescape [] t e = subst (Encodes []) (some-eq e) nothing
Encodes-unescape (c ∷ []) t e = elim (Bool-cases (is_unescaped c)) [
  | inr k ↦ absurd (ground (arith, k))
  | inl h ↦
      subst (Encodes (c ∷ []))
        (some-eq (sym (if_true (λ z. z ≡ some (c ∷ [])) (is_unescaped c) _ _ h refl) ∙ e))
        (plain c (StandsForItself-of c h) nothing)
]
Encodes-unescape (c ∷ a ∷ []) t e = elim (Bool-cases (is_unescaped c)) [
  | inr k ↦ absurd (ground (arith, k))
  | inl h ↦
      (let (u, r) = cons-some c (unescape (a ∷ [])) (sym (unescape-plain c (a ∷ []) h) ∙ e) in
        subst (Encodes (c ∷ a ∷ [])) r.1
          (plain c (StandsForItself-of c h) (Encodes-unescape (a ∷ []) u r.0)))
]
Encodes-unescape (c ∷ a ∷ b ∷ s) t e = elim (Bool-cases (is_unescaped c)) [
  | inl h ↦
      (let (u, r) = cons-some c (unescape (a ∷ b ∷ s)) (sym (unescape-plain c (a ∷ b ∷ s) h) ∙ e) in
        subst (Encodes (c ∷ a ∷ b ∷ s)) r.1
          (plain c (StandsForItself-of c h) (Encodes-unescape (a ∷ b ∷ s) u r.0)))
  | inr k ↦ elim (Bool-cases (c == b'%' && is_xdigit a && is_xdigit b)) [
    | inr k' ↦ absurd (ground (arith, k, k'))
    | inl h ↦
        (let e' : cons (hex_value a * 16 + hex_value b) (unescape s) ≡ some t =
            ground (arith, k, h, e) in
          let (u, r) = cons-some (hex_value a * 16 + hex_value b) (unescape s) e' in
          let c' : b'%' ≡ c = ground (arith, h) in
          let ha : is_xdigit a ≡ true =
            (and-true (c == b'%') (is_xdigit a)
              (and-true (c == b'%' && is_xdigit a) (is_xdigit b) h).0).1 in
          let hb : is_xdigit b ≡ true = (and-true (c == b'%' && is_xdigit a) (is_xdigit b) h).1 in
          subst (λ z. Encodes (z ∷ a ∷ b ∷ s) t) c'
            (subst (Encodes (b'%' ∷ a ∷ b ∷ s)) r.1 (
              escape a b (hex_value a) (hex_value b) (HexDigit-of a ha) (HexDigit-of b hb)
                (Encodes-unescape s u r.0))))
  ]
]

-- The texts that `uriDecode` decodes are the percent-encodings, and it decodes each to what it
-- encodes; every other text gives the empty one.
pub uri_decode_iff :
    (s : Bytes)
    → ((t : Bytes) → Encodes s t → uri_decode s ≡ t)
      × (((t : Bytes) → ¬ Encodes s t) → uri_decode s ≡ [])
unfolding uri_decode
uri_decode_iff s = (
  λ t e. ap or_nothing (unescape-Encodes e),
  λ n. (elim (Option-cases (unescape s)) [
    | inl e ↦ ap or_nothing e
    | inr (t, e) ↦ absurd (n t (Encodes-unescape s t e))
  ]),
)
  where
    or_nothing : Option Bytes → Bytes
    or_nothing o = elim o [ none ↦ [] | some unescaped ↦ unescaped ]

-- A text never grows.
Encodes-length : {s t : Bytes} → Encodes s t → length t ≤ length s
Encodes-length nothing = omega arith
Encodes-length (plain c h e) = (let k = Encodes-length e in omega arith)
Encodes-length (escape a b v w h k e) = (let r = Encodes-length e in omega arith)

-- `uriDecode` never gives more bytes than it is given.
pub length-uri_decode : (s : Bytes) → length (uri_decode s) ≤ length s
unfolding uri_decode
length-uri_decode s = go (unescape s) refl
  where
    go :
        (o : Option Bytes)
        → unescape s ≡ o
        → length (elim o as (λ _. Bytes) [ none ↦ [] | some unescaped ↦ unescaped ]) ≤ length s
    go none e = omega arith
    go (some t) e = Encodes-length (Encodes-unescape s t e)

abbrev hex_digit : ℕ → ℕ
hex_digit n = if ltb n 10 then b'0' + n else b'A' + (n - 10)

-- The encoding that escapes all that `uriDecode` does not take as it is.
abbrev pub uri_encode : Bytes → Bytes
uri_encode [] = []
uri_encode (c ∷ s) =
    let rest = uri_encode s in
    if is_unescaped c then c ∷ rest else b'%' ∷ hex_digit (c / 16) ∷ hex_digit (c % 16) ∷ rest

hex_digit-HexDigit : (n : ℕ) → n < 16 → HexDigit (hex_digit n) n
hex_digit-HexDigit n h = elim (Bool-cases (ltb n 10)) [
  | inl e ↦ decimal_digit (ground (arith, e)) (ground (arith, e))
  | inr e ↦ capital_digit (ground (arith, e)) h (ground (arith, e))
]

uri_encode-Encodes : (t : Bytes) → all (λ c. ltb c 256) t ≡ true → Encodes (uri_encode t) t
uri_encode-Encodes [] h = nothing
uri_encode-Encodes (c ∷ t) h =
    let rest = uri_encode-Encodes t (and-true (ltb c 256) (all (λ d. ltb d 256) t) h).1 in
    let v = hex_digit-HexDigit (c / 16) (ground (arith, h)) in
    let w = hex_digit-HexDigit (c % 16) (omega arith) in
    elim (Bool-cases (is_unescaped c)) [
      | inl k ↦
          if_true (λ z. Encodes z (c ∷ t)) (is_unescaped c) _ _ k
            (plain c (StandsForItself-of c k) rest)
      | inr k ↦
          if_false (λ z. Encodes z (c ∷ t)) (is_unescaped c) _ _ k
            (subst (λ z. Encodes (uri_escape c (uri_encode t)) (z ∷ t)) digits_value
              (escape (hex_digit (c / 16)) (hex_digit (c % 16)) (c / 16) (c % 16) v w rest))
    ]
  where
    uri_escape : ℕ → Bytes → Bytes
    uri_escape c s = b'%' ∷ hex_digit (c / 16) ∷ hex_digit (c % 16) ∷ s

    digits_value : c / 16 * 16 + c % 16 ≡ c
    digits_value = omega arith

-- Every text of bytes is read back from its encoding.
pub uri_decode-uri_encode :
    (t : Bytes) → all (λ c. ltb c 256) t ≡ true → uri_decode (uri_encode t) ≡ t
uri_decode-uri_encode t h = (uri_decode_iff (uri_encode t)).0 t (uri_encode-Encodes t h)
