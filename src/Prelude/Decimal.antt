-- ===== src/Prelude/Decimal.antt =====
-- Numbers in texts: `{}` of a format string for an unsigned number, and `std::stoull`, `std::stoul`,
-- `std::stoi` and `std::stol` in base 10, where `none` stands for the exceptions they throw.
use Prim.Native.Nat.{ℕ, zero, suc, ◌+◌, ◌-◌, ◌*◌, ◌/◌, ◌%◌, ◌^◌, ◌<◌}
use mathlib.Core.Path.{◌≡◌, refl, ap, ◌∙◌}
use mathlib.Core.Bool.{Bool, true, false, ◌&&◌, ◌||◌}
use mathlib.Core.List.{[], ◌∷◌, ◌++◌}
use mathlib.Core.Option.{Option, none, some}
use mathlib.Core.Logic.{inl, inr}
use native.Mathlib.Omega.{arith}
use eventhub.Prelude.Tests.{ltb, leb, ◌==◌, if◌then◌else◌, Bool-cases, if_true, lt→ltb}
use eventhub.Prelude.Lists.{all}
use eventhub.Prelude.ByteStrings.{Bytes, is_digit}

-- The digits of n, on fuel; n + 1 steps are enough.
unfoldable pub digits : ℕ → ℕ → Bytes
digits zero n = []
digits (suc fuel) n =
    let rest = digits fuel (n / 10) in
    if ltb n 10 then (b'0' + n) ∷ [] else rest ++ (b'0' + n % 10) ∷ []

abbrev pub decimal : ℕ → Bytes
decimal n = digits (n + 1) n

-- The value of the digits in front, after those of `acc`.
unfoldable pub leading_number : ℕ → Bytes → ℕ
leading_number acc [] = acc
leading_number acc (c ∷ s) =
    let rest = leading_number (acc * 10 + (c - b'0')) s in if is_digit c then rest else acc

abbrev starts_with_digit : Bytes → Bool
starts_with_digit [] = false
starts_with_digit (c ∷ s) = is_digit c

-- `isspace` of the C locale
abbrev is_space : ℕ → Bool
is_space c = c == 32 || (leb 9 c && leb c 13)

unfoldable pub skip_space : Bytes → Bytes
skip_space [] = []
skip_space (c ∷ s) = let rest = skip_space s in if is_space c then rest else c ∷ s

unfoldable pub unsigned_number : Bytes → Option ℕ
unfolding leading_number
unsigned_number s =
    if starts_with_digit s
    then if ltb (leading_number 0 s) (2 ^ 64) then some (leading_number 0 s) else none
    else none

-- A minus sign negates in the unsigned type.
unfoldable pub signed_number : Bytes → Option ℕ
unfolding unsigned_number
signed_number [] = none
signed_number (c ∷ s) =
    if c == b'-'
    then elim (unsigned_number s) [ none ↦ none | some n ↦ some ((2 ^ 64 - n) % 2 ^ 64) ]
    else if c == b'+'
    then unsigned_number s
    else unsigned_number (c ∷ s)

unfoldable pub stoull : Bytes → Option ℕ
unfolding skip_space signed_number
stoull s = signed_number (skip_space s)

-- A number of w bits with a sign, by its bits.
abbrev int_bits : ℕ → Bool → Option ℕ → Option ℕ
int_bits w is_negative none = none
int_bits w true (some n) = if leb n (2 ^ (w - 1)) then some ((2 ^ w - n) % 2 ^ w) else none
int_bits w false (some n) = if ltb n (2 ^ (w - 1)) then some n else none

unfoldable pub signed_int : ℕ → Bytes → Option ℕ
unfolding unsigned_number
signed_int w [] = none
signed_int w (c ∷ s) =
    if c == b'-'
    then int_bits w true (unsigned_number s)
    else if c == b'+'
    then int_bits w false (unsigned_number s)
    else int_bits w false (unsigned_number (c ∷ s))

-- `std::stoi` and `std::stol`
unfoldable pub stoi : Bytes → Option ℕ
unfolding skip_space signed_int
stoi s = signed_int 32 (skip_space s)

unfoldable pub stol : Bytes → Option ℕ
unfolding skip_space signed_int
stol s = signed_int 64 (skip_space s)

leading_number-append :
    (acc : ℕ) (s t : Bytes)
    → all is_digit s ≡ true
    → leading_number acc (s ++ t) ≡ leading_number (leading_number acc s) t
unfolding leading_number
leading_number-append acc [] t h = refl
leading_number-append acc (c ∷ s) t h =
    ground (arith, leading_number-append (acc * 10 + (c - b'0')) s t)

all-append : (p : ℕ → Bool) (s t : Bytes) → all p s ≡ true → all p t ≡ true → all p (s ++ t) ≡ true
all-append p [] t h k = k
all-append p (c ∷ s) t h k = ground (arith, all-append p s t)

pub digits-all_digit : (fuel n : ℕ) → all is_digit (digits fuel n) ≡ true
unfolding digits
digits-all_digit zero n = refl
digits-all_digit (suc fuel) n = elim (Bool-cases (ltb n 10)) [
  | inl e ↦ rw e (ground arith)
  | inr e ↦ rw e (
      all-append is_digit (digits fuel (n / 10)) ((b'0' + n % 10) ∷ [])
        (digits-all_digit fuel (n / 10)) (ground arith))
]

leading_number-digit : (acc d : ℕ) → d < 10 → leading_number acc ((b'0' + d) ∷ []) ≡ acc * 10 + d
unfolding leading_number
leading_number-digit acc d h = ground arith

leading_number-digits : (fuel n : ℕ) → n < fuel → leading_number 0 (digits fuel n) ≡ n
unfolding digits
leading_number-digits zero n h = absurd (omega arith)
leading_number-digits (suc fuel) n h = elim (Bool-cases (ltb n 10)) [
  | inl e ↦ rw e (leading_number-digit 0 n (ground arith) ∙ omega arith)
  | inr e ↦ rw e (
      leading_number-append 0 (digits fuel (n / 10)) ((b'0' + n % 10) ∷ [])
        (digits-all_digit fuel (n / 10))
      ∙ ap (λ v. leading_number v ((b'0' + n % 10) ∷ []))
          (leading_number-digits fuel (n / 10) (ground arith))
      ∙ leading_number-digit (n / 10) (n % 10) (omega arith)
      ∙ omega arith)
]

starts_with_digit-append :
    (s t : Bytes) → starts_with_digit s ≡ true → starts_with_digit (s ++ t) ≡ true
starts_with_digit-append [] t h = absurd (ground arith)
starts_with_digit-append (c ∷ s) t h = h

-- There is a digit however little fuel is left.
starts_with_digit-digits : (fuel n : ℕ) → n < fuel → starts_with_digit (digits fuel n) ≡ true
unfolding digits
starts_with_digit-digits zero n h = absurd (omega arith)
starts_with_digit-digits (suc fuel) n h = elim (Bool-cases (ltb n 10)) [
  | inl e ↦ rw e (ground arith)
  | inr e ↦ rw e (
      starts_with_digit-append (digits fuel (n / 10)) ((b'0' + n % 10) ∷ [])
        (starts_with_digit-digits fuel (n / 10) (ground arith)))
]

stoull_digits : (s : Bytes) → starts_with_digit s ≡ true → stoull s ≡ unsigned_number s
unfolding stoull skip_space signed_number
stoull_digits [] h = absurd (ground arith)
stoull_digits (c ∷ s) h = ground arith

-- A printed number of 64 bits is read back.
pub stoull-decimal : (n : ℕ) → n < 2 ^ 64 → stoull (decimal n) ≡ some n
unfolding unsigned_number
stoull-decimal n h =
    let d = starts_with_digit-digits (n + 1) n (omega arith) in
    let v = leading_number-digits (n + 1) n (omega arith) in
    stoull_digits (decimal n) d
    ∙ rw (d, v) (if_true (λ o. o ≡ some n) (ltb n (2 ^ 64)) _ _ (lt→ltb n (2 ^ 64) h) refl)
