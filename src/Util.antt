-- ===== src/Util.antt =====
-- `Util::uriDecode` of src/Util.cpp. Its early returns of the empty string are none until
-- `uri_decode`, and a `char` is a byte value, so that no byte above 127 is alphanumeric.
pub mod UriDecoding
use eventhub.Prelude.{
  ℕ, ◌+◌, ◌-◌, ◌*◌, Bool, true, false, ◌&&◌, ◌||◌, List, [], ◌∷◌, Option, none, some, leb, ◌==◌,
  if◌then◌else◌, Bytes, is_digit, is_alnum, to_upper,
}

-- The characters that stand for themselves.
abbrev pub is_unescaped : ℕ → Bool
is_unescaped c =
    is_alnum c
    || c == b'-'
    || c == b'_'
    || c == b'.'
    || c == b'~'
    || c == b'*'
    || c == b'/'
    || c == b'+'

-- `isxdigit` of the C locale
abbrev pub is_xdigit : ℕ → Bool
is_xdigit c = is_digit c || (leb b'a' c && leb c b'f') || (leb b'A' c && leb c b'F')

-- The value of a hexadecimal digit.
abbrev pub hex_value : ℕ → ℕ
hex_value ch = if is_digit ch then ch - b'0' else to_upper ch - b'A' + 10

abbrev pub cons : ℕ → Option Bytes → Option Bytes
cons c none = none
cons c (some s) = some (c ∷ s)

-- The loop; an escape needs two more characters.
unfoldable pub unescape : Bytes → Option Bytes
unescape [] = some []
unescape (c ∷ []) = if is_unescaped c then some (c ∷ []) else none
unescape (c ∷ ch1 ∷ []) =
    let rest = unescape (ch1 ∷ []) in if is_unescaped c then cons c rest else none
unescape (c ∷ ch1 ∷ ch2 ∷ s) = elim (is_unescaped c) [
  | true ↦ cons c (unescape (ch1 ∷ ch2 ∷ s))
  | false ↦ elim (c == b'%' && is_xdigit ch1 && is_xdigit ch2) [
    | true ↦ cons (hex_value ch1 * 16 + hex_value ch2) (unescape s)
    | false ↦ none
  ]
]

unfoldable pub uri_decode : Bytes → Bytes
unfolding unescape
uri_decode str = elim (unescape str) [ none ↦ [] | some unescaped ↦ unescaped ]
