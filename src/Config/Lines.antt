-- ===== src/Config/Lines.antt =====
-- The lines of a configuration and what each says, `_loadFromStream` of src/Config.cpp.
use eventhub.Prelude.{ℕ, Bool, true, not, ◌||◌, List, [], ◌∷◌, ◌==◌, if◌then◌else◌, is_empty, Bytes}

-- `std::getline` until the end of the stream.
unfoldable pub cons_line : ℕ → List Bytes → List Bytes
cons_line c [] = (c ∷ []) ∷ []
cons_line c (line ∷ rest) = (c ∷ line) ∷ rest

unfoldable pub lines : Bytes → List Bytes
unfolding cons_line
lines [] = []
lines (c ∷ s) = let rest = lines s in if c == 10 then [] ∷ rest else cons_line c rest

abbrev pub is_blank : ℕ → Bool
is_blank c = c == 32 || c == 9

abbrev pub is_quote : ℕ → Bool
is_quote c = c == b'"' || c == b'\''

-- The loops over the line: past the characters of a class, up to one of a class, and the characters
-- in front of it.
unfoldable pub skip : (ℕ → Bool) → Bytes → Bytes
skip p [] = []
skip p (c ∷ s) = let rest = skip p s in if p c then rest else c ∷ s

unfoldable pub front : (ℕ → Bool) → Bytes → Bytes
front p [] = []
front p (c ∷ s) = let rest = front p s in if p c then [] else c ∷ rest

-- The value: a quote at the very end is left out, and so is every carriage return.
unfoldable pub value_text : Bytes → Bytes
value_text [] = []
value_text (c ∷ []) = if is_quote c || c == 13 then [] else c ∷ []
value_text (c ∷ d ∷ s) = let rest = value_text (d ∷ s) in if c == 13 then rest else c ∷ rest

-- What a line says: nothing, key and value, or neither.
pub data Line : Type 0 where
  ignored malformed : Line
  setting : Bytes → Bytes → Line

-- The rest of a line from its equal sign.
unfoldable pub parse_value : Bytes → Bytes → Line
unfolding skip value_text
parse_value key [] = malformed
parse_value key (c ∷ s) =
    let value = value_text (skip (λ d. is_blank d || is_quote d) s) in
    if is_empty value then malformed else setting key value

unfoldable pub parse_setting : Bytes → Line
unfolding front skip parse_value
parse_setting s =
    let key = front (λ c. is_blank c || c == b'=') s in
    if is_empty key then malformed else parse_value key (skip (λ c. not (c == b'=')) s)

abbrev pub starts_comment : Bytes → Bool
starts_comment [] = true
starts_comment (c ∷ s) = c == b'#'

unfoldable pub parse_line : Bytes → Line
unfolding skip parse_setting
parse_line line =
    let s = skip is_blank line in if starts_comment s then ignored else parse_setting s
