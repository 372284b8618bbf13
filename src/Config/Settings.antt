-- ===== src/Config/Settings.antt =====
-- The lines of a configuration, `_loadFromStream` of src/Config.cpp.
use eventhub.Prelude.{
  ℕ, ◌≡◌, refl, ap, ap₂, ◌∙◌, Bool, true, false, not, ◌&&◌, ◌||◌, [], ◌∷◌, ◌++◌, ◌==◌,
  if◌then◌else◌, is_empty, if_true, if_false, Bytes, codes, all, arith,
}
use eventhub.Config.Lines.{
  Line, ignored, malformed, setting, is_blank, is_quote, skip, front, value_text, parse_value,
  parse_setting, starts_comment, parse_line,
}

front-append :
    (p : ℕ → Bool) (s t : Bytes) (c : ℕ)
    → all (λ b. not (p b)) s ≡ true
    → p c ≡ true
    → front p (s ++ c ∷ t) ≡ s
unfolding front
front-append p [] t c h k = if_true (λ z. z ≡ []) (p c) _ _ k refl
front-append p (b ∷ s) t c h k = ground (arith, front-append p s t c)

skip-append : (p : ℕ → Bool) (s t : Bytes) → all p s ≡ true → skip p (s ++ t) ≡ skip p t
unfolding skip
skip-append p [] t h = refl
skip-append p (b ∷ s) t h = ground (arith, skip-append p s t)

skip_head : (p : ℕ → Bool) (c : ℕ) (s : Bytes) → p c ≡ false → skip p (c ∷ s) ≡ c ∷ s
unfolding skip
skip_head p c s h = if_false (λ z. z ≡ c ∷ s) (p c) _ _ h refl

-- A name that a line can set: it does not look like a comment, and ends nowhere before its end.
abbrev pub is_name : Bytes → Bool
is_name [] = false
is_name (c ∷ s) = not (c == b'#') && all (λ b. not (is_blank b || b == b'=')) (c ∷ s)

abbrev ends_in_quote : Bytes → Bool
ends_in_quote [] = false
ends_in_quote (c ∷ []) = is_quote c
ends_in_quote (c ∷ d ∷ s) = ends_in_quote (d ∷ s)

-- A value that a line gives as it stands.
abbrev pub is_plain_value : Bytes → Bool
is_plain_value [] = false
is_plain_value (c ∷ s) =
    not (is_blank c || is_quote c)
    && not (ends_in_quote (c ∷ s))
    && all (λ b. not (b == 13)) (c ∷ s)

value_text_plain :
    (s : Bytes) → ends_in_quote s ≡ false → all (λ b. not (b == 13)) s ≡ true → value_text s ≡ s
unfolding value_text
value_text_plain [] h k = refl
value_text_plain (c ∷ []) h k = ground arith
value_text_plain (c ∷ d ∷ s) h k = ground (arith, value_text_plain (d ∷ s) h)

parse_value_plain :
    (name value : Bytes)
    → is_plain_value value ≡ true
    → parse_value name (b'=' ∷ 32 ∷ value) ≡ setting name value
unfolding parse_value
parse_value_plain name [] h = absurd (ground arith)
parse_value_plain name (v ∷ vs) h = ground (arith, value_text_plain (v ∷ vs))

no_equal :
    (s : Bytes)
    → all (λ b. not (is_blank b || b == b'=')) s ≡ true
    → all (λ b. not (b == b'=')) s ≡ true
no_equal [] h = refl
no_equal (c ∷ s) h = ground (arith, no_equal s)

-- A line `name = value`, the form in which the defaults are loaded, is read as that name and
-- value, if the name is not empty, has no blank and no `=` and does not start with `#`, and the
-- value is not empty, starts with no blank and no quote, does not end in a quote and has no
-- carriage return.
pub parse_line-setting :
    (name value : Bytes)
    → is_name name ≡ true
    → is_plain_value value ≡ true
    → parse_line (name ++ (codes " = " ++ value)) ≡ setting name value
unfolding parse_line parse_setting
parse_line-setting [] value h k = absurd (ground arith)
parse_line-setting (c ∷ s) value h k =
    ap line_of (skip_head is_blank c (s ++ (codes " = " ++ value)) (ground arith))
    ∙ if_false (λ z. z ≡ setting (c ∷ s) value) (c == b'#') _ _ (ground arith)
        (ap₂ setting_of
            (front-append (λ b. is_blank b || b == b'=') (c ∷ s) (codes "= " ++ value) 32
              (ground arith) refl)
            (skip-append (λ b. not (b == b'=')) (c ∷ s) (codes " = " ++ value)
              (no_equal (c ∷ s) (ground arith)))
          ∙ parse_value_plain (c ∷ s) value k)
  where
    line_of : Bytes → Line
    line_of s = if starts_comment s then ignored else parse_setting s

    setting_of : Bytes → Bytes → Line
    setting_of key s = if is_empty key then malformed else parse_value key s
