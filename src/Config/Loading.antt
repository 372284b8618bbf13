-- ===== src/Config/Loading.antt =====
-- What `load` of src/Config.cpp leaves behind.
use eventhub.Prelude.{
  stoi, ℕ, ◌+◌, ◌≡◌, refl, sym, ap, ap₂, ◌∙◌, Bool, true, false, ◌||◌, List, [], ◌∷◌, Option, none,
  some, some-eq, if◌then◌else◌, if_both, Bytes, bytes_eq, codes, arith,
}
use eventhub.Config.{
  ConfigValueType, ConfigValue, int_value, bool_value, string_value, ConfigOption, ConfigError,
  invalid_boolean, syntax_error, invalid_option, Options, stoi, set_int, set_bool, set_value,
  set_option, load_lines, load_from_stream, env_value, load_from_env, check_required, and_then,
  load,
}
use eventhub.Config.Lines.{Line, ignored, malformed, setting, parse_line, lines}

-- The type of an option, by the alternative that its value is of.
abbrev pub type_of : ConfigValue → ConfigValueType
type_of (int_value n) = ConfigValueType.int
type_of (bool_value b) = ConfigValueType.bool
type_of (string_value s) = ConfigValueType.string

-- What is fixed when an option is defined.
abbrev pub signature : Options → List (Bytes × Bool × ConfigValueType)
signature [] = []
signature ((name, opt) ∷ options) = (name, opt.is_required, type_of opt.value) ∷ signature options

-- The option keeps its type, and has a value if the setting was taken.
record IsKept (opt : ConfigOption) (r : Option ConfigError × ConfigOption) : Type 0 where
  is_required : r.1.is_required ≡ opt.is_required
  type : type_of r.1.value ≡ type_of opt.value
  given : r.0 ≡ none → r.1.has_value ≡ true

set_value-IsKept : (text : Bytes) (opt : ConfigOption) → IsKept opt (set_value text opt)
unfolding set_value set_int set_bool
set_value-IsKept text opt = go opt.value refl
  where
    as_int : (o : Option ℕ) (n : ℕ) → opt.value ≡ int_value n → IsKept opt (set_int text o opt)
    as_int none n e = record { is_required = refl; type = refl; given = λ h. absurd (ground arith) }
    as_int (some m) n e = record {
      is_required = refl;
      type = sym (ap type_of e);
      given = λ h. refl;
    }

    as_bool : (b : Bool) → opt.value ≡ bool_value b → IsKept opt (set_bool text opt)
    as_bool b e =
        if_both (IsKept opt)
          (bytes_eq text (codes "true")
            || bytes_eq text (codes "TRUE")
            || bytes_eq text (codes "1"))
          (none, record opt { value = bool_value true; has_value = true })
          (if bytes_eq text (codes "false")
              || bytes_eq text (codes "FALSE")
              || bytes_eq text (codes "0")
            then (none, record opt { value = bool_value false; has_value = true })
            else (some (invalid_boolean text), opt))
          (record { is_required = refl; type = sym (ap type_of e); given = λ h. refl })
          (if_both (IsKept opt)
            (bytes_eq text (codes "false")
              || bytes_eq text (codes "FALSE")
              || bytes_eq text (codes "0"))
            (none, record opt { value = bool_value false; has_value = true })
            (some (invalid_boolean text), opt)
            (record { is_required = refl; type = sym (ap type_of e); given = λ h. refl })
            (record { is_required = refl; type = refl; given = λ h. absurd (ground arith) }))

    go :
        (v : ConfigValue)
        → opt.value ≡ v
        → IsKept opt (elim v [
          | int_value _ ↦ set_int text (stoi text) opt
          | bool_value _ ↦ set_bool text opt
          | string_value _ ↦ (none, record opt { value = string_value text; has_value = true })
        ])
    go (int_value n) e = as_int (stoi text) n e
    go (bool_value b) e = as_bool b e
    go (string_value s) e = record {
      is_required = refl;
      type = sym (ap type_of e);
      given = λ h. refl;
    }

record IsAssigned (options : Options) (r : Option (Option ConfigError × Options)) : Type 0 where
  kept :
      (e : Option ConfigError) (options' : Options)
      → r ≡ some (e, options')
      → signature options' ≡ signature options

set_option-IsAssigned :
    (key text : Bytes) (options : Options) → IsAssigned options (set_option key text options)
unfolding set_option
set_option-IsAssigned key text [] = record { kept = λ e options' h. absurd (ground arith) }
set_option-IsAssigned key text ((name, opt) ∷ options) =
    if_both (IsAssigned ((name, opt) ∷ options)) (bytes_eq name key)
      (some ((set_value text opt).0, (name, (set_value text opt).1) ∷ options)) _
      (record { kept = λ e options' h. sym (ap (λ z. signature (z.1)) (some-eq h)) ∙ kept_head })
      (go (set_option key text options) (set_option-IsAssigned key text options))
  where
    kept_head :
        signature ((name, (set_value text opt).1) ∷ options) ≡ signature ((name, opt) ∷ options)
    kept_head =
        ap₂ (λ q t. (name, q, t) ∷ signature options)
          (IsKept.is_required (set_value-IsKept text opt)) (IsKept.type (set_value-IsKept text opt))

    go :
        (o : Option (Option ConfigError × Options))
        → IsAssigned options o
        → IsAssigned
            ((name, opt) ∷ options)
            (elim o [ none ↦ none | some (e, options') ↦ some (e, (name, opt) ∷ options') ])
    go none i = record { kept = λ e options' h. absurd (ground arith) }
    go (some (d, rest)) i = record {
      kept = λ e options' h.
          sym (ap (λ z. signature (z.1)) (some-eq h))
          ∙ ap (λ z. (name, opt.is_required, type_of opt.value) ∷ z)
              (IsAssigned.kept i d rest refl);
    }

load_lines-signature :
    (line_no : ℕ) (text : List Bytes) (options : Options)
    → signature (load_lines line_no text options).1 ≡ signature options
unfolding load_lines
load_lines-signature line_no [] options = refl
load_lines-signature line_no (line ∷ rest) options =
    go (parse_line line) (λ o. load_lines-signature (line_no + 1) rest o)
  where
    Same : Option ConfigError × Options → Type 0
    Same r = signature r.1 ≡ signature options

    taken :
        (o : Option (Option ConfigError × Options))
        → ((o : Options) → signature (load_lines (line_no + 1) rest o).1 ≡ signature o)
        → IsAssigned options o
        → (d : Option ConfigError × Options) → Same d
        → Same (elim o [
          | none ↦ d
          | some (e, options') ↦ elim e [
            | some error ↦ (some error, options')
            | none ↦ load_lines (line_no + 1) rest options'
          ]
        ])
    taken none i s d k = k
    taken (some (some error, options')) i s d k = IsAssigned.kept s (some error) options' refl
    taken (some (none, options')) i s d k = i options' ∙ IsAssigned.kept s none options' refl

    go :
        (l : Line)
        → ((o : Options) → signature (load_lines (line_no + 1) rest o).1 ≡ signature o)
        → Same (elim l [
          | ignored ↦ load_lines (line_no + 1) rest options
          | malformed ↦ (some (syntax_error (line_no + 1)), options)
          | setting key value ↦ elim (set_option key value options) [
            | none ↦ (some (invalid_option key (line_no + 1)), options)
            | some (e, options') ↦ elim e [
              | some error ↦ (some error, options')
              | none ↦ load_lines (line_no + 1) rest options'
            ]
          ]
        ])
    go ignored i = i options
    go malformed i = refl
    go (setting key value) i =
        taken (set_option key value options) i (set_option-IsAssigned key value options)
          (some (invalid_option key (line_no + 1)), options) refl

load_from_env-signature :
    (getenv : Bytes → Option Bytes) (options : Options)
    → signature (load_from_env getenv options).1 ≡ signature options
unfolding load_from_env
load_from_env-signature getenv [] = refl
load_from_env-signature getenv ((name, opt) ∷ options) =
    go (env_value getenv name) (load_from_env-signature getenv options)
  where
    head :
        (val : Bytes)
        → signature ((name, (set_value val opt).1) ∷ options) ≡ signature ((name, opt) ∷ options)
    head val =
        ap₂ (λ q t. (name, q, t) ∷ signature options)
          (IsKept.is_required (set_value-IsKept val opt)) (IsKept.type (set_value-IsKept val opt))

    taken :
        (val : Bytes) (e : Option ConfigError)
        → signature (load_from_env getenv options).1 ≡ signature options
        → signature
            (elim e as (λ _. Option ConfigError × Options) [
              | some error ↦ (some error, (name, (set_value val opt).1) ∷ options)
              | none ↦ (
                (load_from_env getenv options).0,
                (name, record (set_value val opt).1 { has_value = true })
                    ∷ (load_from_env getenv options).1,
              )
            ]).1
          ≡ signature ((name, opt) ∷ options)
    taken val (some error) i = head val
    taken val none i =
        ap (λ z. (name, (set_value val opt).1.is_required, type_of (set_value val opt).1.value) ∷ z)
          i
        ∙ head val

    go :
        (o : Option Bytes)
        → signature (load_from_env getenv options).1 ≡ signature options
        → signature
            (elim o as (λ _. Option ConfigError × Options) [
              | none ↦
                  ((load_from_env getenv options).0, (name, opt) ∷ (load_from_env getenv options).1)
              | some val ↦ elim (set_value val opt).0 as (λ _. Option ConfigError × Options) [
                | some error ↦ (some error, (name, (set_value val opt).1) ∷ options)
                | none ↦ (
                  (load_from_env getenv options).0,
                  (name, record (set_value val opt).1 { has_value = true })
                      ∷ (load_from_env getenv options).1,
                )
              ]
            ]).1
          ≡ signature ((name, opt) ∷ options)
    go none i = ap (λ z. (name, opt.is_required, type_of opt.value) ∷ z) i
    go (some val) i = taken val (set_value val opt).0 i

and_then-signature :
    (f : Options → Option ConfigError × Options) (r : Option ConfigError × Options)
    → ((o : Options) → signature (f o).1 ≡ signature o)
    → signature (and_then f r).1 ≡ signature r.1
and_then-signature f (some error, o) h = refl
and_then-signature f (none, o) h = h o

from_env : Option (Bytes → Option Bytes) → Options → Option ConfigError × Options
from_env env o = elim env [ none ↦ (none, o) | some getenv ↦ load_from_env getenv o ]

from_env-signature :
    (env : Option (Bytes → Option Bytes)) (o : Options) → signature (from_env env o).1 ≡ signature o
unfolding from_env
from_env-signature none o = refl
from_env-signature (some getenv) o = load_from_env-signature getenv o

-- Whatever the defaults, the file and the environment hold, and also where an exception ends it,
-- `load` keeps which options there are, in their order, which of them are required, and the type
-- of each value.
pub load-signature :
    (defaults file : Bytes) (env : Option (Bytes → Option Bytes)) (options : Options)
    → signature (load defaults file env options).1 ≡ signature options
unfolding load load_from_stream from_env
load-signature defaults file env options =
    let first = load_from_stream defaults options in
    let second = and_then (load_from_stream file) first in
    let third = and_then (from_env env) second in
    and_then-signature (λ o. (check_required o, o)) third (λ o. refl)
    ∙ and_then-signature (from_env env) second (from_env-signature env)
    ∙ and_then-signature (load_from_stream file) first (λ o. load_lines-signature 0 (lines file) o)
    ∙ load_lines-signature 0 (lines defaults) options

-- Every required option has been given a value.
abbrev pub HasRequired : Options → Type 0
HasRequired [] = Unit {0}
HasRequired ((name, opt) ∷ options) =
    (opt.is_required ≡ true → opt.has_value ≡ true) × HasRequired options

check_required-HasRequired :
    (options : Options) → check_required options ≡ none → HasRequired options
unfolding check_required
check_required-HasRequired [] h = tt
check_required-HasRequired ((name, opt) ∷ options) h =
    (λ r. ground arith, check_required-HasRequired options (ground arith))

and_then_check :
    (r : Option ConfigError × Options)
    → (and_then (λ o. (check_required o, o)) r).0 ≡ none
    → HasRequired (and_then (λ o. (check_required o, o)) r).1
and_then_check (some error, o) h = absurd (ground arith)
and_then_check (none, o) h = check_required-HasRequired o h

-- If `load` ends without an exception, every required option has a value.
pub load-HasRequired :
    (defaults file : Bytes) (env : Option (Bytes → Option Bytes)) (options : Options)
    → (load defaults file env options).0 ≡ none
    → HasRequired (load defaults file env options).1
unfolding load from_env
load-HasRequired defaults file env options h =
    and_then_check
      (and_then (from_env env)
        (and_then (load_from_stream file) (load_from_stream defaults options)))
      h
