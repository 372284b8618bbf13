-- ===== src/Config.antt =====
-- The configuration, src/Config.cpp and include/Config.hpp: its options with their types, a file of
-- settings, the environment and the check of the required ones. Reading the file and the environment
-- are arguments. An exception comes with the options as it leaves them; an `int` is its 32 bits.
pub mod Lines
pub mod Settings
pub mod Loading
use eventhub.Prelude.{
  stoi, ℕ, ◌+◌, ◌-◌, ◌^◌, ◌%◌, Bool, true, false, not, ◌&&◌, ◌||◌, List, [], ◌∷◌, ◌++◌, Option,
  none, some, ltb, leb, ◌==◌, if◌then◌else◌, is_empty, map, Bytes, bytes_eq, codes, to_upper,
  unsigned_number, skip_space,
}
use eventhub.Config.Lines.{
  cons_line, lines, is_blank, is_quote, skip, front, value_text, Line, parse_value, parse_setting,
  starts_comment, parse_line, ignored, malformed, setting,
}
use eventhub.StringMap.{find}

pub data ConfigValueType : Type 0 where
  int bool string : ConfigValueType

-- `std::variant<int, bool, std::string>`
pub data ConfigValue : Type 0 where
  int_value : ℕ → ConfigValue
  bool_value : Bool → ConfigValue
  string_value : Bytes → ConfigValue

pub record ConfigOption : Type 0 where
  pub is_required : Bool
  pub value : ConfigValue
  pub has_value : Bool

pub record ConfigOptionDefinition : Type 0 where
  pub name : Bytes
  pub type : ConfigValueType
  pub default_value : Bytes
  pub is_required : Bool

pub data ConfigError : Type 0 where
  syntax_error : ℕ → ConfigError
  invalid_option : Bytes → ℕ → ConfigError
  invalid_number invalid_boolean redefinition required_missing invalid_type : Bytes → ConfigError

abbrev pub Options : Type 0
Options = List (Bytes × ConfigOption)

-- `ConfigOption::_set`: the value is read by the alternative that is there.
unfoldable pub set_int : Bytes → Option ℕ → ConfigOption → Option ConfigError × ConfigOption
set_int text none opt = (some (invalid_number text), opt)
set_int text (some n) opt = (none, record opt { value = int_value n; has_value = true })

unfoldable pub set_bool : Bytes → ConfigOption → Option ConfigError × ConfigOption
set_bool text opt =
    if bytes_eq text (codes "true") || bytes_eq text (codes "TRUE") || bytes_eq text (codes "1")
    then (none, record opt { value = bool_value true; has_value = true })
    else if bytes_eq text (codes "false")
        || bytes_eq text (codes "FALSE")
        || bytes_eq text (codes "0")
    then (none, record opt { value = bool_value false; has_value = true })
    else (some (invalid_boolean text), opt)

unfoldable pub set_value : Bytes → ConfigOption → Option ConfigError × ConfigOption
unfolding stoi set_int set_bool
set_value text opt = elim opt.value [
  | int_value _ ↦ set_int text (stoi text) opt
  | bool_value _ ↦ set_bool text opt
  | string_value _ ↦ (none, record opt { value = string_value text; has_value = true })
]

-- `ConfigOption::clear`: `_value = {}` is the variant's first alternative.
unfoldable pub clear : ConfigOption → ConfigOption
clear opt = record opt { value = int_value 0; has_value = false }

unfoldable pub clear_values : Options → Options
unfolding clear
clear_values options = map (λ entry. (entry.0, clear entry.1)) options

-- `_get<T>`: none is the exception for another type.
unfoldable pub get_int : ConfigOption → Option ℕ
get_int opt = elim opt.value [ int_value n ↦ some n | bool_value b ↦ none | string_value s ↦ none ]

unfoldable pub get_bool : ConfigOption → Option Bool
get_bool opt = elim opt.value [ int_value n ↦ none | bool_value b ↦ some b | string_value s ↦ none ]

unfoldable pub get_string : ConfigOption → Option Bytes
get_string opt = elim opt.value [
  | int_value n ↦ none
  | bool_value b ↦ none
  | string_value s ↦ some s
]

-- `T{}`
abbrev pub default_of : ConfigValueType → ConfigValue
default_of ConfigValueType.int = int_value 0
default_of ConfigValueType.bool = bool_value false
default_of ConfigValueType.string = string_value []

unfoldable pub define_option :
    Bytes → ConfigValueType → Bool → Options → Option ConfigError × Options
unfolding find
define_option name type is_required options = elim (find name options) [
  | some opt ↦ (some (redefinition name), options)
  | none ↦ (
    none,
    (name, record { is_required = is_required; value = default_of type; has_value = false })
        ∷ options,
  )
]

-- `Config(cfgMap)`: the options, and the settings of the defaults.
unfoldable pub define_options :
    List ConfigOptionDefinition → Options → Bytes → Option ConfigError × Options × Bytes
unfolding define_option
define_options [] options defaults = (none, options, defaults)
define_options (elm ∷ elms) options defaults =
    let (e, options') = define_option elm.name elm.type elm.is_required options in
    elim e [
      | some error ↦ (some error, options', defaults)
      | none ↦ define_options elms options' (
          if not (is_empty elm.default_value)
          then defaults ++ (elm.name ++ codes " = " ++ elm.default_value ++ codes "\n")
          else defaults)
    ]

-- `opt->second->_set(value)` in the map.
unfoldable pub set_option : Bytes → Bytes → Options → Option (Option ConfigError × Options)
unfolding set_value
set_option key value [] = none
set_option key value ((name, opt) ∷ options) =
    let rest = set_option key value options in
    if bytes_eq name key
    then some ((set_value value opt).0, (name, (set_value value opt).1) ∷ options)
    else elim rest [ none ↦ none | some (e, options') ↦ some (e, (name, opt) ∷ options') ]

-- `_loadFromStream`, with the number of the line before.
unfoldable pub load_lines : ℕ → List Bytes → Options → Option ConfigError × Options
unfolding parse_line set_option
load_lines line_no [] options = (none, options)
load_lines line_no (line ∷ rest) options = elim (parse_line line) [
  | ignored ↦ load_lines (line_no + 1) rest options
  | malformed ↦ (some (syntax_error (line_no + 1)), options)
  | setting key value ↦ elim (set_option key value options) [
    | none ↦ (some (invalid_option key (line_no + 1)), options)
    | some (e, options') ↦ elim e [
      | some error ↦ (some error, options')
      | none ↦ load_lines (line_no + 1) rest options'
    ]
  ]
]

unfoldable pub load_from_stream : Bytes → Options → Option ConfigError × Options
unfolding lines load_lines
load_from_stream text options = load_lines 0 (lines text) options

unfoldable pub str_to_upper : Bytes → Bytes
str_to_upper = map to_upper

-- The value of an option in the environment: its name as it is, else in upper case.
unfoldable pub env_value : (Bytes → Option Bytes) → Bytes → Option Bytes
unfolding str_to_upper
env_value getenv name = elim (getenv name) [
  | some val ↦ some val
  | none ↦ getenv (str_to_upper name)
]

unfoldable pub load_from_env : (Bytes → Option Bytes) → Options → Option ConfigError × Options
unfolding env_value set_value
load_from_env getenv [] = (none, [])
load_from_env getenv ((name, opt) ∷ options) =
    let (e, rest) = load_from_env getenv options in
    elim (env_value getenv name) [
      | none ↦ (e, (name, opt) ∷ rest)
      | some val ↦
          (let (e', opt') = set_value val opt in
            elim e' [
              | some error ↦ (some error, (name, opt') ∷ options)
              | none ↦ (e, (name, record opt' { has_value = true }) ∷ rest)
            ])
    ]

-- The check at the end of `load`.
unfoldable pub check_required : Options → Option ConfigError
check_required [] = none
check_required ((name, opt) ∷ options) =
    let rest = check_required options in
    if opt.is_required && not opt.has_value then some (required_missing name) else rest

-- A step of `load` is left out behind an exception.
abbrev pub and_then :
    (Options → Option ConfigError × Options)
    → Option ConfigError × Options
    → Option ConfigError × Options
and_then f (some error, options) = (some error, options)
and_then f (none, options) = f options

-- `file` is the text of the configuration's file, empty if there is none.
unfoldable pub load :
    Bytes → Bytes → Option (Bytes → Option Bytes) → Options → Option ConfigError × Options
unfolding load_from_stream load_from_env check_required
load defaults file env options =
    and_then (λ o. (check_required o, o))
      (and_then (λ o. elim env [ none ↦ (none, o) | some getenv ↦ load_from_env getenv o ])
        (and_then (load_from_stream file) (load_from_stream defaults options)))
