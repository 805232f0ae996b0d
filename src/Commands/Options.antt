-- ===== src/Commands/Options.antt =====
-- src/discord/command.c and include/discord/command.h: the locales, the choices, the options and the commands,
-- and their JSON. A number that may be any `double` is of the type R.
use Prim.Native.String.{String}
use mathlib.Core.Option
use disco_c.Prelude.{ℕ, Bool, true, false, Option, none, some, List, [], ◌∷◌, ◌==◌, if◌then◌else◌}
use disco_c.Prelude.Int.{ℤ, pos}
use disco_c.Prelude.Decimal.{print_uint}
use disco_c.Json.Build.{
  Value, text, boolean, number, real, object, Fields, no_fields, field, add_text, add_if, add_array,
}
use disco_c.Outgoing.Buffer.{sprintf}
use disco_c.Commands.Order.{ordered_options}

-- `struct discord_language_locales`.
pub record LanguageLocales : Type 0 where
  pub da : Option String
  pub de : Option String
  pub en_gb : Option String
  pub en_us : Option String
  pub es_es : Option String
  pub fr : Option String
  pub hr : Option String
  pub it : Option String
  pub lt : Option String
  pub hu : Option String
  pub nl : Option String
  pub no : Option String
  pub pl : Option String
  pub pt_br : Option String
  pub ro : Option String
  pub fi : Option String
  pub sv_se : Option String
  pub vi : Option String
  pub tr : Option String
  pub cs : Option String
  pub el : Option String
  pub bg : Option String
  pub ru : Option String
  pub uk : Option String
  pub hi : Option String
  pub th : Option String
  pub zh_cn : Option String
  pub ja : Option String
  pub zh_tw : Option String
  pub ko : Option String

-- The names and the texts, in the order in which they are written.
unfoldable pub locale_entries : LanguageLocales → List (String × Option String)
locale_entries l =
    ("da", l.da)
    ∷ ("de", l.de)
    ∷ ("en_GB", l.en_gb)
    ∷ ("en_US", l.en_us)
    ∷ ("es_ES", l.es_es)
    ∷ ("fr", l.fr)
    ∷ ("hr", l.hr)
    ∷ ("it", l.it)
    ∷ ("lt", l.lt)
    ∷ ("hu", l.hu)
    ∷ ("nl", l.nl)
    ∷ ("no", l.no)
    ∷ ("pl", l.pl)
    ∷ ("pt_BR", l.pt_br)
    ∷ ("ro", l.ro)
    ∷ ("fi", l.fi)
    ∷ ("sv_SE", l.sv_se)
    ∷ ("vi", l.vi)
    ∷ ("tr", l.tr)
    ∷ ("cs", l.cs)
    ∷ ("el", l.el)
    ∷ ("bg", l.bg)
    ∷ ("ru", l.ru)
    ∷ ("uk", l.uk)
    ∷ ("hi", l.hi)
    ∷ ("th", l.th)
    ∷ ("zh_CN", l.zh_cn)
    ∷ ("ja", l.ja)
    ∷ ("zh_TW", l.zh_tw)
    ∷ ("ko", l.ko)
    ∷ []

-- `enum Discord_Application_Command_Option_Type`.
pub data OptionType : Type 0 where
  option_sub_command option_sub_command_group option_string option_integer : OptionType
  option_boolean option_user option_channel option_role : OptionType
  option_mentionable option_number option_attachment : OptionType

unfoldable pub is_numeric : OptionType → Bool
is_numeric option_integer = true
is_numeric option_number = true
is_numeric _ = false

unfoldable pub is_string : OptionType → Bool
is_string option_string = true
is_string _ = false

-- `struct discord_application_command_option_choice`; the text that the union of its value may hold instead is
-- never read.
pub record Choice (R : Type 0) : Type 0 where
  pub name : Option String
  pub name_localizations : Option LanguageLocales
  pub number : R

-- `struct discord_application_command_option` but for its options.
pub record OptionParts (R : Type 0) : Type 0 where
  pub type : OptionType
  pub name : Option String
  pub name_localizations : Option LanguageLocales
  pub description : Option String
  pub description_localizations : Option LanguageLocales
  pub required : Bool
  pub choices : List (Choice R)
  pub channel_types : List ℤ
  pub min_value : R
  pub max_value : R
  pub min_length : ℤ
  pub max_length : ℤ
  pub autocomplete : Bool

-- An option and its options.
mutual
  pub data CommandOption (R : Type 0) : Type 0 where
    command_option : OptionParts R → CommandOptions R → CommandOption R

  pub data CommandOptions (R : Type 0) : Type 0 where
    no_options : CommandOptions R
    option_and : CommandOption R → CommandOptions R → CommandOptions R

module _ {R : Type 0} where
  unfoldable pub add_texts : List (String × Option String) → Fields R → Fields R
  unfolding add_text
  add_texts [] json = json
  add_texts ((name, s) ∷ rest) json = add_texts rest (add_text name s json)

  unfoldable pub discord_fill_json_with_locales : LanguageLocales → Fields R → Fields R
  unfolding add_texts locale_entries
  discord_fill_json_with_locales locales json = add_texts (locale_entries locales) json

  -- An object of its own with the locales.
  unfoldable pub add_locales : String → LanguageLocales → Fields R → Fields R
  unfolding discord_fill_json_with_locales
  add_locales name locales json =
      field json name (object (discord_fill_json_with_locales locales no_fields))

  unfoldable pub add_choice : OptionType → Choice R → Value R
  unfolding add_text add_if add_locales is_numeric
  add_choice type choice =
      let json =
        add_if choice.name_localizations (add_locales "name_localizations")
          (add_text "name" choice.name no_fields) in
      object (if is_numeric type then field json "value" (real choice.number) else json)

  -- What stands before the options of an option.
  unfoldable pub option_head : OptionParts R → Fields R
  unfolding add_text add_if add_locales add_choice add_array
  option_head o =
      let texts = add_text "description" o.description (add_text "name" o.name no_fields) in
      let locales =
        add_if o.description_localizations (add_locales "description_localizations")
          (add_if o.name_localizations (add_locales "name_localizations") texts) in
      add_array "choices" (add_choice o.type) o.choices
        (field locales "required" (boolean o.required))

  -- What stands behind them.
  unfoldable pub option_tail : OptionParts R → Fields R → Fields R
  unfolding add_array is_numeric is_string
  option_tail o json =
      let typed = add_array "channel_types" number o.channel_types json in
      let limited =
        if is_numeric o.type
        then field (field typed "min_value" (real o.min_value)) "max_value" (real o.max_value)
        else typed in
      let sized =
        if is_string o.type
        then field (field limited "min_length" (number o.min_length)) "max_length"
            (number o.max_length)
        else limited in
      field sized "autocomplete" (boolean o.autocomplete)

  -- Options in their order, with their objects.
  unfoldable pub add_options : List (Bool × Value R) → Fields R → Fields R
  unfolding add_array
  add_options options json = add_array "options" (λ o. o.1) options json

  unfoldable pub option_required : CommandOption R → Bool
  option_required (command_option o _) = o.required

  unfoldable pub add_ordered : List (Bool × Value R) → Fields R → Option (Fields R)
  unfolding ordered_options add_options
  add_ordered options json =
      Option.map (λ ordered. add_options ordered json) (ordered_options (λ o. o.0) options)

  -- The object of an option, and those of the options of an option, each with whether it is required. The
  -- objects are made before they are put in order, which they do not depend on.
  unfoldable mutual
    unfolding option_head option_tail option_required add_ordered

    pub add_option : CommandOption R → Option (Value R)
    add_option (command_option o options) = elim (option_objects options) [
      | none ↦ none
      | some objects ↦
          Option.map (λ json. object (option_tail o json)) (add_ordered objects (option_head o))
    ]

    pub option_objects : CommandOptions R → Option (List (Bool × Value R))
    option_objects no_options = some []
    option_objects (option_and o rest) =
        let first = add_option o in
        let others = option_objects rest in
        elim first [ none ↦ none | some v ↦ Option.map (λ vs. (option_required o, v) ∷ vs) others ]

-- `struct discord_application_command` but for two members that nothing reads; the type 0 is none.
pub record Command (R : Type 0) : Type 0 where
  pub type : ℕ
  pub guild_id : ℕ
  pub name : Option String
  pub name_localizations : Option LanguageLocales
  pub description : Option String
  pub description_localizations : Option LanguageLocales
  pub options : CommandOptions R
  pub default_member_permissions : Option String
  pub dm_permission : Bool
  pub version : ℕ

module _ {R : Type 0} where
  unfoldable pub command_head : String → Command R → Fields R → Fields R
  unfolding add_text add_if add_locales
  command_head name command json =
      let named = field json "name" (text name) in
      let typed =
        if command.type == 0 then named else field named "type" (number (pos command.type)) in
      add_if command.description_localizations (add_locales "description_localizations") (
        add_if command.name_localizations (add_locales "name_localizations")
          (add_text "description" command.description typed))

  -- The version is printed into a buffer of 20 bytes: none if it does not fit.
  unfoldable pub add_version : ℕ → Fields R → Option (Fields R)
  unfolding sprintf print_uint
  add_version version json =
      if version == 0
      then some json
      else Option.map (λ s. field json "version" (text s)) (sprintf 20 (print_uint version))

  unfoldable pub command_tail : Command R → Fields R → Option (Fields R)
  unfolding add_text add_version
  command_tail command json = add_version command.version (
      field (add_text "default_member_permissions" command.default_member_permissions json)
        "dm_permission" (boolean command.dm_permission))

  unfoldable pub command_fields : String → Command R → Fields R → Option (Fields R)
  unfolding command_head command_tail option_objects add_ordered
  command_fields name command json = elim (option_objects command.options) [
    | none ↦ none
    | some objects ↦ elim (add_ordered objects (command_head name command json)) [
      | none ↦ none
      | some json' ↦ command_tail command json'
    ]
  ]

  -- The JSON and the value returned: 1 if there is no name.
  unfoldable pub format_json : Command R → Fields R → Option (Fields R × ℕ)
  unfolding command_fields
  format_json command json = elim command.name [
    | none ↦ some (json, 1)
    | some name ↦ Option.map (λ json'. (json', 0)) (command_fields name command json)
  ]
