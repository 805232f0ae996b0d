-- ===== src/Structures/Component.antt =====
-- src/discord/component.c and include/discord/component.h: components, the tree of their rows, and emojis
-- (src/discord/emoji.c), which are not implemented.
pub mod Blocks
pub mod Nesting
use Prim.Native.String.{String}
use mathlib.Core.Option
use disco_c.Prelude.{
  ℕ, zero, suc, ◌+◌, ◌-◌, ◌*◌, ◌/◌, ◌%◌, ◌^◌, ◌≤◌, ◌<◌, ◌≡◌, refl, sym, ap, ◌∙◌, subst, ◌≢◌, ◌↔◌,
  ◌⊎◌, inl, inr, Bool, true, false, not, ◌&&◌, ◌||◌, Option, none, some, List, [], ◌∷◌, ◌++◌, map,
  arith, length, length-append, All, ltb, leb, ◌==◌, if◌then◌else◌, ltb→lt, lt→ltb, leb→le, ==_iff,
  Bool-cases, Option-cases,
}
use disco_c.Prelude.Int.{ℤ, pos, eqb_ℤ}
use disco_c.Json.{
  CJson, _d_get_string_from_json, _d_get_bool_from_json, _d_get_int_from_json,
  _d_get_array_from_json,
}
use disco_c.Structures.User.{User, copy_text, free_texts}
use disco_c.Structures.Embed.{array_of}

-- `struct discord_emoji`.
pub record Emoji : Type 0 where
  pub id : Option String
  pub name : Option String
  pub roles : List String
  pub user : Option User
  pub require_colons : Bool
  pub managed : Bool
  pub animated : Bool
  pub available : Bool

pub record Button : Type 0 where
  pub style : ℤ
  pub label : Option String
  pub emoji : Option Emoji
  pub custom_id : Option String
  pub url : Option String
  pub disabled : Bool

pub record SelectOption : Type 0 where
  pub label : Option String
  pub value : Option String
  pub description : Option String
  pub emoji : Option Emoji
  pub _default : Bool

pub record SelectMenu : Type 0 where
  pub custom_id : Option String
  pub options : List SelectOption
  pub placeholder : Option String
  pub min_values : ℤ
  pub max_values : ℤ
  pub disabled : Bool

pub record TextInput : Type 0 where
  pub custom_id : Option String
  pub style : ℤ
  pub label : Option String
  pub min_length : ℤ
  pub max_length : ℤ
  pub required : Bool
  pub value : Option String
  pub placeholder : Option String

-- `struct discord_component`: the four types, and the others with their number, of which the union is NULL.
mutual
  pub data Component : Type 0 where
    action_row : Components → Component
    button : Button → Component
    select_menu : SelectMenu → Component
    text_input : TextInput → Component
    other_component : ℤ → Component

  -- The components of a row.
  pub data Components : Type 0 where
    no_components : Components
    component_and : Component → Components → Components

unfoldable pub _d_json_to_emoji : {J : Type 0} → J → Option Emoji
_d_json_to_emoji value = none

unfoldable pub _d_copy_emoji : Option Emoji → Option Emoji
_d_copy_emoji src = none

-- The components of a list, none if one is none.
unfoldable pub components_of : List (Option Component) → Option Components
components_of [] = some no_components
components_of (c ∷ rest) =
    let others = components_of rest in
    elim c [ none ↦ none | some first ↦ Option.map (λ cs. component_and first cs) others ]

module _ {J : Type 0} (json : CJson J) where
  unfoldable pub emoji_of : J → Option Emoji
  unfolding _d_json_to_emoji
  emoji_of object = elim (json.get_object_item object "emoji") [
    | none ↦ none
    | some tmp ↦ _d_json_to_emoji tmp
  ]

  unfoldable pub _d_json_to_select_option : J → SelectOption
  unfolding _d_get_string_from_json _d_get_bool_from_json emoji_of
  _d_json_to_select_option object = record {
    label = _d_get_string_from_json json object "label";
    value = _d_get_string_from_json json object "value";
    description = _d_get_string_from_json json object "description";
    emoji = emoji_of object;
    _default = _d_get_bool_from_json json object "default" false;
  }

  unfoldable pub json_to_button : J → Button
  unfolding _d_get_string_from_json _d_get_bool_from_json _d_get_int_from_json emoji_of
  json_to_button object = record {
    style = _d_get_int_from_json json object "style" (pos 1);
    label = _d_get_string_from_json json object "label";
    emoji = emoji_of object;
    custom_id = _d_get_string_from_json json object "custom_id";
    url = _d_get_string_from_json json object "url";
    disabled = _d_get_bool_from_json json object "disabled" false;
  }

  unfoldable pub json_to_select_menu : J → SelectMenu
  unfolding _d_get_string_from_json _d_get_bool_from_json _d_get_int_from_json
      _d_get_array_from_json array_of _d_json_to_select_option
  json_to_select_menu object = record {
    custom_id = _d_get_string_from_json json object "custom_id";
    options = array_of (_d_get_array_from_json json object "options" _d_json_to_select_option);
    placeholder = _d_get_string_from_json json object "placeholder";
    min_values = _d_get_int_from_json json object "min_values" (pos 1);
    max_values = _d_get_int_from_json json object "max_values" (pos 1);
    disabled = _d_get_bool_from_json json object "disabled" false;
  }

  unfoldable pub json_to_text_input : J → TextInput
  unfolding _d_get_string_from_json _d_get_bool_from_json _d_get_int_from_json
  json_to_text_input object = record {
    custom_id = _d_get_string_from_json json object "custom_id";
    style = _d_get_int_from_json json object "style" (pos 1);
    label = _d_get_string_from_json json object "label";
    min_length = _d_get_int_from_json json object "min_length" (pos 0);
    max_length = _d_get_int_from_json json object "max_length" (pos 1);
    required = _d_get_bool_from_json json object "required" false;
    value = _d_get_string_from_json json object "value";
    placeholder = _d_get_string_from_json json object "placeholder";
  }

  -- The conversion of a value of a type; `row` are the components that a row would have.
  unfoldable pub json_of_type : ℤ → Option Components → J → Option Component
  unfolding json_to_button json_to_select_menu json_to_text_input
  json_of_type type row object =
      if eqb_ℤ type (pos 1)
      then Option.map action_row row
      else if eqb_ℤ type (pos 2)
      then some (button (json_to_button object))
      else if eqb_ℤ type (pos 3)
      then some (select_menu (json_to_select_menu object))
      else if eqb_ℤ type (pos 4)
      then some (text_input (json_to_text_input object))
      else some (other_component type)

  -- `none` is more nesting of rows than the fuel allows for.
  unfoldable pub _d_json_to_component : ℕ → J → Option Component
  unfolding _d_get_int_from_json _d_get_array_from_json array_of components_of json_of_type
  _d_json_to_component zero object = none
  _d_json_to_component (suc fuel) object =
      json_of_type (_d_get_int_from_json json object "type" (pos 0))
        (components_of
          (array_of (_d_get_array_from_json json object "components" (_d_json_to_component fuel))))
        object

unfoldable pub copied_select_option : SelectOption → SelectOption
unfolding copy_text _d_copy_emoji
copied_select_option src = record {
  label = copy_text 101 src.label;
  value = copy_text 101 src.value;
  description = copy_text 101 src.description;
  emoji = _d_copy_emoji src.emoji;
  _default = src._default;
}

unfoldable pub copied_button : Button → Button
unfolding copy_text _d_copy_emoji
copied_button src = record src {
  label = copy_text 101 src.label;
  emoji = _d_copy_emoji src.emoji;
  custom_id = copy_text 101 src.custom_id;
  url = copy_text 2050 src.url;
}

unfoldable pub copied_select_menu : SelectMenu → SelectMenu
unfolding copy_text copied_select_option
copied_select_menu src = record src {
  custom_id = copy_text 101 src.custom_id;
  options = map copied_select_option src.options;
  placeholder = copy_text 151 src.placeholder;
}

unfoldable pub copied_text_input : TextInput → TextInput
unfolding copy_text
copied_text_input src = record src {
  custom_id = copy_text 101 src.custom_id;
  label = copy_text 50 src.label;
  value = copy_text 4001 src.value;
  placeholder = copy_text 101 src.placeholder;
}

-- The copy of a component that is not NULL.
unfoldable mutual
  unfolding copied_button copied_select_menu copied_text_input

  pub _d_copy_component : Component → Component
  _d_copy_component (action_row cs) = action_row (copied_components cs)
  _d_copy_component (button b) = button (copied_button b)
  _d_copy_component (select_menu m) = select_menu (copied_select_menu m)
  _d_copy_component (text_input t) = text_input (copied_text_input t)
  _d_copy_component (other_component type) = other_component type

  pub copied_components : Components → Components
  copied_components no_components = no_components
  copied_components (component_and c cs) =
      component_and (_d_copy_component c) (copied_components cs)

-- The number of blocks of memory that a destruction frees. Emojis are not freed.
unfoldable pub discord_destroy_select_option : SelectOption → ℕ
unfolding free_texts
discord_destroy_select_option option =
    length (free_texts (option.label ∷ option.value ∷ option.description ∷ [])) + 1

-- An array is freed if there is one.
unfoldable pub free_array : ℕ → ℕ
free_array zero = 0
free_array (suc n) = 1

unfoldable pub destroy_options : List SelectOption → ℕ
unfolding discord_destroy_select_option
destroy_options [] = 0
destroy_options (o ∷ rest) = discord_destroy_select_option o + destroy_options rest

unfoldable pub count_components : Components → ℕ
count_components no_components = 0
count_components (component_and c cs) = suc (count_components cs)

unfoldable mutual
  unfolding free_texts free_array destroy_options count_components

  pub discord_destroy_component : Component → ℕ
  discord_destroy_component (action_row cs) =
      destroy_components cs + free_array (count_components cs) + 1
  discord_destroy_component (button b) =
      length (free_texts (b.label ∷ b.custom_id ∷ b.url ∷ [])) + 1
  discord_destroy_component (select_menu m) =
      destroy_options m.options
      + free_array (length m.options)
      + length (free_texts (m.custom_id ∷ m.placeholder ∷ []))
      + 1
  discord_destroy_component (text_input t) =
      length (free_texts (t.custom_id ∷ t.label ∷ t.value ∷ t.placeholder ∷ [])) + 1
  discord_destroy_component (other_component type) = 1

  pub destroy_components : Components → ℕ
  destroy_components no_components = 0
  destroy_components (component_and c cs) = discord_destroy_component c + destroy_components cs
