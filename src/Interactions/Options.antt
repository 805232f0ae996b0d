-- ===== src/Interactions/Options.antt =====
-- src/discord/interaction.c: the options of a command that was used.
pub mod Nesting
use Prim.Native.String.{String}
use mathlib.Core.Option
use disco_c.Prelude.{
  ℕ, zero, suc, ◌≡◌, refl, ap, subst, Bool, false, not, Option, none, some, List, [], ◌∷◌,
  if◌then◌else◌,
}
use disco_c.Prelude.Int.{ℤ, pos, eqb_ℤ}
use disco_c.Json.{
  CJson, strndup, _d_get_string_from_json, _d_get_bool_from_json, _d_get_int_from_json,
  _d_get_array_from_json,
}
use disco_c.Structures.User.{copy_text}
use disco_c.Structures.Embed.{array_of}

-- `enum Value_Type`.
pub data ValueType : Type 0 where
  value_string value_integer value_double : ValueType

-- The union of a value by the member that was written; `no_value` is the zero bits of `calloc`.
pub data OptionValue (R : Type 0) : Type 0 where
  no_value : OptionValue R
  string_ : Option String → OptionValue R
  int_ : ℤ → OptionValue R
  double_ : R → OptionValue R

-- `struct discord_interaction_data_option` but for its options.
pub record DataParts (R : Type 0) : Type 0 where
  pub name : Option String
  pub type : ℤ
  pub value_type : ValueType
  pub value : OptionValue R
  pub focused : Bool

-- An option and its options.
mutual
  pub data DataOption (R : Type 0) : Type 0 where
    data_option : DataParts R → DataOptions R → DataOption R

  pub data DataOptions (R : Type 0) : Type 0 where
    no_data_options : DataOptions R
    data_option_and : DataOption R → DataOptions R → DataOptions R

unfoldable pub data_options_of :
    {R : Type 0} → List (Option (DataOption R)) → Option (DataOptions R)
data_options_of [] = some no_data_options
data_options_of (o ∷ rest) =
    let others = data_options_of rest in
    elim o [ none ↦ none | some first ↦ Option.map (λ os. data_option_and first os) others ]

-- `valuedouble` is that of cJSON, `nought` the double 0.
module _ {J R : Type 0} (json : CJson J) (valuedouble : J → R) (nought : R) where
  unfoldable pub _d_get_double_from_string_json : J → String → R → R
  _d_get_double_from_string_json object name default_ = elim (json.get_object_item object name) [
    | none ↦ default_
    | some tmp ↦ if not (json.is_number tmp) then default_ else valuedouble tmp
  ]

  unfoldable pub value_of : ℤ → J → OptionValue R
  unfolding _d_get_string_from_json _d_get_int_from_json _d_get_double_from_string_json
  value_of type object =
      if eqb_ℤ type (pos 3)
      then string_ (_d_get_string_from_json json object "value")
      else if eqb_ℤ type (pos 4)
      then int_ (_d_get_int_from_json json object "value" (pos 0))
      else if eqb_ℤ type (pos 10)
      then double_ (_d_get_double_from_string_json object "value" nought)
      else no_value

  -- The kind of the value is not set: it stays the 0 of `calloc`.
  unfoldable pub data_parts_of : J → DataParts R
  unfolding _d_get_string_from_json _d_get_bool_from_json _d_get_int_from_json value_of
  data_parts_of object = record {
    name = _d_get_string_from_json json object "name";
    type = _d_get_int_from_json json object "type" (pos 0);
    value_type = value_string;
    value = value_of (_d_get_int_from_json json object "type" (pos 0)) object;
    focused = _d_get_bool_from_json json object "focused" false;
  }

  -- `none` is more nesting of options than the fuel allows for.
  unfoldable pub _d_json_to_interaction_data_option : ℕ → J → Option (DataOption R)
  unfolding data_parts_of _d_get_array_from_json array_of data_options_of
  _d_json_to_interaction_data_option zero object = none
  _d_json_to_interaction_data_option (suc fuel) object =
      Option.map (λ os. data_option (data_parts_of object) os)
        (data_options_of (
          array_of (
            _d_get_array_from_json json object "options"
              (_d_json_to_interaction_data_option fuel))))

-- `is_zero` tells whether all bits of a double are 0.
module _ {R : Type 0} (is_zero : R → Bool) where
  -- The value read as a pointer to a text; none if it is neither NULL nor one.
  unfoldable pub as_string : OptionValue R → Option (Option String)
  as_string no_value = some none
  as_string (string_ s) = some s
  as_string (int_ n) = if eqb_ℤ n (pos 0) then some none else none
  as_string (double_ d) = if is_zero d then some none else none

  -- A text is copied; NULL leaves the value as `memcpy` left it.
  unfoldable pub copied_string : OptionValue R → Option String → OptionValue R
  unfolding strndup
  copied_string value none = value
  copied_string value (some s) = string_ (some (strndup 120 s))

  unfoldable pub copied_value : ValueType → OptionValue R → Option (OptionValue R)
  unfolding as_string copied_string
  copied_value value_string value = Option.map (copied_string value) (as_string value)
  copied_value value_integer value = some value
  copied_value value_double value = some value

  unfoldable pub copied_parts : DataParts R → Option (DataParts R)
  unfolding copied_value copy_text
  copied_parts src =
      Option.map (λ v. record src { name = copy_text 50 src.name; value = v })
        (copied_value src.value_type src.value)

  unfoldable pub with_options :
      Option (DataParts R) → Option (DataOptions R) → Option (DataOption R)
  with_options none options = none
  with_options (some parts) options = Option.map (λ os. data_option parts os) options

  -- The copy of an option that is not NULL; none for a read through what is no pointer.
  unfoldable mutual
    unfolding copied_parts with_options

    pub _d_copy_interaction_data_option : DataOption R → Option (DataOption R)
    _d_copy_interaction_data_option (data_option src options) =
        with_options (copied_parts src) (copied_data_options options)

    pub copied_data_options : DataOptions R → Option (DataOptions R)
    copied_data_options no_data_options = some no_data_options
    copied_data_options (data_option_and o rest) =
        let first = _d_copy_interaction_data_option o in
        let others = copied_data_options rest in
        elim first [ none ↦ none | some c ↦ Option.map (λ cs. data_option_and c cs) others ]

-- A property of the value, if there is one.
abbrev ForSome : {A : Type 0} → (A → Type 0) → Option A → Type 0
ForSome P none = Unit
ForSome P (some a) = P a

map-ForSome :
    {A B : Type 0} (P : B → Type 0) (g : A → B) (x : Option A)
    → ((a : A) → P (g a))
    → ForSome P (Option.map g x)
map-ForSome P g none law = tt
map-ForSome P g (some a) law = law a

copy-no_parts :
    {R : Type 0} (is_zero : R → Bool) (parts : DataParts R) (os : DataOptions R)
    → copied_parts is_zero parts ≡ none
    → _d_copy_interaction_data_option is_zero (data_option parts os) ≡ none
unfolding _d_copy_interaction_data_option
copy-no_parts is_zero parts os e =
    ap (λ p. with_options is_zero p (copied_data_options is_zero os)) e

as_string-int_ :
    {R : Type 0} (is_zero : R → Bool) (n : ℤ)
    → eqb_ℤ n (pos 0) ≡ false
    → as_string is_zero (int_ n) ≡ none
unfolding as_string
as_string-int_ is_zero n h = rw h refl

module _ {J R : Type 0} (json : CJson J) (valuedouble : J → R) (nought : R)
    (is_zero : R → Bool) where
  copied_int_parts :
      (object : J) (n : ℤ)
      → _d_get_int_from_json json object "type" (pos 0) ≡ pos 4
      → _d_get_int_from_json json object "value" (pos 0) ≡ n
      → eqb_ℤ n (pos 0) ≡ false
      → copied_parts is_zero (data_parts_of json valuedouble nought object) ≡ none
  unfolding copied_parts data_parts_of copied_value value_of
  copied_int_parts object n t v h = rw (t, v, as_string-int_ is_zero n h) refl

  -- An option that was read with the type INTEGER and a number other than 0: whatever else it has,
  -- and whatever options it has, its copy reads memory at that number as if it were a text.
  pub copy-int_option :
      (fuel : ℕ) (object : J) (n : ℤ) (o : DataOption R)
      → _d_get_int_from_json json object "type" (pos 0) ≡ pos 4
      → _d_get_int_from_json json object "value" (pos 0) ≡ n
      → eqb_ℤ n (pos 0) ≡ false
      → _d_json_to_interaction_data_option json valuedouble nought fuel object ≡ some o
      → _d_copy_interaction_data_option is_zero o ≡ none
  unfolding _d_json_to_interaction_data_option _d_copy_interaction_data_option
  copy-int_option zero object n o t v h e =
      subst (ForSome (λ c. _d_copy_interaction_data_option is_zero c ≡ none)) e tt
  copy-int_option (suc fuel) object n o t v h e =
      subst (ForSome (λ c. _d_copy_interaction_data_option is_zero c ≡ none)) e (
        map-ForSome (λ c. _d_copy_interaction_data_option is_zero c ≡ none) _ _
          (λ os.
            copy-no_parts is_zero (data_parts_of json valuedouble nought object) os
              (copied_int_parts object n t v h)))
