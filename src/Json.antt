-- ===== src/Json.antt =====
-- What the client uses of cJSON, and the readers of src/discord/disco.c that convert the fields of a
-- JSON object. A NULL from a lookup is `none`, of which cJSON's tests are all false.
pub mod Build
pub mod Fields
use Prim.Native.String.{String}
use mathlib.Core.Option
use disco_c.Prelude.{
  ℕ, zero, suc, ◌+◌, ◌-◌, ◌≡◌, ◌≤◌, refl, Bool, true, false, not, ◌==◌, Option, none, some, List,
  [], ◌∷◌, map, length, if◌then◌else◌,
}
use disco_c.Prelude.Text.{same}
use disco_c.Prelude.Int.{ℤ, pos, negsuc, eqb_ℤ}

-- Objects and their fields; `get_object_item` does not tell upper from lower case.
pub record CJson (J : Type 0) : Type 0 where
  pub parse : List ℕ → Option J
  pub get_object_item : J → String → Option J
  pub get_object_item_case : J → String → Option J
  -- NULL as the object of a lookup, which gives NULL again.
  pub null_pointer : J
  pub is_null : J → Bool
  pub is_number : J → Bool
  pub is_object : J → Bool
  pub is_bool : J → Bool
  pub is_array : J → Bool
  pub valueint : J → ℤ
  -- `(uint64_t)valuedouble`, `(time_t)valuedouble` and `(time_t)(valuedouble * 1e6)`.
  pub uint64 : J → ℕ
  pub seconds : J → ℤ
  pub micros : J → ℕ
  -- NULL for a value that is no string, which is what `cJSON_IsString` tests.
  pub valuestring : J → Option String
  -- The elements of an array or an object; none for other values.
  pub elements : J → List J
  -- `strtoull(…, NULL, 10)`.
  pub strtoull : String → ℕ

-- `strndup`: so many characters at most.
unfoldable pub strndup : ℕ → String → String
strndup zero s = String.[]
strndup (suc n) String.[] = String.[]
strndup (suc n) (String.◌∷◌ c s) = String.◌∷◌ c (strndup n s)

module _ {J : Type 0} (json : CJson J) where
  -- A test of a field; that of NULL is false.
  unfoldable pub holds : (J → Bool) → Option J → Bool
  holds test none = false
  holds test (some field) = test field

  unfoldable pub _d_get_string_from_json : J → String → Option String
  unfolding strndup
  _d_get_string_from_json object name = elim (json.get_object_item object name) [
    | none ↦ none
    | some field ↦ Option.map (strndup 4097) (json.valuestring field)
  ]

  unfoldable pub _d_get_bool_from_json : J → String → Bool → Bool
  _d_get_bool_from_json object name default_ = elim (json.get_object_item object name) [
    | none ↦ default_
    | some field ↦
        if not (json.is_bool field) then default_ else not (eqb_ℤ (json.valueint field) (pos 0))
  ]

  unfoldable pub _d_get_int_from_json : J → String → ℤ → ℤ
  _d_get_int_from_json object name default_ = elim (json.get_object_item object name) [
    | none ↦ default_
    | some field ↦ if not (json.is_number field) then default_ else json.valueint field
  ]

  -- The size returned, and the array if one is allocated.
  unfoldable pub convert_all : {A : Type 0} → (J → A) → List J → ℕ × Option (List A)
  convert_all func elements =
      if length elements == 0 then (0, none) else (length elements, some (map func elements))

  unfoldable pub _d_get_array_from_json : {A : Type 0} → J → String → (J → A) → ℕ × Option (List A)
  unfolding convert_all
  _d_get_array_from_json object name func = elim (json.get_object_item object name) [
    | none ↦ (0, none)
    | some tmp ↦ convert_all func (json.elements tmp)
  ]

  unfoldable pub _d_get_long_from_string_json : J → String → ℕ → ℕ
  _d_get_long_from_string_json object name default_ = elim (json.get_object_item object name) [
    | none ↦ default_
    | some tmp ↦
        if json.is_number tmp
        then json.uint64 tmp
        else (elim (json.valuestring tmp) [ none ↦ default_ | some s ↦ json.strtoull s ])
  ]
