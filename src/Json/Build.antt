-- ===== src/Json/Build.antt =====
-- What the client uses of cJSON to build a value: the values that `cJSON_Create…` make, and their growth by
-- `cJSON_Add…`, which put an item behind those that an object or an array has.
use Prim.Native.Char.{code}
use Prim.Native.String.{String}
use disco_c.Prelude.{
  ℕ, ◌+◌, Bool, true, false, ◌&&◌, Option, none, some, List, [], ◌∷◌, ◌++◌, leb, ◌==◌,
  if◌then◌else◌,
}
use disco_c.Prelude.Int.{ℤ}

-- A number is an `int` or, by `real`, any other double. Objects and arrays have their last item outermost.
mutual
  pub data Value (R : Type 0) : Type 0 where
    null_value : Value R
    boolean : Bool → Value R
    number : ℤ → Value R
    real : R → Value R
    text : String → Value R
    object : Fields R → Value R
    array : Items R → Value R

  pub data Fields (R : Type 0) : Type 0 where
    no_fields : Fields R
    field : Fields R → String → Value R → Fields R

  pub data Items (R : Type 0) : Type 0 where
    no_items : Items R
    item : Items R → Value R → Items R

module _ {R : Type 0} where
  -- `cJSON_AddItemToObject` of `cJSON_CreateString`, which of NULL makes nothing that could be added.
  unfoldable pub add_text : String → Option String → Fields R → Fields R
  add_text name none fields = fields
  add_text name (some s) fields = field fields name (text s)

  -- The calls for a structure that may be NULL.
  unfoldable pub add_if : {A : Type 0} → Option A → (A → Fields R → Fields R) → Fields R → Fields R
  add_if none add fields = fields
  add_if (some a) add fields = add a fields

  -- A loop that adds an item to an array for each element.
  unfoldable pub add_each : {A : Type 0} → (A → Value R) → List A → Items R → Items R
  add_each make [] items = items
  add_each make (a ∷ rest) items = add_each make rest (item items (make a))

  -- An array is added if there are elements for it.
  unfoldable pub add_array : {A : Type 0} → String → (A → Value R) → List A → Fields R → Fields R
  unfolding add_each
  add_array name make [] fields = fields
  add_array name make (a ∷ rest) fields =
      field fields name (array (add_each make (a ∷ rest) no_items))

-- The names of fields are compared without regard to upper and lower case.
unfoldable pub lower : ℕ → ℕ
lower c = if leb 65 c && leb c 90 then c + 32 else c

unfoldable pub same_ignoring_case : String → String → Bool
unfolding lower
same_ignoring_case String.[] String.[] = true
same_ignoring_case String.[] (String.◌∷◌ d t) = false
same_ignoring_case (String.◌∷◌ c s) String.[] = false
same_ignoring_case (String.◌∷◌ c s) (String.◌∷◌ d t) =
    let rest = same_ignoring_case s t in if lower (code c) == lower (code d) then rest else false

-- The first one if there is one, else the other one.
unfoldable pub or_else : {A : Type 0} → Option A → Option A → Option A
or_else none b = b
or_else (some a) b = some a

-- `cJSON_GetObjectItem`: the first field of the name.
unfoldable pub lookup_field : {R : Type 0} → String → Fields R → Option (Value R)
unfolding or_else same_ignoring_case
lookup_field name no_fields = none
lookup_field name (field fields key v) =
    or_else (lookup_field name fields) (if same_ignoring_case key name then some v else none)

-- The elements of an array, from the first one.
unfoldable pub items_list : {R : Type 0} → Items R → List (Value R)
items_list no_items = []
items_list (item items v) = items_list items ++ v ∷ []
