-- ===== src/Samples/Tree.antt =====
-- Inputs for the tests: a cJSON for the values that are built.
use Prim.Native.Char.{code}
use Prim.Native.String.{String}
use disco_c.Prelude.{
  ℕ, suc, ◌+◌, ◌-◌, ◌*◌, ◌≤◌, ◌<◌, Bool, true, false, Option, none, some, List, [], ◌∷◌, ◌++◌,
  arith, All, if◌then◌else◌,
}
use disco_c.Prelude.Int.{pos}
use disco_c.Json.{CJson}
use disco_c.Json.Build.{
  Value, null_value, boolean, number, real, text, object, array, Fields, no_fields, field, Items,
  no_items, item, lookup_field, items_list, or_else, same_ignoring_case,
}

-- The digits of a text, behind a number that is read already.
abbrev pub read_digits : ℕ → String → ℕ
read_digits n String.[] = n
read_digits n (String.◌∷◌ c s) = read_digits (n * 10 + (code c - 48)) s

abbrev pub tree_json : CJson (Value ℕ)
tree_json = record {
  parse = λ content. none;
  get_object_item = λ v name. elim v [ object fs ↦ lookup_field name fs | _ ↦ none ];
  get_object_item_case = λ v name. elim v [ object fs ↦ lookup_field name fs | _ ↦ none ];
  null_pointer = null_value;
  is_null = λ v. elim v [ null_value ↦ true | _ ↦ false ];
  is_number = λ v. elim v [ number n ↦ true | real r ↦ true | _ ↦ false ];
  is_object = λ v. elim v [ object fs ↦ true | _ ↦ false ];
  is_bool = λ v. elim v [ boolean b ↦ true | _ ↦ false ];
  is_array = λ v. elim v [ array xs ↦ true | _ ↦ false ];
  valueint = λ v. elim v [ number n ↦ n | boolean b ↦ (if b then pos 1 else pos 0) | _ ↦ pos 0 ];
  uint64 = λ v. elim v [ number n ↦ 7 | _ ↦ 0 ];
  seconds = λ v. pos 0;
  micros = λ v. 0;
  valuestring = λ v. elim v [ text s ↦ some s | _ ↦ none ];
  elements = λ v. elim v [ array xs ↦ items_list xs | _ ↦ [] ];
  strtoull = λ s. read_digits 0 s;
}

-- The size of a value.
abbrev mutual
  pub size : Value ℕ → ℕ
  size null_value = 0
  size (boolean b) = 0
  size (number n) = 0
  size (real r) = 0
  size (text s) = 0
  size (object fs) = suc (size_fields fs)
  size (array xs) = suc (size_items xs)

  pub size_fields : Fields ℕ → ℕ
  size_fields no_fields = 0
  size_fields (field fs name v) = size_fields fs + size v

  pub size_items : Items ℕ → ℕ
  size_items no_items = 0
  size_items (item xs v) = size_items xs + size v

-- An element of what is found is smaller than the value that it is found in.
abbrev pub found_size : Option (Value ℕ) → ℕ
found_size none = 0
found_size (some v) = suc (size v)

found_size-or_else :
    (o p : Option (Value ℕ)) (n : ℕ)
    → found_size o ≤ n
    → found_size p ≤ n
    → found_size (or_else o p) ≤ n
unfolding or_else
found_size-or_else none p n h l = l
found_size-or_else (some v) p n h l = h

found_size-if : (b : Bool) (v : Value ℕ) → found_size (if b then some v else none) ≤ suc (size v)
found_size-if true v = omega arith
found_size-if false v = omega arith

found_size-lookup_field :
    (name : String) (fs : Fields ℕ) → found_size (lookup_field name fs) ≤ suc (size_fields fs)
unfolding lookup_field
found_size-lookup_field name no_fields = omega arith
found_size-lookup_field name (field fs key v) =
    found_size-or_else (lookup_field name fs) (if same_ignoring_case key name then some v else none)
      _ (omega (arith, found_size-lookup_field name fs))
      (omega (arith, found_size-if (same_ignoring_case key name) v))

pub found_size-get :
    (v : Value ℕ) (name : String) → found_size (tree_json.get_object_item v name) ≤ size v
found_size-get null_value name = omega arith
found_size-get (boolean b) name = omega arith
found_size-get (number n) name = omega arith
found_size-get (real r) name = omega arith
found_size-get (text s) name = omega arith
found_size-get (object fs) name = found_size-lookup_field name fs
found_size-get (array xs) name = omega arith

All_snoc :
    (n : ℕ) (xs : List (Value ℕ)) (v : Value ℕ)
    → All (λ c. size c < n) xs
    → size v < n
    → All (λ c. size c < n) (xs ++ v ∷ [])
All_snoc n [] v h l = (l, tt)
All_snoc n (x ∷ xs) v (k, h) l = (k, All_snoc n xs v h l)

size_elements : (n : ℕ) (xs : Items ℕ) → size_items xs < n → All (λ c. size c < n) (items_list xs)
unfolding items_list
size_elements n no_items h = tt
size_elements n (item xs v) h =
    All_snoc n (items_list xs) v (size_elements n xs (omega (arith, h))) (omega (arith, h))

pub size-elements_of :
    (n : ℕ) (a : Value ℕ) → suc (size a) ≤ n → All (λ c. size c < n) (tree_json.elements a)
size-elements_of n null_value h = tt
size-elements_of n (boolean b) h = tt
size-elements_of n (number m) h = tt
size-elements_of n (real r) h = tt
size-elements_of n (text s) h = tt
size-elements_of n (object fs) h = tt
size-elements_of n (array xs) h = size_elements n xs (omega (arith, h))
