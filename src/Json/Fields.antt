-- ===== src/Json/Fields.antt =====
-- What the readers of fields return: a bound on texts, and what an array gives.
use Prim.Native.String.{String}
use mathlib.Core.Option
use disco_c.Prelude.{
  ℕ, zero, suc, ◌≤◌, ◌≡◌, refl, sym, ap, subst, ◌≢◌, false, Option, none, some, List, [], ◌∷◌, map,
  arith, length, ◌==◌,
}
use disco_c.Prelude.Text.{text_length}
use disco_c.Json.{CJson, strndup, _d_get_string_from_json, convert_all, _d_get_array_from_json}

strndup_bound : (n : ℕ) (s : String) → text_length (strndup n s) ≤ n
unfolding strndup
strndup_bound zero s = omega arith
strndup_bound (suc n) String.[] = omega arith
strndup_bound (suc n) (String.◌∷◌ c s) = omega (arith, strndup_bound n s)

length-map : {A B : Type 0} (f : A → B) (xs : List A) → length (map f xs) ≡ length xs
length-map f [] = refl
length-map f (x ∷ xs) = ap suc (length-map f xs)

module _ {J : Type 0} (json : CJson J) where
  -- A text that is read from a field is never longer than 4097 characters, whatever was received.
  _d_get_string_from_json_bound :
      (object : J) (name s : String)
      → _d_get_string_from_json json object name ≡ some s
      → text_length s ≤ 4097
  unfolding _d_get_string_from_json
  _d_get_string_from_json_bound object name s e = field (json.get_object_item object name) e
    where
      cut : (v : Option String) → Option.map (strndup 4097) v ≡ some s → text_length s ≤ 4097
      cut none e = absurd (cc e)
      cut (some v) e =
          let q : strndup 4097 v ≡ s = cc e in
          subst (λ t. text_length t ≤ 4097) q (strndup_bound 4097 v)

      field :
          (f : Option J)
          → (elim f [ none ↦ none | some x ↦ Option.map (strndup 4097) (json.valuestring x) ])
            ≡ some s
          → text_length s ≤ 4097
      field none e = absurd (cc e)
      field (some x) e = cut (json.valuestring x) e

  -- A size and an array as the caller may use them: nothing is allocated and the size is 0, or the size
  -- is the number of elements, of which there are some.
  abbrev pub IsCount : {A : Type 0} → ℕ × Option (List A) → Type 0
  IsCount (n, none) = n ≡ 0
  IsCount (n, some a) = (n ≡ length a) × (n ≢ 0)

  convert_all-IsCount :
      {A : Type 0} (func : J → A) (js : List J) → IsCount (convert_all json func js)
  unfolding convert_all
  convert_all-IsCount func [] = refl
  convert_all-IsCount func (j ∷ js) =
      let some_element : (suc (length js) == 0) ≡ false = ground arith in
      rw some_element (sym (length-map func (j ∷ js)), omega arith)

  -- The size that is returned for a field is the number of elements that were allocated and
  -- converted; it is 0 if nothing is allocated, and only then.
  _d_get_array_from_json-IsCount :
      {A : Type 0} (object : J) (name : String) (func : J → A)
      → IsCount (_d_get_array_from_json json object name func)
  unfolding _d_get_array_from_json
  _d_get_array_from_json-IsCount {A = A} object name func = field (json.get_object_item object name)
    where
      field :
          (f : Option J)
          → IsCount {A = A}
              (elim f [ none ↦ (0, none) | some tmp ↦ convert_all json func (json.elements tmp) ])
      field none = refl
      field (some tmp) = convert_all-IsCount func (json.elements tmp)
