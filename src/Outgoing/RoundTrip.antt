-- ===== src/Outgoing/RoundTrip.antt =====
-- What is written into the JSON of a message and read again from it.
pub mod Parts
pub mod Reading
pub mod Embed
use Prim.Native.String.{String}
use mathlib.Core.Option
use disco_c.Prelude.{
  ℕ, zero, suc, ◌+◌, ◌-◌, ◌*◌, ◌/◌, ◌%◌, ◌^◌, ◌≤◌, ◌<◌, ◌≡◌, refl, sym, ap, ◌∙◌, subst, ◌≢◌, ◌↔◌,
  ◌⊎◌, inl, inr, Bool, true, false, not, ◌&&◌, ◌||◌, Option, none, some, List, [], ◌∷◌, ◌++◌, map,
  arith, length, length-append, All, ltb, leb, ◌==◌, if◌then◌else◌, ltb→lt, lt→ltb, leb→le, ==_iff,
  Bool-cases, Option-cases,
}
use disco_c.Prelude.Int.{ℤ, pos, negsuc, eqb_ℤ}
use disco_c.Prelude.Text.{text_length}
use disco_c.Prelude.Decimal.{print_uint}
use disco_c.Json.{
  CJson, strndup, _d_get_string_from_json, _d_get_bool_from_json, _d_get_int_from_json,
  _d_get_long_from_string_json,
}
use disco_c.Json.Build.{
  Value, text, number, boolean, object, array, Fields, Items, no_fields, field, add_text, or_else,
  lookup_field, items_list, same_ignoring_case,
}
use disco_c.Structures.Copies.{Fits, strndup_short}
use disco_c.Structures.Embed.{
  EmbedAuthor, EmbedFooter, EmbedField, _d_json_to_embed_author, _d_json_to_embed_footer,
  _d_json_to_embed_field,
}
use disco_c.Outgoing.Embeds.{author_object, footer_object, field_object}

-- What cJSON documents of a value that was built, printed and parsed again. (Names are compared without
-- regard to case; `int`s come back as they were.)
pub record IsTree {R : Type 0} (json : CJson (Value R)) : Type 0 where
  pub item :
      (fields : Fields R) (name : String)
      → json.get_object_item (object fields) name ≡ lookup_field name fields
  pub string : (s : String) → json.valuestring (text s) ≡ some s
  pub bool : (b : Bool) → json.is_bool (boolean b) ≡ true
  pub truth : (b : Bool) → json.valueint (boolean b) ≡ (if b then pos 1 else pos 0)
  pub numeric : (n : ℤ) → json.is_number (number n) ≡ true
  pub int : (n : ℤ) → json.valueint (number n) ≡ n
  pub elements : (xs : Items R) → json.elements (array xs) ≡ items_list xs
  pub no_number : (s : String) → json.is_number (text s) ≡ false
  pub uint : (n : ℕ) → n < 2 ^ 64 → json.strtoull (print_uint n) ≡ n

pub or_else-none : {A : Type 0} (o : Option A) → or_else o none ≡ o
unfolding or_else
or_else-none none = refl
or_else-none (some a) = refl

module _ {R : Type 0} where
  pub lookup-add_text :
      (name key : String) (o : Option String) (fs : Fields R)
      → lookup_field name (add_text key o fs)
        ≡ or_else
            (lookup_field name fs)
            (if same_ignoring_case key name then Option.map text o else none)
  unfolding add_text lookup_field
  lookup-add_text name key none fs = elim (Bool-cases (same_ignoring_case key name)) [
    | inl e ↦ rw e (sym (or_else-none (lookup_field name fs)))
    | inr e ↦ rw e (sym (or_else-none (lookup_field name fs)))
  ]
  lookup-add_text name key (some s) fs = refl

module _ {R : Type 0} (json : CJson (Value R)) (tree : IsTree json) where
  -- A text within the limit is read as it was written.
  pub read_text :
      (name : String) (o : Option String) (fs : Fields R)
      → lookup_field name fs ≡ Option.map text o
      → Fits 4097 o
      → _d_get_string_from_json json (object fs) name ≡ o
  unfolding _d_get_string_from_json
  read_text name none fs e w = rw (tree.item fs name, e, _d_get_string_from_json) refl
  read_text name (some s) fs e w =
      rw (tree.item fs name, e, tree.string s, _d_get_string_from_json)
        (ap some (strndup_short 4097 s w))

  author_lookups :
      (a : EmbedAuthor)
      → (lookup_field {R = R} "name" (author_object a) ≡ Option.map text a.name)
        × (lookup_field {R = R} "url" (author_object a) ≡ Option.map text a.url)
        × (lookup_field {R = R} "icon_url" (author_object a) ≡ Option.map text a.icon_url)
        × (lookup_field {R = R} "proxy_icon_url" (author_object a)
            ≡ Option.map text a.proxy_icon_url)
  unfolding author_object same_ignoring_case lookup_field or_else
  author_lookups a = (
    simp (lookup-add_text, or_else-none),
    simp (lookup-add_text, or_else-none),
    simp (lookup-add_text, or_else-none),
    simp (lookup-add_text, or_else-none),
  )

  pub author_round_trip :
      (a : EmbedAuthor)
      → Fits 4097 a.name
      → Fits 4097 a.url
      → Fits 4097 a.icon_url
      → Fits 4097 a.proxy_icon_url
      → _d_json_to_embed_author json (object (author_object a)) ≡ a
  unfolding _d_json_to_embed_author
  author_round_trip a n u i p =
      let (ln, lu, li, lp) = author_lookups a in
      λ j. record {
        name = read_text "name" a.name (author_object a) ln n j;
        url = read_text "url" a.url (author_object a) lu u j;
        icon_url = read_text "icon_url" a.icon_url (author_object a) li i j;
        proxy_icon_url = read_text "proxy_icon_url" a.proxy_icon_url (author_object a) lp p j;
      }
