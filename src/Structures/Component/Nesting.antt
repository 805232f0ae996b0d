-- ===== src/Structures/Component/Nesting.antt =====
-- src/discord/component.c: the recursion over the rows of a component ends.
use disco_c.Prelude.{
  ℕ, zero, suc, ◌<◌, ◌≡◌, refl, inl, inr, Bool, true, false, Option, some, List, [], ◌∷◌, map,
  arith, All, if◌then◌else◌, Option-cases,
}
use disco_c.Prelude.Int.{ℤ, pos, eqb_ℤ}
use disco_c.Json.{CJson, _d_get_int_from_json, _d_get_array_from_json}
use disco_c.Structures.Arrays.{array_of-convert_all}
use disco_c.Structures.Embed.{array_of}
use disco_c.Structures.Component.{
  Component, action_row, button, select_menu, text_input, other_component, json_to_button,
  json_to_select_menu, json_to_text_input, Components, no_components, component_and, components_of,
  json_of_type, _d_json_to_component,
}

some_if :
    {A : Type 0} (b : Bool) (o p : Option A)
    → (a : A) × (o ≡ some a)
    → (a : A) × (p ≡ some a)
    → (a : A) × ((if b then o else p) ≡ some a)
some_if true o p h l = h
some_if false o p h l = l

one_converted :
    {J : Type 0} (json : CJson J) (type : ℤ) (cs : Components) (v : J)
    → (c : Component) × (json_of_type json type (some cs) v ≡ some c)
unfolding json_of_type
one_converted json type cs v =
    some_if (eqb_ℤ type (pos 1)) _ _ (action_row cs, refl)
      (some_if (eqb_ℤ type (pos 2)) _ _ (button (json_to_button json v), refl)
        (some_if (eqb_ℤ type (pos 3)) _ _ (select_menu (json_to_select_menu json v), refl)
          (some_if (eqb_ℤ type (pos 4)) _ _ (text_input (json_to_text_input json v), refl)
            (other_component type, refl))))

module _ {J : Type 0} (json : CJson J) (depth : J → ℕ) where
  -- A value is nested more deeply than each element of its field `components`.
  pub record IsNested : Type 0 where
    pub deeper :
        (v a : J)
        → json.get_object_item v "components" ≡ some a
        → All (λ c. depth c < depth v) (json.elements a)

  module _ (nested : IsNested) where
    -- A list of which each element is converted.
    converted :
        (f f' : J → Option Component) (P : J → Type 0) (vs : List J)
        → ((v : J) → P v → (c : Component) × (f v ≡ some c) × (f' v ≡ some c))
        → All P vs
        → (cs : Components) × (components_of (map f vs) ≡ some cs)
          × (components_of (map f' vs) ≡ some cs)
    unfolding components_of
    converted f f' P [] law w = (no_components, refl, refl)
    converted f f' P (v ∷ vs) law (w, ws) =
        let (c, e, e') = law v w in
        let (cs, h, h') = converted f f' P vs law ws in
        (component_and c cs, rw (e, h, components_of) refl, rw (e', h', components_of) refl)

    type_converted :
        (type : ℤ) (row row' : Option Components) (cs : Components) (v : J)
        → row ≡ some cs
        → row' ≡ some cs
        → (c : Component) × (json_of_type json type row v ≡ some c)
          × (json_of_type json type row' v ≡ some c)
    type_converted type row row' cs v e e' =
        let (c, h) = one_converted json type cs v in (c, rw e h, rw e' h)

    row_converted :
        (f f' : J → Option Component) (v : J)
        → ((c : J) → depth c < depth v → (x : Component) × (f c ≡ some x) × (f' c ≡ some x))
        → (cs : Components) × (components_of
              (array_of (_d_get_array_from_json json v "components" f))
            ≡ some cs)
          × (components_of (array_of (_d_get_array_from_json json v "components" f')) ≡ some cs)
    unfolding _d_get_array_from_json array_of components_of
    row_converted f f' v law = elim (Option-cases (json.get_object_item v "components")) [
      | inl e ↦
          (no_components, rw (e, _d_get_array_from_json) refl, rw (e, _d_get_array_from_json) refl)
      | inr (a, e) ↦
          let (cs, h, h') =
            converted f f' (λ c. depth c < depth v) (json.elements a) law (nested.deeper v a e) in
          (
            cs,
            rw (e, array_of-convert_all json f (json.elements a), _d_get_array_from_json) h,
            rw (e, array_of-convert_all json f' (json.elements a), _d_get_array_from_json) h',
          )
    ]

    -- If a value is nested more deeply than each element of its field `components`, as every JSON text is,
    -- then the conversion of a component ends: with more fuel than the depth of the value, it gives a component,
    -- and the same one whatever the fuel is.
    pub _d_json_to_component_ends :
        (v : J) (fuel fuel' : ℕ)
        → depth v < fuel
        → depth v < fuel'
        → (c : Component) × (_d_json_to_component json fuel v ≡ some c)
          × (_d_json_to_component json fuel' v ≡ some c)
    unfolding _d_json_to_component
    _d_json_to_component_ends v zero fuel' h h' = absurd (omega (arith, h))
    _d_json_to_component_ends v (suc fuel) zero h h' = absurd (omega (arith, h'))
    _d_json_to_component_ends v (suc fuel) (suc fuel') h h' =
        let (cs, e, e') =
          row_converted (_d_json_to_component json fuel) (_d_json_to_component json fuel') v (λ c l.
            _d_json_to_component_ends c fuel fuel' (omega (arith, h, l)) (omega (arith, h', l))) in
        type_converted (_d_get_int_from_json json v "type" (pos 0)) _ _ cs v e e'
