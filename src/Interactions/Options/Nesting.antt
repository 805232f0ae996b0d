-- ===== src/Interactions/Options/Nesting.antt =====
-- src/discord/interaction.c: the recursion over the options of an option ends.
use disco_c.Prelude.{
  ℕ, zero, suc, ◌<◌, ◌≡◌, refl, inl, inr, Bool, false, Option, none, some, List, [], ◌∷◌, map,
  arith, All, Option-cases,
}
use disco_c.Prelude.Int.{ℤ, pos, eqb_ℤ}
use disco_c.Json.{CJson, _d_get_int_from_json, _d_get_array_from_json}
use disco_c.Structures.Arrays.{array_of-convert_all}
use disco_c.Structures.Embed.{array_of}
use disco_c.Interactions.Options.{
  DataOption, data_option, DataOptions, no_data_options, data_option_and, data_options_of,
  data_parts_of, _d_json_to_interaction_data_option, _d_copy_interaction_data_option,
  copy-int_option,
}

module _ {J R : Type 0} (json : CJson J) (valuedouble : J → R) (nought : R) (depth : J → ℕ) where
  -- A value is nested more deeply than each element of its field `options`.
  pub record IsNested : Type 0 where
    pub deeper :
        (v a : J)
        → json.get_object_item v "options" ≡ some a
        → All (λ c. depth c < depth v) (json.elements a)

  -- A list of which each element is read.
  all_read :
      (f : J → Option (DataOption R)) (P : J → Type 0) (vs : List J)
      → ((v : J) → P v → (o : DataOption R) × (f v ≡ some o))
      → All P vs
      → (os : DataOptions R) × (data_options_of (map f vs) ≡ some os)
  unfolding data_options_of
  all_read f P [] law w = (no_data_options, refl)
  all_read f P (v ∷ vs) law (w, ws) =
      let (o, e) = law v w in
      let (os, h) = all_read f P vs law ws in
      (data_option_and o os, rw (e, h, data_options_of) refl)

  module _ (nested : IsNested) where
    options_read :
        (f : J → Option (DataOption R)) (v : J)
        → ((c : J) → depth c < depth v → (o : DataOption R) × (f c ≡ some o))
        → (os : DataOptions R) × (data_options_of
              (array_of (_d_get_array_from_json json v "options" f))
            ≡ some os)
    unfolding _d_get_array_from_json array_of data_options_of
    options_read f v law = elim (Option-cases (json.get_object_item v "options")) [
      | inl e ↦ (no_data_options, rw (e, _d_get_array_from_json) refl)
      | inr (a, e) ↦
          let (os, h) =
            all_read f (λ c. depth c < depth v) (json.elements a) law (nested.deeper v a e) in
          (os, rw (e, array_of-convert_all json f (json.elements a), _d_get_array_from_json) h)
    ]

    option_read :
        (v : J) (fuel : ℕ)
        → depth v < fuel
        → (o : DataOption R) × (_d_json_to_interaction_data_option json valuedouble nought fuel v
            ≡ some o)
    unfolding _d_json_to_interaction_data_option
    option_read v zero h = absurd (omega (arith, h))
    option_read v (suc fuel) h =
        let (os, e) =
          options_read (_d_json_to_interaction_data_option json valuedouble nought fuel) v
            (λ c l. option_read c fuel (omega (arith, h, l))) in
        (data_option (data_parts_of json valuedouble nought v) os, rw e refl)

    -- If a value is nested more deeply than each element of its field `options`, as every JSON text is,
    -- then an option with the type INTEGER and a number other than 0 is read with any fuel above the depth of
    -- the value, whatever else it has and whatever options it has; and its copy reads memory at that number as
    -- if it were a text.
    pub copy-read_int_option :
        (is_zero : R → Bool) (fuel : ℕ) (object : J) (n : ℤ)
        → depth object < fuel
        → _d_get_int_from_json json object "type" (pos 0) ≡ pos 4
        → _d_get_int_from_json json object "value" (pos 0) ≡ n
        → eqb_ℤ n (pos 0) ≡ false
        → (o : DataOption R) × (_d_json_to_interaction_data_option json valuedouble nought fuel
              object
            ≡ some o)
          × (_d_copy_interaction_data_option is_zero o ≡ none)
    copy-read_int_option is_zero fuel object n d t v h =
        let (o, e) = option_read object fuel d in
        (o, e, copy-int_option json valuedouble nought is_zero fuel object n o t v h e)
