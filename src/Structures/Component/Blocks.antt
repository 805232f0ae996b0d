-- ===== src/Structures/Component/Blocks.antt =====
-- src/discord/component.c: the memory of a tree of components.
use Prim.Native.String.{String}
use disco_c.Prelude.{
  ℕ, zero, suc, ◌+◌, ◌≡◌, refl, sym, ◌∙◌, Option, none, some, List, [], ◌∷◌, map, arith, length,
}
use disco_c.Structures.User.{copy_text, free_texts}
use disco_c.Structures.Component.{
  SelectOption, Component, action_row, button, select_menu, text_input, other_component, Components,
  no_components, component_and, copied_select_option, copied_button, copied_select_menu,
  copied_text_input, _d_copy_component, copied_components, discord_destroy_select_option,
  free_array, destroy_options, count_components, discord_destroy_component, destroy_components,
}

abbrev given : Option String → ℕ
given none = 0
given (some s) = 1

-- The blocks that an option consists of: itself and its texts.
abbrev option_blocks : SelectOption → ℕ
option_blocks o = 1 + given o.label + given o.value + given o.description

abbrev options_blocks : List SelectOption → ℕ
options_blocks [] = 0
options_blocks (o ∷ rest) = option_blocks o + options_blocks rest

abbrev array_blocks : ℕ → ℕ
array_blocks zero = 0
array_blocks (suc n) = 1

-- The blocks that a tree of components consists of, without emojis: for each component itself, the structure
-- of its type if it has one, the texts, and the arrays that are not empty.
abbrev mutual
  pub blocks : Component → ℕ
  blocks (action_row cs) = 2 + array_blocks (count_components cs) + blocks_of cs
  blocks (button b) = 2 + given b.label + given b.custom_id + given b.url
  blocks (select_menu m) =
      2
      + given m.custom_id
      + given m.placeholder
      + array_blocks (length m.options)
      + options_blocks m.options
  blocks (text_input t) =
      2 + given t.custom_id + given t.label + given t.value + given t.placeholder
  blocks (other_component type) = 1

  pub blocks_of : Components → ℕ
  blocks_of no_components = 0
  blocks_of (component_and c cs) = blocks c + blocks_of cs

-- How many components of a tree have one of the four types.
abbrev mutual
  pub typed : Component → ℕ
  typed (action_row cs) = 1 + typed_of cs
  typed (button b) = 1
  typed (select_menu m) = 1
  typed (text_input t) = 1
  typed (other_component type) = 0

  pub typed_of : Components → ℕ
  typed_of no_components = 0
  typed_of (component_and c cs) = typed c + typed_of cs

texts_given :
    (o : Option String) (rest : List (Option String))
    → length (free_texts (o ∷ rest)) ≡ given o + length (free_texts rest)
unfolding free_texts
texts_given none rest = omega arith
texts_given (some s) rest = omega arith

no_texts_given : length (free_texts []) ≡ 0
unfolding free_texts
no_texts_given = refl

array_given : (n : ℕ) → free_array n ≡ array_blocks n
unfolding free_array
array_given zero = refl
array_given (suc n) = refl

destroy_option_lem : (o : SelectOption) → discord_destroy_select_option o ≡ option_blocks o
unfolding discord_destroy_select_option
destroy_option_lem o = omega (
  arith,
  texts_given o.label (o.value ∷ o.description ∷ []),
  texts_given o.value (o.description ∷ []),
  texts_given o.description [],
  no_texts_given,
)

destroy_options_lem :
    (options : List SelectOption) → destroy_options options ≡ options_blocks options
unfolding destroy_options
destroy_options_lem [] = refl
destroy_options_lem (o ∷ rest) = omega (arith, destroy_option_lem o, destroy_options_lem rest)

mutual
  unfolding discord_destroy_component

  destroy_loses : (c : Component) → blocks c ≡ discord_destroy_component c + typed c
  destroy_loses (action_row cs) =
      omega (arith, destroy_loses_of cs, array_given (count_components cs))
  destroy_loses (button b) = omega (
    arith,
    texts_given b.label (b.custom_id ∷ b.url ∷ []),
    texts_given b.custom_id (b.url ∷ []),
    texts_given b.url [],
    no_texts_given,
  )
  destroy_loses (select_menu m) = omega (
    arith,
    destroy_options_lem m.options,
    array_given (length m.options),
    texts_given m.custom_id (m.placeholder ∷ []),
    texts_given m.placeholder [],
    no_texts_given,
  )
  destroy_loses (text_input t) = omega (
    arith,
    texts_given t.custom_id (t.label ∷ t.value ∷ t.placeholder ∷ []),
    texts_given t.label (t.value ∷ t.placeholder ∷ []),
    texts_given t.value (t.placeholder ∷ []),
    texts_given t.placeholder [],
    no_texts_given,
  )
  destroy_loses (other_component type) = refl

  destroy_loses_of : (cs : Components) → blocks_of cs ≡ destroy_components cs + typed_of cs
  destroy_loses_of no_components = refl
  destroy_loses_of (component_and c cs) = omega (arith, destroy_loses c, destroy_loses_of cs)

given-copy_text : (n : ℕ) (o : Option String) → given (copy_text n o) ≡ given o
unfolding copy_text
given-copy_text n none = refl
given-copy_text n (some s) = refl

option_blocks-copied : (o : SelectOption) → option_blocks (copied_select_option o) ≡ option_blocks o
unfolding copied_select_option
option_blocks-copied o = omega (
  arith,
  given-copy_text 101 o.label,
  given-copy_text 101 o.value,
  given-copy_text 101 o.description,
)

options_blocks-map :
    (options : List SelectOption)
    → (options_blocks (map copied_select_option options) ≡ options_blocks options)
      × (length (map copied_select_option options) ≡ length options)
options_blocks-map [] = (refl, refl)
options_blocks-map (o ∷ rest) =
    let (e, l) = options_blocks-map rest in
    (omega (arith, option_blocks-copied o, e), omega (arith, l))

count-copied : (cs : Components) → count_components (copied_components cs) ≡ count_components cs
unfolding count_components copied_components
count-copied no_components = refl
count-copied (component_and c cs) = omega (arith, count-copied cs)

mutual
  unfolding _d_copy_component copied_button copied_select_menu copied_text_input

  blocks-copied : (c : Component) → blocks (_d_copy_component c) ≡ blocks c
  blocks-copied (action_row cs) = λ j. 2 + array_blocks (count-copied cs j) + blocks_of-copied cs j
  blocks-copied (button b) = omega (
    arith,
    given-copy_text 101 b.label,
    given-copy_text 101 b.custom_id,
    given-copy_text 2050 b.url,
  )
  blocks-copied (select_menu m) =
      let (e, l) = options_blocks-map m.options in
      λ j.
        2
        + given-copy_text 101 m.custom_id j
        + given-copy_text 151 m.placeholder j
        + array_blocks (l j)
        + e j
  blocks-copied (text_input t) = omega (
    arith,
    given-copy_text 101 t.custom_id,
    given-copy_text 50 t.label,
    given-copy_text 4001 t.value,
    given-copy_text 101 t.placeholder,
  )
  blocks-copied (other_component type) = refl

  blocks_of-copied : (cs : Components) → blocks_of (copied_components cs) ≡ blocks_of cs
  blocks_of-copied no_components = refl
  blocks_of-copied (component_and c cs) = omega (arith, blocks-copied c, blocks_of-copied cs)

-- The copy of a tree of components has as many blocks of memory as the original, emojis aside; of these, destroying
-- the copy frees all but one for each component of one of the four types, whose structure is lost.
pub destroyed_copy_loses :
    (c : Component)
    → (blocks (_d_copy_component c) ≡ blocks c)
      × (blocks c ≡ discord_destroy_component (_d_copy_component c) + typed (_d_copy_component c))
destroyed_copy_loses c =
    (blocks-copied c, sym (blocks-copied c) ∙ destroy_loses (_d_copy_component c))
