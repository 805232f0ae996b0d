-- ===== src/Commands/Written.antt =====
-- src/discord/command.c: the JSON that the options of a command are written as.
use Prim.Native.String.{String}
use disco_c.Prelude.{
  ◌≡◌, refl, ap, inl, inr, Bool, not, some, List, [], ◌∷◌, ◌++◌, map, All, Bool-cases,
}
use disco_c.Json.Build.{
  Value, array, Fields, field, Items, no_items, item, object, add_each, add_array,
}
use disco_c.Commands.Order.{ordered_options_lem, filter}
use disco_c.Commands.Options.{
  CommandOption, CommandOptions, OptionParts, command_option, no_options, option_and,
  option_required, option_head, option_tail, add_options, add_ordered, add_option, option_objects,
}

filter-map :
    {A B : Type 0} (q : B → Bool) (f : A → B) (xs : List A)
    → filter q (map f xs) ≡ map f (filter (λ x. q (f x)) xs)
filter-map q f [] = refl
filter-map q f (x ∷ xs) = elim (Bool-cases (q (f x))) [
  | inl e ↦ rw e (ap (◌∷◌ (f x)) (filter-map q f xs))
  | inr e ↦ rw e (filter-map q f xs)
]

map-append : {A B : Type 0} (f : A → B) (xs ys : List A) → map f (xs ++ ys) ≡ map f xs ++ map f ys
map-append f [] ys = refl
map-append f (x ∷ xs) ys = ap (◌∷◌ (f x)) (map-append f xs ys)

add_each-map :
    {R A B : Type 0} (f : A → B) (make : B → Value R) (xs : List A) (items : Items R)
    → add_each make (map f xs) items ≡ add_each (λ x. make (f x)) xs items
unfolding add_each
add_each-map f make [] items = refl
add_each-map f make (x ∷ xs) items = add_each-map f make xs (item items (make (f x)))

add_array-map :
    {R A B : Type 0} (name : String) (f : A → B) (make : B → Value R) (xs : List A)
    (json : Fields R)
    → add_array name make (map f xs) json ≡ add_array name (λ x. make (f x)) xs json
unfolding add_array
add_array-map name f make [] json = refl
add_array-map name f make (x ∷ xs) json =
    ap (λ arr. field json name (array arr)) (add_each-map f make (x ∷ xs) no_items)

module _ {R : Type 0} where
  -- The required ones before the others.
  abbrev pub required_first : List (Bool × Value R) → List (Bool × Value R)
  required_first objects = filter (λ o. o.0) objects ++ filter (λ o. not o.0) objects

  pub add_ordered_lem :
      (objects : List (Bool × Value R)) (json : Fields R)
      → add_ordered objects json ≡ some (add_options (required_first objects) json)
  unfolding add_ordered
  add_ordered_lem objects json = rw (ordered_options_lem (λ o. o.0) objects) refl

  mutual
    unfolding add_option option_objects

    written_option : (o : CommandOption R) → (v : Value R) × (add_option o ≡ some v)
    written_option (command_option o options) =
        let (vs, e) = written_options options in
        (
          object (option_tail o (add_options (required_first vs) (option_head o))),
          rw (e, add_ordered_lem vs (option_head o), add_option) refl,
        )

    pub written_options :
        (options : CommandOptions R)
        → (vs : List (Bool × Value R)) × (option_objects options ≡ some vs)
    written_options no_options = ([], refl)
    written_options (option_and o rest) =
        let (v, e) = written_option o in
        let (vs, f) = written_options rest in
        ((option_required o, v) ∷ vs, rw (e, f, option_objects) refl)

  abbrev pub option_list : CommandOptions R → List (CommandOption R)
  option_list no_options = []
  option_list (option_and o rest) = o ∷ option_list rest

  abbrev pub is_required : CommandOption R → Bool
  is_required (command_option o _) = o.required

  abbrev marked : CommandOption R × Value R → Bool × Value R
  marked (o, v) = (is_required o, v)

  -- Each option with an object that it is written as.
  written_pairs :
      (options : CommandOptions R)
      → (pairs : List (CommandOption R × Value R)) × (map (λ p. p.0) pairs ≡ option_list options)
        × All (λ p. add_option p.0 ≡ some p.1) pairs
        × (option_objects options ≡ some (map marked pairs))
  unfolding option_objects option_required
  written_pairs no_options = ([], refl, tt, refl)
  written_pairs (option_and (command_option o options) rest) =
      let (v, e) = written_option (command_option o options) in
      let (pairs, l, w, f) = written_pairs rest in
      (
        (command_option o options, v) ∷ pairs,
        ap (◌∷◌ (command_option o options)) l,
        (e, w),
        rw (e, f, option_objects) refl,
      )

  add_required_first :
      (pairs : List (CommandOption R × Value R)) (json : Fields R)
      → add_options (required_first (map marked pairs)) json
        ≡ add_array "options"
            (λ p. p.1)
            (filter (λ p. is_required p.0) pairs ++ filter (λ p. not (is_required p.0)) pairs)
            json
  unfolding add_options
  add_required_first pairs json =
      rw
        (
          filter-map (λ (o : Bool × Value R). o.0) marked pairs,
          filter-map (λ (o : Bool × Value R). not o.0) marked pairs,
          ← map-append marked (filter (λ p. is_required p.0) pairs)
              (filter (λ p. not (is_required p.0)) pairs),
        )
        (add_array-map "options" marked (λ o. o.1) _ json)

  -- Every tree of options is written without a fault: each option of an option is written as its own
  -- object, and in the array of options the objects of those that are required stand before those of
  -- the others, each in the order of the options.
  pub add_option_lem :
      (o : OptionParts R) (options : CommandOptions R)
      → (pairs : List (CommandOption R × Value R)) × (map (λ p. p.0) pairs ≡ option_list options)
        × All (λ p. add_option p.0 ≡ some p.1) pairs
        × (add_option (command_option o options)
            ≡ some (
                object (
                  option_tail o (
                    add_array "options"
                      (λ p. p.1)
                      (filter (λ p. is_required p.0) pairs
                        ++ filter (λ p. not (is_required p.0)) pairs)
                      (option_head o)))))
  unfolding add_option
  add_option_lem o options =
      let (pairs, l, w, e) = written_pairs options in
      let vs = map marked pairs in
      (
        pairs,
        l,
        w,
        rw (e, add_ordered_lem vs (option_head o), add_option)
            (ap (λ json. some (object (option_tail o json)))
              (add_required_first pairs (option_head o))),
      )
