-- ===== src/Outgoing/Mentions/Fits.antt =====
-- When the IDs of allowed mentions and of references fit into their buffers.
use Prim.Native.String.{String}
use disco_c.Prelude.{
  ℕ, ◌≡◌, refl, ap, ◌∙◌, ◌⊎◌, inl, inr, Bool, true, false, Option, none, some, List, [], ◌∷◌, All,
  ◌==◌, if◌then◌else◌,
}
use disco_c.Json.Build.{
  Value, boolean, object, array, Fields, no_fields, field, no_items, add_array,
}
use disco_c.Outgoing.Buffer.Fits.{IsId, IsShortId, shown, id_text-short, add_ids-cases}
use disco_c.Outgoing.Mentions.{
  AllowedMentions, MessageReference, parse_items, add_id_array, create_allowed_mentions, add_id,
  create_message_reference,
}

if_some : {A : Type 0} (b : Bool) (x y : A) → (z : A) × ((if b then some x else some y) ≡ some z)
if_some true x y = (x, refl)
if_some false x y = (y, refl)

module _ {R : Type 0} where
  pub add_id_array-cases :
      (name : String) (ids : List ℕ) (json : Fields R)
      → All IsId ids
      → (All IsShortId ids × (add_id_array name ids json ≡ some (add_array name shown ids json)))
        ⊎ ((¬ All IsShortId ids) × (add_id_array name ids json ≡ none))
  unfolding add_id_array add_array
  add_id_array-cases name [] json w = inl (tt, refl)
  add_id_array-cases name (id ∷ rest) json w = elim (add_ids-cases {R = R} (id ∷ rest) no_items w) [
    | inl (s, e) ↦ inl (s, rw e refl)
    | inr (n, e) ↦ inr (n, rw e refl)
  ]

  -- The object of allowed mentions, whose IDs are texts.
  abbrev pub mentions_object : AllowedMentions → Value R
  mentions_object m = object (
      field
        (add_array "users" shown m.users
          (add_array "roles" shown m.roles (field no_fields "parse" (array (parse_items m)))))
        "replied_user" (boolean m.replied_user))

  -- For allowed mentions whose IDs are below 2^64: either all roles and users have IDs below 10^19,
  -- and the object with what may be parsed, the roles, the users and whether the user that is replied to
  -- is mentioned is made; or an ID of 20 digits is written past the end of its buffer.
  pub create_allowed_mentions-cases :
      (m : AllowedMentions)
      → All IsId m.roles
      → All IsId m.users
      → ((All IsShortId m.roles × All IsShortId m.users)
          × (create_allowed_mentions m ≡ some (mentions_object m)))
        ⊎ ((¬ (All IsShortId m.roles × All IsShortId m.users))
            × (create_allowed_mentions {R = R} m ≡ none))
  unfolding create_allowed_mentions
  create_allowed_mentions-cases m r u =
      let parse = field no_fields "parse" (array (parse_items m)) in
      elim (add_id_array-cases "roles" m.roles parse r) [
        | inl (s, e) ↦
            elim (add_id_array-cases "users" m.users (add_array "roles" shown m.roles parse) u) [
              | inl (t, e') ↦ inl ((s, t), rw (e, e', create_allowed_mentions) refl)
              | inr (n, e') ↦ inr (λ x. n x.1, rw (e, e', create_allowed_mentions) refl)
            ]
        | inr (n, e) ↦ inr (λ x. n x.0, rw (e, create_allowed_mentions) refl)
      ]

  add_id-short :
      (name : String) (id : ℕ) (o : Option (Fields R)) (fields : Fields R)
      → IsShortId id
      → o ≡ some fields
      → (fields' : Fields R) × (add_id name id o ≡ some fields')
  unfolding add_id
  add_id-short name id o fields h e =
      let (fs, q) = if_some (id == 0) fields (field fields name (shown id)) in
      (fs, ap (add_id name id) e ∙ rw (id_text-short id h, add_id) q)

  pub create_message_reference-short :
      (ref : MessageReference)
      → IsShortId ref.message_id
      → IsShortId ref.channel_id
      → IsShortId ref.guild_id
      → (v : Value R) × (create_message_reference ref ≡ some v)
  unfolding create_message_reference
  create_message_reference-short ref m c g =
      let (fs, e) = add_id-short "message_id" ref.message_id (some no_fields) no_fields m refl in
      let (fs', e') = add_id-short "channel_id" ref.channel_id _ fs c e in
      let (fs'', e'') = add_id-short "guild_id" ref.guild_id _ fs' g e' in
      (object (field fs'' "fail_if_not_exists" (boolean ref.fail_if_not_exists)), rw e'' refl)
