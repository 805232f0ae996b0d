-- ===== src/Outgoing/Mentions.antt =====
-- src/discord/message.c: allowed mentions and references to messages, and their JSON, none if an ID is
-- written past the end of the buffer that it is printed into.
pub mod Fits
use Prim.Native.String.{String}
use mathlib.Core.Option
use disco_c.Prelude.{
  ℕ, zero, suc, ◌+◌, ◌-◌, ◌*◌, ◌/◌, ◌%◌, ◌^◌, ◌≤◌, ◌<◌, ◌≡◌, refl, sym, ap, ◌∙◌, subst, ◌≢◌, ◌↔◌,
  ◌⊎◌, inl, inr, Bool, true, false, not, ◌&&◌, ◌||◌, Option, none, some, List, [], ◌∷◌, ◌++◌, map,
  arith, length, length-append, All, ltb, leb, ◌==◌, if◌then◌else◌, ltb→lt, lt→ltb, leb→le, ==_iff,
  Bool-cases, Option-cases,
}
use disco_c.Json.{CJson, _d_get_long_from_string_json}
use disco_c.Json.Build.{
  Value, text, boolean, object, array, Fields, no_fields, field, Items, no_items, item,
}
use disco_c.Outgoing.Buffer.{id_text, add_ids}

-- `struct discord_allowed_mentions`; the three counters are told apart from 0 only.
pub record AllowedMentions : Type 0 where
  pub parse_role_mentions : Bool
  pub parse_user_mentions : Bool
  pub parse_everyone_mentions : Bool
  pub roles : List ℕ
  pub users : List ℕ
  pub replied_user : Bool

-- `struct discord_message_reference`.
pub record MessageReference : Type 0 where
  pub message_id : ℕ
  pub channel_id : ℕ
  pub guild_id : ℕ
  pub fail_if_not_exists : Bool

module _ {R : Type 0} where
  unfoldable pub add_when : Bool → Value R → Items R → Items R
  add_when true v items = item items v
  add_when false v items = items

  -- An array of IDs is added if there are any.
  unfoldable pub add_id_array : String → List ℕ → Fields R → Option (Fields R)
  unfolding add_ids
  add_id_array name [] json = some json
  add_id_array name (id ∷ rest) json =
      Option.map (λ arr. field json name (array arr)) (add_ids (id ∷ rest) no_items)

  unfoldable pub parse_items : AllowedMentions → Items R
  unfolding add_when
  parse_items m = add_when m.parse_everyone_mentions (text "everyone") (
      add_when m.parse_user_mentions (text "users")
        (add_when m.parse_role_mentions (text "roles") no_items))

  unfoldable pub create_allowed_mentions : AllowedMentions → Option (Value R)
  unfolding parse_items add_id_array
  create_allowed_mentions m =
      elim (add_id_array "roles" m.roles (field no_fields "parse" (array (parse_items m)))) [
        | none ↦ none
        | some with_roles ↦
            Option.map
              (λ with_users. object (field with_users "replied_user" (boolean m.replied_user)))
              (add_id_array "users" m.users with_roles)
      ]

  -- An ID other than 0.
  unfoldable pub add_id : String → ℕ → Option (Fields R) → Option (Fields R)
  unfolding id_text
  add_id name id none = none
  add_id name id (some fields) =
      if id == 0 then some fields else Option.map (λ v. field fields name v) (id_text id)

  unfoldable pub create_message_reference : MessageReference → Option (Value R)
  unfolding add_id
  create_message_reference ref =
      Option.map
        (λ fields. object (field fields "fail_if_not_exists" (boolean ref.fail_if_not_exists)))
        (add_id "guild_id" ref.guild_id (
          add_id "channel_id" ref.channel_id (add_id "message_id" ref.message_id (some no_fields))))

-- Whether a missing message is an error is not read.
unfoldable pub _d_json_to_message_reference : {J : Type 0} → CJson J → J → MessageReference
unfolding _d_get_long_from_string_json
_d_json_to_message_reference json value = record {
  message_id = _d_get_long_from_string_json json value "message_id" 0;
  channel_id = _d_get_long_from_string_json json value "channel_id" 0;
  guild_id = _d_get_long_from_string_json json value "guild_id" 0;
  fail_if_not_exists = false;
}

-- The copy of NULL is NULL.
unfoldable pub _d_copy_message_reference : Option MessageReference → Option MessageReference
_d_copy_message_reference none = none
_d_copy_message_reference (some src) = some src
