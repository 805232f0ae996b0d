-- ===== src/Structures/Member.antt =====
-- src/discord/user.c and include/discord/user.h: members of a guild.
use Prim.Native.String.{String}
use mathlib.Core.Option
use disco_c.Prelude.{ℕ, Bool, false, Option, none, some, List, [], ◌∷◌, ◌++◌}
use disco_c.Json.{CJson, _d_get_string_from_json, _d_get_bool_from_json}
use disco_c.Structures.User.{User, _d_json_to_user, copy_text, free_texts, discord_destroy_user}

-- `struct discord_member`; `roles_count` is the length of the roles.
pub record Member : Type 0 where
  pub user : Option User
  pub nick : Option String
  pub avatar : Option String
  pub roles : List ℕ
  pub joined_at : Option String
  pub premium_since : Option String
  pub deaf : Bool
  pub mute : Bool
  pub pending : Bool
  pub permissions : Option String
  pub communication_disabled_until : Option String

module _ {J : Type 0} (json : CJson J) where
  -- `none` is `strtoull` of the NULL of a role that is no text.
  unfoldable pub read_roles : List J → Option (List ℕ)
  read_roles [] = some []
  read_roles (cur ∷ rest) = elim (json.valuestring cur) [
    | none ↦ none
    | some s ↦ Option.map (λ roles. json.strtoull s ∷ roles) (read_roles rest)
  ]

  unfoldable pub roles_of : J → Option (List ℕ)
  unfolding read_roles
  roles_of object = elim (json.get_object_item object "roles") [
    | none ↦ some []
    | some tmp ↦ read_roles (json.elements tmp)
  ]

  -- The user that is given, or that of the object.
  unfoldable pub user_of : J → Option User → Option User
  unfolding _d_json_to_user
  user_of object none = Option.map (_d_json_to_user json) (json.get_object_item object "user")
  user_of object (some user) = some user

  unfoldable pub _d_json_to_member : J → Option User → Option Member
  unfolding roles_of user_of _d_get_string_from_json _d_get_bool_from_json
  _d_json_to_member object user =
      Option.map
        (λ roles. record {
          user = user_of object user;
          nick = _d_get_string_from_json json object "nick";
          avatar = _d_get_string_from_json json object "avatar";
          roles = roles;
          joined_at = _d_get_string_from_json json object "joined_at";
          premium_since = _d_get_string_from_json json object "premium_since";
          deaf = _d_get_bool_from_json json object "deaf" false;
          mute = _d_get_bool_from_json json object "mute" false;
          pending = _d_get_bool_from_json json object "pending" false;
          permissions = _d_get_string_from_json json object "permissions";
          communication_disabled_until =
              _d_get_string_from_json json object "communication_disabled_until";
        })
        (roles_of object)

-- The copy belongs to the user that is given.
unfoldable pub copied_member : Option User → Member → Member
unfolding copy_text
copied_member user src = record src {
  user = user;
  nick = copy_text 50 src.nick;
  avatar = copy_text 100 src.avatar;
  joined_at = copy_text 50 src.joined_at;
  premium_since = copy_text 50 src.premium_since;
  permissions = copy_text 50 src.permissions;
  communication_disabled_until = copy_text 50 src.communication_disabled_until;
}

unfoldable pub _d_copy_member : Option Member → Option User → Option Member
unfolding copied_member
_d_copy_member src user = Option.map (copied_member user) src

-- The texts that are freed, those of the user behind the member's own.
unfoldable pub discord_destroy_member : Member → List String
unfolding free_texts discord_destroy_user
discord_destroy_member mem =
    free_texts (
      mem.nick ∷ mem.avatar ∷ mem.joined_at ∷ mem.premium_since ∷ mem.permissions
      ∷ mem.communication_disabled_until ∷ [])
    ++ (elim mem.user [ none ↦ [] | some user ↦ discord_destroy_user user ])
