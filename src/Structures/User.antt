-- ===== src/Structures/User.antt =====
-- src/discord/user.c and include/discord/user.h: users. A text that may be NULL is an Option.
use Prim.Native.String.{String}
use mathlib.Core.Option
use disco_c.Prelude.{ℕ, Bool, false, Option, none, some, List, [], ◌∷◌}
use disco_c.Prelude.Int.{ℤ, pos}
use disco_c.Json.{
  CJson, strndup, _d_get_string_from_json, _d_get_bool_from_json, _d_get_int_from_json,
  _d_get_long_from_string_json,
}

-- `struct discord_user`.
pub record User : Type 0 where
  pub id : ℕ
  pub username : Option String
  pub discriminator : Option String
  pub avatar : Option String
  pub bot : Bool
  pub system : Bool
  pub mfa_enabled : Bool
  pub banner : Option String
  pub accent_color : ℤ
  pub locale : Option String
  pub verified : Bool
  pub email : Option String
  pub flags : ℤ
  pub premium_type : ℤ
  pub public_flags : ℤ

unfoldable pub _d_json_to_user : {J : Type 0} → CJson J → J → User
unfolding _d_get_string_from_json _d_get_bool_from_json _d_get_int_from_json
    _d_get_long_from_string_json
_d_json_to_user json object = record {
  id = _d_get_long_from_string_json json object "id" 0;
  username = _d_get_string_from_json json object "username";
  discriminator = _d_get_string_from_json json object "discriminator";
  avatar = _d_get_string_from_json json object "avatar";
  bot = _d_get_bool_from_json json object "bot" false;
  system = _d_get_bool_from_json json object "system" false;
  mfa_enabled = _d_get_bool_from_json json object "mfa_enabled" false;
  banner = _d_get_string_from_json json object "banner";
  accent_color = _d_get_int_from_json json object "accent_color" (pos 0);
  locale = _d_get_string_from_json json object "locale";
  verified = _d_get_bool_from_json json object "verified" false;
  email = _d_get_string_from_json json object "email";
  flags = _d_get_int_from_json json object "flags" (pos 0);
  premium_type = _d_get_int_from_json json object "premium_type" (pos 0);
  public_flags = _d_get_int_from_json json object "public_flags" (pos 0);
}

-- A copy of a text, if there is one.
unfoldable pub copy_text : ℕ → Option String → Option String
unfolding strndup
copy_text n s = Option.map (strndup n) s

-- The copy of a user; that of NULL is NULL.
unfoldable pub copied_user : User → User
unfolding copy_text
copied_user src = record src {
  username = copy_text 50 src.username;
  discriminator = copy_text 5 src.discriminator;
  avatar = copy_text 100 src.avatar;
  banner = copy_text 100 src.banner;
  locale = copy_text 10 src.locale;
  email = copy_text 100 src.email;
}

unfoldable pub _d_copy_user : Option User → Option User
unfolding copied_user
_d_copy_user src = Option.map copied_user src

-- The texts of these fields that are not NULL, in order.
unfoldable pub free_texts : List (Option String) → List String
free_texts [] = []
free_texts (none ∷ rest) = free_texts rest
free_texts (some s ∷ rest) = s ∷ free_texts rest

-- The texts that are freed.
unfoldable pub discord_destroy_user : User → List String
unfolding free_texts
discord_destroy_user user =
    free_texts (
      user.username ∷ user.discriminator ∷ user.avatar ∷ user.banner ∷ user.locale ∷ user.email
      ∷ [])
