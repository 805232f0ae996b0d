-- ===== src/Structures/Attachment.antt =====
-- src/discord/attachment.c and include/discord/attachment.h: attachments.
use Prim.Native.String.{String}
use mathlib.Core.Option
use disco_c.Prelude.{ℕ, Bool, false, Option, List, [], ◌∷◌}
use disco_c.Prelude.Int.{ℤ, negsuc}
use disco_c.Json.{
  CJson, _d_get_string_from_json, _d_get_bool_from_json, _d_get_int_from_json,
  _d_get_long_from_string_json,
}
use disco_c.Structures.User.{copy_text, free_texts}

-- `struct discord_attachment`.
pub record Attachment : Type 0 where
  pub id : ℕ
  pub filename : Option String
  pub description : Option String
  pub content_type : Option String
  pub size : ℤ
  pub url : Option String
  pub proxy_url : Option String
  pub height : ℤ
  pub width : ℤ
  pub ephemeral : Bool

unfoldable pub _d_json_to_attachment : {J : Type 0} → CJson J → J → Attachment
unfolding _d_get_string_from_json _d_get_bool_from_json _d_get_int_from_json
    _d_get_long_from_string_json
_d_json_to_attachment json object = record {
  id = _d_get_long_from_string_json json object "id" 0;
  filename = _d_get_string_from_json json object "filename";
  description = _d_get_string_from_json json object "description";
  content_type = _d_get_string_from_json json object "content_type";
  size = _d_get_int_from_json json object "size" (negsuc 0);
  url = _d_get_string_from_json json object "url";
  proxy_url = _d_get_string_from_json json object "proxy_url";
  height = _d_get_int_from_json json object "height" (negsuc 0);
  width = _d_get_int_from_json json object "width" (negsuc 0);
  ephemeral = _d_get_bool_from_json json object "ephemeral" false;
}

unfoldable pub copied_attachment : Attachment → Attachment
unfolding copy_text
copied_attachment src = record src {
  filename = copy_text 100 src.filename;
  description = copy_text 1025 src.description;
  content_type = copy_text 50 src.content_type;
  url = copy_text 2048 src.url;
  proxy_url = copy_text 2048 src.proxy_url;
}

unfoldable pub _d_copy_attachment : Option Attachment → Option Attachment
unfolding copied_attachment
_d_copy_attachment src = Option.map copied_attachment src

unfoldable pub discord_destroy_attachment : Attachment → List String
unfolding free_texts
discord_destroy_attachment attachment = free_texts (
    attachment.filename ∷ attachment.description ∷ attachment.content_type ∷ attachment.url
    ∷ attachment.proxy_url ∷ [])
