-- ===== src/Structures/Embed.antt =====
-- src/discord/embed.c and include/discord/embed.h: embeds and their parts, with their conversions from JSON
-- and their copies.
pub mod Destroy
use Prim.Native.String.{String}
use mathlib.Core.Option
use disco_c.Prelude.{ℕ, zero, suc, Bool, false, Option, none, some, List, [], map}
use disco_c.Prelude.Int.{ℤ, pos, negsuc}
use disco_c.Json.{
  CJson, _d_get_string_from_json, _d_get_bool_from_json, _d_get_int_from_json,
  _d_get_array_from_json,
}
use disco_c.Structures.User.{copy_text}

pub record EmbedFooter : Type 0 where
  pub text : Option String
  pub icon_url : Option String
  pub proxy_icon_url : Option String

pub record EmbedMedia : Type 0 where
  pub url : Option String
  pub proxy_url : Option String
  pub height : ℤ
  pub width : ℤ

pub record EmbedProvider : Type 0 where
  pub name : Option String
  pub url : Option String

pub record EmbedAuthor : Type 0 where
  pub name : Option String
  pub url : Option String
  pub icon_url : Option String
  pub proxy_icon_url : Option String

pub record EmbedField : Type 0 where
  pub name : Option String
  pub value : Option String
  pub _inline : Bool

-- `struct discord_embed`; `fields_count` is the length of the fields.
pub record Embed : Type 0 where
  pub title : Option String
  pub type : Option String
  pub description : Option String
  pub url : Option String
  pub timestamp : Option String
  pub color : ℤ
  pub footer : Option EmbedFooter
  pub image : Option EmbedMedia
  pub thumbnail : Option EmbedMedia
  pub video : Option EmbedMedia
  pub provider : Option EmbedProvider
  pub author : Option EmbedAuthor
  pub fields : List EmbedField

-- The memory of an embed, read as that of a footer: its first three members.
unfoldable pub as_footer : Embed → EmbedFooter
as_footer e = record { text = e.title; icon_url = e.type; proxy_icon_url = e.description }

-- The elements of an array, none if nothing was allocated.
unfoldable pub array_of : {A : Type 0} → ℕ × Option (List A) → List A
array_of (n, none) = []
array_of (n, some elements) = elements

module _ {J : Type 0} (json : CJson J) where
  unfoldable pub _d_json_to_embed_footer : J → EmbedFooter
  unfolding _d_get_string_from_json
  _d_json_to_embed_footer object = record {
    text = _d_get_string_from_json json object "text";
    icon_url = _d_get_string_from_json json object "icon_url";
    proxy_icon_url = _d_get_string_from_json json object "proxy_icon_url";
  }

  -- Both URLs are read from the same field.
  unfoldable pub _d_json_to_embed_media : J → EmbedMedia
  unfolding _d_get_string_from_json _d_get_int_from_json
  _d_json_to_embed_media object = record {
    url = _d_get_string_from_json json object "url";
    proxy_url = _d_get_string_from_json json object "url";
    height = _d_get_int_from_json json object "height" (negsuc 0);
    width = _d_get_int_from_json json object "width" (negsuc 0);
  }

  unfoldable pub _d_json_to_embed_provider : J → EmbedProvider
  unfolding _d_get_string_from_json
  _d_json_to_embed_provider object = record {
    name = _d_get_string_from_json json object "name";
    url = _d_get_string_from_json json object "url";
  }

  unfoldable pub _d_json_to_embed_author : J → EmbedAuthor
  unfolding _d_get_string_from_json
  _d_json_to_embed_author object = record {
    name = _d_get_string_from_json json object "name";
    url = _d_get_string_from_json json object "url";
    icon_url = _d_get_string_from_json json object "icon_url";
    proxy_icon_url = _d_get_string_from_json json object "proxy_icon_url";
  }

  unfoldable pub _d_json_to_embed_field : J → EmbedField
  unfolding _d_get_string_from_json _d_get_bool_from_json
  _d_json_to_embed_field object = record {
    name = _d_get_string_from_json json object "name";
    value = _d_get_string_from_json json object "value";
    _inline = _d_get_bool_from_json json object "inline" false;
  }

  -- The embed but for its footer.
  unfoldable pub embed_with : J → Option EmbedFooter → Embed
  unfolding _d_json_to_embed_media _d_json_to_embed_provider _d_json_to_embed_author
      _d_json_to_embed_field _d_get_string_from_json _d_get_int_from_json _d_get_array_from_json
      array_of
  embed_with object footer = record {
    title = _d_get_string_from_json json object "title";
    type = _d_get_string_from_json json object "type";
    description = _d_get_string_from_json json object "description";
    url = _d_get_string_from_json json object "url";
    timestamp = _d_get_string_from_json json object "timestamp";
    color = _d_get_int_from_json json object "color" (pos 0);
    footer = footer;
    image = Option.map _d_json_to_embed_media (json.get_object_item object "image");
    thumbnail = Option.map _d_json_to_embed_media (json.get_object_item object "thumbnail");
    video = Option.map _d_json_to_embed_media (json.get_object_item object "video");
    provider = Option.map _d_json_to_embed_provider (json.get_object_item object "provider");
    author = Option.map _d_json_to_embed_author (json.get_object_item object "author");
    fields = array_of (_d_get_array_from_json json object "fields" _d_json_to_embed_field);
  }

  -- The footer is converted as an embed, which may have a footer again: `none` is more nesting than the
  -- fuel allows for.
  unfoldable pub _d_json_to_embed : ℕ → J → Option Embed
  unfolding embed_with as_footer
  _d_json_to_embed zero object = none
  _d_json_to_embed (suc fuel) object = elim (json.get_object_item object "footer") [
    | none ↦ some (embed_with object none)
    | some tmp ↦
        Option.map (λ e. embed_with object (some (as_footer e))) (_d_json_to_embed fuel tmp)
  ]

unfoldable pub copied_embed_footer : EmbedFooter → EmbedFooter
unfolding copy_text
copied_embed_footer src = record {
  text = copy_text 2050 src.text;
  icon_url = copy_text 2050 src.icon_url;
  proxy_icon_url = copy_text 2050 src.proxy_icon_url;
}

unfoldable pub copied_embed_media : EmbedMedia → EmbedMedia
unfolding copy_text
copied_embed_media src = record {
  url = copy_text 2050 src.url;
  proxy_url = copy_text 2050 src.proxy_url;
  height = src.height;
  width = src.width;
}

unfoldable pub copied_embed_provider : EmbedProvider → EmbedProvider
unfolding copy_text
copied_embed_provider src = record { name = copy_text 2050 src.name; url = copy_text 2050 src.url }

unfoldable pub copied_embed_author : EmbedAuthor → EmbedAuthor
unfolding copy_text
copied_embed_author src = record {
  name = copy_text 257 src.name;
  url = copy_text 2050 src.url;
  icon_url = copy_text 2050 src.icon_url;
  proxy_icon_url = copy_text 2050 src.proxy_icon_url;
}

unfoldable pub copied_embed_field : EmbedField → EmbedField
unfolding copy_text
copied_embed_field src = record src {
  name = copy_text 257 src.name;
  value = copy_text 1025 src.value;
}

unfoldable pub copied_embed : Embed → Embed
unfolding copy_text copied_embed_footer copied_embed_media copied_embed_provider copied_embed_author
    copied_embed_field
copied_embed src = record src {
  title = copy_text 257 src.title;
  type = copy_text 20 src.type;
  description = copy_text 4097 src.description;
  url = copy_text 2050 src.url;
  timestamp = copy_text 50 src.timestamp;
  footer = Option.map copied_embed_footer src.footer;
  image = Option.map copied_embed_media src.image;
  thumbnail = Option.map copied_embed_media src.thumbnail;
  video = Option.map copied_embed_media src.video;
  provider = Option.map copied_embed_provider src.provider;
  author = Option.map copied_embed_author src.author;
  fields = map copied_embed_field src.fields;
}

-- The copy of NULL is NULL.
unfoldable pub _d_copy_embed : Option Embed → Option Embed
unfolding copied_embed
_d_copy_embed src = Option.map copied_embed src
