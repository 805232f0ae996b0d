-- ===== src/Structures/Channel.antt =====
-- src/discord/channel.c and include/discord/channel.h: channels, whose texts are kept with their addresses, since
-- a copy shares one with its original. Overwrites and the structures of threads (src/discord/permission.c
-- and src/discord/thread.c) are not implemented: an overwrite is always NULL, and so is what a thread has.
pub mod Sharing
use Prim.Native.String.{String}
use mathlib.Core.Option
use disco_c.Prelude.{
  ℕ, zero, suc, ◌+◌, ◌-◌, ◌*◌, ◌/◌, ◌%◌, ◌^◌, ◌≤◌, ◌<◌, ◌≡◌, refl, sym, ap, ◌∙◌, subst, ◌≢◌, ◌↔◌,
  ◌⊎◌, inl, inr, Bool, true, false, not, ◌&&◌, ◌||◌, Option, none, some, List, [], ◌∷◌, ◌++◌, map,
  arith, length, length-append, All, ltb, leb, ◌==◌, if◌then◌else◌, ltb→lt, lt→ltb, leb→le, ==_iff,
  Bool-cases, Option-cases,
}
use disco_c.Prelude.Int.{ℤ, pos, negsuc}
use disco_c.Json.{
  CJson, strndup, _d_get_string_from_json, _d_get_bool_from_json, _d_get_int_from_json,
  _d_get_array_from_json, _d_get_long_from_string_json,
}
use disco_c.Structures.User.{User, _d_json_to_user, copied_user}
use disco_c.Structures.Embed.{array_of}

-- A text in memory.
pub record Text : Type 0 where
  pub address : ℕ
  pub content : String

-- `struct discord_channel`; a count of overwrites without the pointers to them.
pub record Channel : Type 0 where
  pub id : ℕ
  pub type : ℤ
  pub guild_id : ℕ
  pub position : ℤ
  pub permission_overwrites_count : ℕ
  pub name : Option Text
  pub topic : Option Text
  pub nsfw : Bool
  pub last_message_id : ℕ
  pub bitrate : ℤ
  pub user_limit : ℤ
  pub rate_limit_per_user : ℤ
  pub recipients : List User
  pub icon : Option Text
  pub owner_id : ℕ
  pub application_id : ℕ
  pub parent_id : ℕ
  pub last_pin_timestamp : Option Text
  pub rtc_region : Option Text
  pub video_quality_mode : ℤ
  pub message_count : ℤ
  pub member_count : ℤ
  pub default_auto_archive_duration : ℤ
  pub permissions : Option Text
  pub flags : ℤ

-- `struct discord_channel_mention`.
pub record ChannelMention : Type 0 where
  pub id : ℕ
  pub guild_id : ℕ
  pub type : ℤ
  pub name : Option String

-- A text that is allocated at an address.
unfoldable pub allocated : ℕ → Option String → Option Text
allocated address none = none
allocated address (some s) = some (record { address = address; content = s })

module _ {J : Type 0} (json : CJson J) where
  -- The texts are allocated from the address `next` on, each at its own address.
  unfoldable pub _d_json_to_channel : ℕ → J → Channel
  unfolding allocated _d_get_string_from_json _d_get_bool_from_json _d_get_int_from_json
      _d_get_array_from_json _d_get_long_from_string_json array_of _d_json_to_user
  _d_json_to_channel next object = record {
    id = _d_get_long_from_string_json json object "id" 0;
    type = _d_get_int_from_json json object "type" (pos 0);
    guild_id = _d_get_long_from_string_json json object "guild_id" 0;
    position = _d_get_int_from_json json object "position" (negsuc 0);
    permission_overwrites_count =
        (_d_get_array_from_json json object "permission_overwrites" (λ overwrite. tt)).0;
    name = allocated next (_d_get_string_from_json json object "name");
    topic = allocated (next + 1) (_d_get_string_from_json json object "topic");
    nsfw = _d_get_bool_from_json json object "nsfw" false;
    last_message_id = _d_get_long_from_string_json json object "last_message_id" 0;
    bitrate = _d_get_int_from_json json object "bitrate" (pos 0);
    user_limit = _d_get_int_from_json json object "user_limit" (pos 0);
    rate_limit_per_user = _d_get_int_from_json json object "rate_limit_per_user" (pos 0);
    recipients = array_of (_d_get_array_from_json json object "recipients" (_d_json_to_user json));
    icon = allocated (next + 2) (_d_get_string_from_json json object "icon");
    owner_id = _d_get_long_from_string_json json object "owner_id" 0;
    application_id = _d_get_long_from_string_json json object "application_id" 0;
    parent_id = _d_get_long_from_string_json json object "parent_id" 0;
    last_pin_timestamp =
        allocated (next + 3) (_d_get_string_from_json json object "last_pin_timestamp");
    rtc_region = allocated (next + 4) (_d_get_string_from_json json object "rtc_region");
    video_quality_mode = _d_get_int_from_json json object "video_quality_mode" (pos 1);
    message_count = _d_get_int_from_json json object "message_count" (pos 0);
    member_count = _d_get_int_from_json json object "member_count" (pos 0);
    default_auto_archive_duration =
        _d_get_int_from_json json object "default_auto_archive_duration" (pos 0);
    permissions = allocated (next + 5) (_d_get_string_from_json json object "permissions");
    flags = _d_get_int_from_json json object "flags" (pos 0);
  }

  unfoldable pub _d_json_to_channel_mention : J → ChannelMention
  unfolding _d_get_string_from_json _d_get_int_from_json _d_get_long_from_string_json
  _d_json_to_channel_mention object = record {
    id = _d_get_long_from_string_json json object "id" 0;
    guild_id = _d_get_long_from_string_json json object "guild_id" 0;
    type = _d_get_int_from_json json object "type" (pos 0);
    name = _d_get_string_from_json json object "name";
  }

-- `strndup` into new memory at the address.
unfoldable pub copied_text : ℕ → ℕ → Option Text → Option Text
unfolding strndup
copied_text address limit none = none
copied_text address limit (some t) =
    some (record { address = address; content = strndup limit t.content })

-- The copy of the icon, if there is one, takes the place of the copy of the topic.
unfoldable pub copied_topic : ℕ → Option Text → Option Text → Option Text
unfolding copied_text
copied_topic next topic none = copied_text (next + 1) 1025 topic
copied_topic next topic (some icon) = copied_text (next + 2) 1025 (some icon)

-- The other texts are copied to addresses from `next` on; the rest is as `memcpy` left it.
unfoldable pub copied_channel : ℕ → Channel → Channel
unfolding copied_text copied_topic copied_user
copied_channel next src = record src {
  name = copied_text next 101 src.name;
  topic = copied_topic next src.topic src.icon;
  recipients = map copied_user src.recipients;
  last_pin_timestamp = copied_text (next + 3) 100 src.last_pin_timestamp;
  rtc_region = copied_text (next + 4) 100 src.rtc_region;
  permissions = copied_text (next + 5) 100 src.permissions;
}

unfoldable pub _d_copy_channel : ℕ → Option Channel → Option Channel
unfolding copied_channel
_d_copy_channel next src = Option.map (copied_channel next) src

-- The addresses of the texts that are not NULL.
unfoldable pub addresses : List (Option Text) → List ℕ
addresses [] = []
addresses (none ∷ rest) = addresses rest
addresses (some t ∷ rest) = t.address ∷ addresses rest

-- The texts of the channel that are freed.
unfoldable pub discord_destroy_channel : Channel → List ℕ
unfolding addresses
discord_destroy_channel ch =
    addresses
      (ch.name ∷ ch.topic ∷ ch.icon ∷ ch.last_pin_timestamp ∷ ch.rtc_region ∷ ch.permissions ∷ [])
