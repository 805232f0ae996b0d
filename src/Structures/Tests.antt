-- ===== src/Structures/Tests.antt =====
-- The theorems about copies at concrete structures.
use disco_c.Prelude.{ℕ, ◌+◌, ◌≤◌, ◌≡◌, refl, true, false, none, some, [], arith}
use disco_c.Json.Build.{Value, object, array, number, no_fields, field, no_items, item}
use disco_c.Samples.Tree.{found_size-get, size-elements_of, tree_json, size}
use disco_c.Structures.Component.{
  Component, action_row, component_and, no_components, button, _d_json_to_component,
  _d_copy_component, discord_destroy_component,
}
use disco_c.Structures.Component.Nesting.{IsNested, _d_json_to_component_ends}
use disco_c.Structures.Component.Blocks.{blocks, typed, destroyed_copy_loses}
use disco_c.Prelude.Int.{pos}
use disco_c.Structures.User.{User}
use disco_c.Structures.Embed.{Embed}
use disco_c.Structures.Embed.Destroy.{
  discord_destroy_embed, occurrences, is_title, is_timestamp, title_frees,
  discord_destroy_embed_frees,
}
use mathlib.Core.Option
use disco_c.Json.{strndup}
use disco_c.Structures.Channel.{Channel, copied_channel, discord_destroy_channel}
use disco_c.Structures.Channel.Sharing.{times, destroy-copied_channel}

abbrev someone : User
someone = record {
  id = 1;
  username = some "someone";
  discriminator = some "0001";
  avatar = none;
  bot = false;
  system = false;
  mfa_enabled = false;
  banner = none;
  accent_color = pos 0;
  locale = some "en-US";
  verified = true;
  email = none;
  flags = pos 0;
  premium_type = pos 0;
  public_flags = pos 0;
}

-- The size of a value that was looked up and one more, 0 if there is none.
tree_json-IsNested : IsNested tree_json size
tree_json-IsNested = record {
  deeper = λ v a e. size-elements_of (size v) a (rw e at (found_size-get v "components"));
}

abbrev a_row : Value ℕ
a_row = object (
    field (field no_fields "type" (number (pos 1))) "components"
      (array (item no_items (object (field no_fields "type" (number (pos 2)))))))

_d_json_to_component_ends_example :
    (c : Component) × (_d_json_to_component tree_json 4 a_row ≡ some c)
    × (_d_json_to_component tree_json 9 a_row ≡ some c)
_d_json_to_component_ends_example =
    _d_json_to_component_ends tree_json size tree_json-IsNested a_row 4 9 (omega arith)
      (omega arith)

abbrev a_button : Component
a_button = button (record {
  style = pos 1;
  label = some "Press";
  emoji = none;
  custom_id = some "b";
  url = none;
  disabled = false;
})

abbrev a_component : Component
a_component = action_row (component_and a_button no_components)

destroyed_copy_loses_example :
    (blocks (_d_copy_component a_component) ≡ blocks a_component)
    × (blocks a_component
        ≡ discord_destroy_component (_d_copy_component a_component)
          + typed (_d_copy_component a_component))
destroyed_copy_loses_example = destroyed_copy_loses a_component

abbrev an_embed : Embed
an_embed = record {
  title = some "title";
  type = none;
  description = none;
  url = none;
  timestamp = some "2023";
  color = pos 255;
  footer = none;
  image = none;
  thumbnail = none;
  video = none;
  provider = none;
  author = none;
  fields = [];
}

discord_destroy_embed_frees_example :
    (occurrences is_title (discord_destroy_embed an_embed)
      ≡ title_frees an_embed.timestamp an_embed.title)
    × (occurrences is_timestamp (discord_destroy_embed an_embed) ≡ 0)
discord_destroy_embed_frees_example = discord_destroy_embed_frees an_embed

-- The title is freed twice.
freed_twice : title_frees an_embed.timestamp an_embed.title ≡ 2
freed_twice = refl

abbrev a_channel : Channel
a_channel = record {
  id = 1;
  type = pos 1;
  guild_id = 0;
  position = pos 0;
  permission_overwrites_count = 0;
  name = some (record { address = 0; content = "name" });
  topic = some (record { address = 1; content = "topic" });
  nsfw = false;
  last_message_id = 0;
  bitrate = pos 0;
  user_limit = pos 0;
  rate_limit_per_user = pos 0;
  recipients = [];
  icon = some (record { address = 2; content = "icon" });
  owner_id = 0;
  application_id = 0;
  parent_id = 0;
  last_pin_timestamp = none;
  rtc_region = none;
  video_quality_mode = pos 1;
  message_count = pos 0;
  member_count = pos 0;
  default_auto_archive_duration = pos 0;
  permissions = none;
  flags = pos 0;
}

destroy-copied_channel_example :
    (1 ≤ times 2 (discord_destroy_channel a_channel))
    × (times 2 (discord_destroy_channel (copied_channel 3 a_channel)) ≡ 1)
    × (Option.map (λ t. t.content) (copied_channel 3 a_channel).topic ≡ some (strndup 1025 "icon"))
    × (times 1 (discord_destroy_channel (copied_channel 3 a_channel)) ≡ 0)
destroy-copied_channel_example =
    destroy-copied_channel a_channel 3 (record { address = 2; content = "icon" }) 1 refl
      (omega arith) (omega arith) (omega arith)
