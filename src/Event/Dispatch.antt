-- ===== src/Event/Dispatch.antt =====
-- src/discord/event.c: `event_handle`. Every length that `strncmp` is given takes in the terminating zero of
-- its text, so that each test compares whole texts.
use Prim.Native.String.{String}
use mathlib.Core.Option
use disco_c.Prelude.{ℕ, ◌&&◌, Option, none, some, ◌∷◌, ◌==◌, if◌then◌else◌}
use disco_c.Prelude.Text.{same}
use disco_c.Json.{CJson, strndup}
use disco_c.Cache.Defs.{HashMap, Node}
use disco_c.Cache.Global.{
  DiscoCacheType, disco_channel_cache, disco_message_cache, discord_cache_set, discord_cache_get,
}
use disco_c.Event.Bot.{
  Call, on_ready, on_message, on_message_edit, on_message_delete, on_channel_create,
  on_channel_update, on_channel_delete, on_interaction_create, Callbacks, Bot,
}

-- The conversions from JSON and the copies of the other files of src/discord; `D` is what a `void *` of the
-- cache points to, and `U` a user.
pub record Structs (J D U : Type 0) : Type 0 where
  pub json_to_user : J → U
  pub json_to_message : J → D
  pub json_to_channel : J → D
  pub json_to_interaction : J → D
  pub copy_message : D → D
  pub copy_channel : D → D

module _ {J D U : Type 0} (json : CJson J) (structs : Structs J D U) (h : HashMap (Node D))
    (id_of : DiscoCacheType → D → ℕ) where
  -- A call of a function of the user.
  unfoldable pub calling : Call D → Bot U h → Bot U h
  calling call bot = record bot { calls = call ∷ bot.calls }

  -- An ID in a text of a field, 0 if there is none.
  unfoldable pub id_in : J → String → ℕ
  id_in object name = elim (json.get_object_item object name) [
    | none ↦ 0
    | some field ↦ elim (json.valuestring field) [ none ↦ 0 | some s ↦ json.strtoull s ]
  ]

  -- The user of the event takes the place of the one before, which is destroyed.
  unfoldable pub set_user : J → Bot U h → Bot U h
  set_user object bot = elim (json.get_object_item object "user") [
    | none ↦ bot
    | some user_data ↦ record bot {
      user = some (structs.json_to_user user_data);
      destroyed_users = elim bot.user [
        | none ↦ bot.destroyed_users
        | some u ↦ u ∷ bot.destroyed_users
      ];
    }
  ]

  -- `none` is `strndup` of NULL.
  unfoldable pub set_session : J → Bot U h → Option (Bot U h)
  unfolding strndup
  set_session object bot = elim (json.get_object_item object "session_id") [
    | none ↦ some bot
    | some field ↦
        Option.map
          (λ s. record bot {
            websocket_client = record (bot.websocket_client) { session_id = some (strndup 100 s) };
          })
          (json.valuestring field)
  ]

  unfoldable pub handle_ready : J → Callbacks → Bot U h → Option (Bot U h)
  unfolding set_user set_session calling
  handle_ready object given bot =
      Option.map (λ b. if given.has_ready then calling on_ready b else b)
        (set_session object (set_user object bot))

  -- The structure is stored in a cache, and the call is made.
  unfoldable pub store : DiscoCacheType → D → Call D → Bot U h → Option (Bot U h)
  unfolding discord_cache_set calling
  store type cont call bot =
      Option.map (λ r. calling call (record bot { caches = r.0 }))
        (discord_cache_set h id_of type cont bot.caches)

  unfoldable pub handle_create :
      DiscoCacheType → D → (D → D) → (D → Call D) → Bot U h → Option (Bot U h)
  unfolding store
  handle_create type cont copy call bot = store type cont (call (copy cont)) bot

  -- The version that the cache knows is looked up before the new one is stored.
  unfoldable pub handle_update :
      DiscoCacheType → D → (D → D) → (Option D → D → Call D) → Bot U h → Option (Bot U h)
  unfolding store discord_cache_get
  handle_update type cont copy call bot =
      let (caches, old) = discord_cache_get h id_of type (id_of type cont) bot.caches in
      store type cont (call (Option.map copy old) (copy cont)) (record bot { caches = caches })

  -- The version that the cache knows is looked up, unless the ID is 0; it stays in the cache.
  unfoldable pub handle_delete :
      DiscoCacheType → ℕ → (D → D) → (Option D → Call D) → Bot U h → Bot U h
  unfolding discord_cache_get calling
  handle_delete type del_id copy call bot =
      let (caches, old) = discord_cache_get h id_of type del_id bot.caches in
      if del_id == 0
      then calling (call none) bot
      else calling (call (Option.map copy old)) (record bot { caches = caches })

  -- `none` is a read through the NULL of a missing type.
  unfoldable pub channel_delete : J → Bot U h → Option (Bot U h)
  unfolding id_in handle_delete
  channel_delete object bot =
      Option.map
        (λ c.
          handle_delete disco_channel_cache (id_in object "id") structs.copy_channel
            (on_channel_delete (id_in object "id") (id_in object "guild_id")
              (id_in object "parent_id") (json.valueint c))
            bot)
        (json.get_object_item object "type")

  unfoldable pub message_delete : J → Bot U h → Bot U h
  unfolding id_in handle_delete
  message_delete object bot =
      handle_delete disco_message_cache (id_in object "id") structs.copy_message
        (on_message_delete (id_in object "id") (id_in object "channel_id")
          (id_in object "guild_id"))
        bot

  -- The events that do something.
  unfoldable pub handle_event : J → String → Callbacks → Bot U h → Option (Bot U h)
  unfolding handle_ready handle_create handle_update channel_delete message_delete calling
  handle_event object event given bot =
      if same event "READY"
      then handle_ready object given bot
      else if same event "CHANNEL_CREATE" && given.has_channel_create
      then handle_create disco_channel_cache (structs.json_to_channel object) structs.copy_channel
          on_channel_create bot
      else if same event "CHANNEL_UPDATE" && given.has_channel_update
      then handle_update disco_channel_cache (structs.json_to_channel object) structs.copy_channel
          on_channel_update bot
      else if same event "CHANNEL_DELETE" && given.has_channel_delete
      then channel_delete object bot
      else if same event "MESSAGE_CREATE" && given.has_message
      then handle_create disco_message_cache (structs.json_to_message object) structs.copy_message
          on_message bot
      else if same event "MESSAGE_UPDATE" && given.has_message_edit
      then handle_update disco_message_cache (structs.json_to_message object) structs.copy_message
          on_message_edit bot
      else if same event "MESSAGE_DELETE" && given.has_message_delete
      then some (message_delete object bot)
      else if same event "INTERACTION_CREATE" && given.has_interaction_create
      then some (calling (on_interaction_create (structs.json_to_interaction object)) bot)
      else some bot

  -- With no functions of the user, nothing is done.
  unfoldable pub event_handle : J → String → Bot U h → Option (Bot U h)
  unfolding handle_event
  event_handle object event bot = elim bot.callbacks [
    | none ↦ some bot
    | some given ↦ handle_event object event given bot
  ]
