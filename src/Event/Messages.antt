-- ===== src/Event/Messages.antt =====
-- What the events of messages do to the message cache, and what the user's functions are given.
use mathlib.Core.Option
use disco_c.Prelude.{ℕ, ◌≡◌, refl, ◌∙◌, ◌≢◌, true, false, none, some, ◌∷◌, arith, ◌==◌}
use disco_c.Json.{CJson}
use disco_c.Cache.Defs.{HashMap, IsHashMap, Node, cache_get}
use disco_c.Cache.Invariant.{IsWellFormed, cache_get-IsWellFormed, cache_set-IsWellFormed}
use disco_c.Cache.Lru.{IsLru}
use disco_c.Cache.Insert.{Adds, cache_set-Adds}
use disco_c.Cache.Global.{
  DiscoCacheType, disco_message_cache, select, replace, discord_cache_set, discord_cache_get,
}
use disco_c.Event.Bot.{on_message, on_message_edit, on_message_delete, Callbacks, Bot}
use disco_c.Event.Dispatch.{
  Structs, calling, store, handle_create, handle_update, handle_delete, message_delete, id_in,
  handle_event, event_handle,
}

module _ {J D U : Type 0} (json : CJson J) (structs : Structs J D U) (h : HashMap (Node D))
    (laws : IsHashMap h) (id_of : DiscoCacheType → D → ℕ)
    (puts : (t : h.Table) (k : ℕ) (v : Node D) → (h.put t k v).1 ≡ true) where
  message_event :
      (object : J) (given : Callbacks) (bot : Bot U h)
      → bot.callbacks ≡ some given
      → (given.has_message ≡ true
          → event_handle json structs h id_of object "MESSAGE_CREATE" bot
            ≡ handle_create json structs h id_of disco_message_cache
                (structs.json_to_message object)
                structs.copy_message
                on_message
                bot)
        × (given.has_message_edit ≡ true
            → event_handle json structs h id_of object "MESSAGE_UPDATE" bot
              ≡ handle_update json structs h id_of disco_message_cache
                  (structs.json_to_message object)
                  structs.copy_message
                  on_message_edit
                  bot)
        × (given.has_message_delete ≡ true
            → event_handle json structs h id_of object "MESSAGE_DELETE" bot
              ≡ some (message_delete json structs h id_of object bot))
  unfolding event_handle handle_event
  message_event object given bot g = (λ e. rw (g, e) refl, λ e. rw (g, e) refl, λ e. rw (g, e) refl)

  -- A MESSAGE_CREATE event, where the user gave a function for it, the hash table never fails, the
  -- message cache has no stale node, and the message's ID is new to it: the message becomes its
  -- most recent entry, evicting the oldest exactly if the cache is at its limit, the other caches
  -- stay, and the user's function is given a copy, once.
  pub message_create-Adds :
      (object : J) (given : Callbacks) (bot : Bot U h)
      → bot.callbacks ≡ some given
      → given.has_message ≡ true
      → IsLru h (id_of disco_message_cache) bot.caches.messages
      → h.get bot.caches.messages.map (id_of disco_message_cache (structs.json_to_message object))
        ≡ none
      → let message = structs.json_to_message object in
        let id = id_of disco_message_cache in
        (bot' : Bot U h) × (event_handle json structs h id_of object "MESSAGE_CREATE" bot
          ≡ some bot')
        × Adds h id message bot.caches.messages bot'.caches.messages
        × (bot'.caches.channels ≡ bot.caches.channels)
        × (bot'.caches.guilds ≡ bot.caches.guilds)
        × (bot'.calls ≡ on_message (structs.copy_message message) ∷ bot.calls)
  unfolding handle_create store discord_cache_set select replace calling
  message_create-Adds object given bot g t lru n =
      let message = structs.json_to_message object in
      let id = id_of disco_message_cache in
      let (c', e, a) = cache_set-Adds h laws id bot.caches.messages message lru (puts _ _ _) n in
      (
        calling json structs h id_of (on_message (structs.copy_message message))
            (record bot { caches = record (bot.caches) { messages = c' } }),
        (message_event object given bot g).0 t ∙ rw e refl,
        a,
        refl,
        refl,
        refl,
      )

  -- A MESSAGE_UPDATE event, where the user gave a function for it and the hash table never fails,
  -- never fails on a well-formed message cache and leaves it well-formed; the user's function is
  -- given copies of the version that the cache knew, if it knew one, and of the new one.
  pub message_update-IsWellFormed :
      (object : J) (given : Callbacks) (bot : Bot U h)
      → bot.callbacks ≡ some given
      → given.has_message_edit ≡ true
      → IsWellFormed h (id_of disco_message_cache) bot.caches.messages
      → let message = structs.json_to_message object in
        let id = id_of disco_message_cache in
        (bot' : Bot U h) × (event_handle json structs h id_of object "MESSAGE_UPDATE" bot
          ≡ some bot')
        × IsWellFormed h id bot'.caches.messages
        × (bot'.calls
            ≡ on_message_edit
                (Option.map structs.copy_message
                  (cache_get h id (id message) bot.caches.messages).1)
                (structs.copy_message message)
              ∷ bot.calls)
  unfolding handle_update store discord_cache_set discord_cache_get select replace calling cache_get
  message_update-IsWellFormed object given bot g t w =
      let message = structs.json_to_message object in
      let id = id_of disco_message_cache in
      let looked = (cache_get h id (id message) bot.caches.messages).0 in
      let (c', e, w') =
        cache_set-IsWellFormed h laws id message looked (puts _ _ _)
          (cache_get-IsWellFormed h laws id (id message) bot.caches.messages w) in
      (
        calling json structs h id_of
            (on_message_edit
              (Option.map structs.copy_message (cache_get h id (id message) bot.caches.messages).1)
              (structs.copy_message message))
            (record bot { caches = record (bot.caches) { messages = c' } }),
        (message_event object given bot g).1 t ∙ rw e refl,
        w',
        refl,
      )

  -- A MESSAGE_DELETE event with an ID other than 0, where the user gave a function for it: the
  -- function is given the three IDs and a copy of the message if the cache knows it, and the cache
  -- goes on knowing it: its map and the number of its entries stay, and no message is destroyed.
  pub message_delete_keeps :
      (object : J) (given : Callbacks) (bot : Bot U h)
      → bot.callbacks ≡ some given
      → given.has_message_delete ≡ true
      → id_in json structs h id_of object "id" ≢ 0
      → let del_id = id_in json structs h id_of object "id" in
        let id = id_of disco_message_cache in
        (bot' : Bot U h) × (event_handle json structs h id_of object "MESSAGE_DELETE" bot
          ≡ some bot')
        × (bot'.calls
            ≡ on_message_delete del_id
                (id_in json structs h id_of object "channel_id")
                (id_in json structs h id_of object "guild_id")
                (Option.map structs.copy_message (cache_get h id del_id bot.caches.messages).1)
              ∷ bot.calls)
        × (bot'.caches.messages.map ≡ bot.caches.messages.map)
        × (bot'.caches.messages.size ≡ bot.caches.messages.size)
        × (bot'.caches.messages.destroyed ≡ bot.caches.messages.destroyed)
  unfolding message_delete handle_delete discord_cache_get select replace calling cache_get
  message_delete_keeps object given bot g t n =
      let z : (id_in json structs h id_of object "id" == 0) ≡ false = ground (arith, n) in
      (
        message_delete json structs h id_of object bot,
        (message_event object given bot g).2 t,
        rw z refl,
        rw z refl,
        rw z refl,
        rw z refl,
      )
