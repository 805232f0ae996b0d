-- ===== src/Event/Tests.antt =====
-- The theorems about events at a concrete client.
use disco_c.Prelude.{ℕ, ◌≡◌, refl, none, some, ◌∷◌, arith}
use disco_c.Cache.Defs.{cache_get}
use disco_c.Cache.Invariant.{IsWellFormed}
use disco_c.Cache.Lru.{IsLru}
use disco_c.Cache.Insert.{Adds}
use disco_c.Cache.Global.{disco_message_cache}
use disco_c.Event.Bot.{on_message, on_message_edit, on_message_delete, Bot}
use disco_c.Event.Dispatch.{event_handle, id_in}
use disco_c.Event.Messages.{message_create-Adds, message_update-IsWellFormed, message_delete_keeps}
use disco_c.Samples.{json, structs, id_of, tables, tables-IsHashMap, empty, listening, bot}

empty-IsWellFormed : IsWellFormed tables (id_of disco_message_cache) empty
empty-IsWellFormed = record {
  counted = refl;
  fresh = omega arith;
  distinct = omega arith;
  keyed = tt;
  mapped = λ id n e. absurd (cc e);
}

empty-IsLru : IsLru tables (id_of disco_message_cache) empty
empty-IsLru = record {
  exact = record { well = empty-IsWellFormed; current = tt };
  room = omega arith;
  bounded = omega arith;
}

message_create-Adds_example :
    (bot' : Bot ℕ tables) × (event_handle json structs tables id_of 0 "MESSAGE_CREATE" bot
      ≡ some bot')
    × Adds tables (id_of disco_message_cache) 42 bot.caches.messages bot'.caches.messages
    × (bot'.caches.channels ≡ bot.caches.channels)
    × (bot'.caches.guilds ≡ bot.caches.guilds)
    × (bot'.calls ≡ on_message 42 ∷ bot.calls)
message_create-Adds_example =
    message_create-Adds json structs tables tables-IsHashMap id_of (λ t k v. refl) 0 listening bot
      refl refl empty-IsLru refl

message_update-IsWellFormed_example :
    (bot' : Bot ℕ tables) × (event_handle json structs tables id_of 0 "MESSAGE_UPDATE" bot
      ≡ some bot')
    × IsWellFormed tables (id_of disco_message_cache) bot'.caches.messages
    × (bot'.calls ≡ on_message_edit none 42 ∷ bot.calls)
unfolding cache_get
message_update-IsWellFormed_example =
    message_update-IsWellFormed json structs tables tables-IsHashMap id_of (λ t k v. refl) 0
      listening bot refl refl empty-IsWellFormed

message_delete_keeps_example :
    (bot' : Bot ℕ tables) × (event_handle json structs tables id_of 0 "MESSAGE_DELETE" bot
      ≡ some bot')
    × (bot'.calls ≡ on_message_delete 42 0 0 none ∷ bot.calls)
    × (bot'.caches.messages.map ≡ bot.caches.messages.map)
    × (bot'.caches.messages.size ≡ bot.caches.messages.size)
    × (bot'.caches.messages.destroyed ≡ bot.caches.messages.destroyed)
unfolding cache_get id_in
message_delete_keeps_example =
    message_delete_keeps json structs tables tables-IsHashMap id_of (λ t k v. refl) 0 listening bot
      refl refl (ground arith)
