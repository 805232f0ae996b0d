-- ===== src/Cache/Global.antt =====
-- src/utils/cache.c: the three caches, chosen by `enum Disco_Cache_Type`, and their set-up and end.
use disco_c.Prelude.{ℕ, ◌-◌, Option, none, some, List, [], ◌∷◌, if◌then◌else◌}
use disco_c.Prelude.Int.{ℤ, pos, ltb_ℤ, pos_part}
use mathlib.Core.Option
use disco_c.Cache.Defs.{HashMap, Node, Cache, cache_delete, cache_get, cache_set}

-- `enum Disco_Cache_Type`.
pub data DiscoCacheType : Type 0 where
  disco_channel_cache disco_message_cache disco_guild_cache : DiscoCacheType

-- The file's static variables.
pub record Caches {D : Type 0} (h : HashMap (Node D)) : Type 0 where
  pub messages : Cache h
  pub channels : Cache h
  pub guilds : Cache h

-- A limit below 2 is raised to 2.
unfoldable pub clamp_size : ℤ → ℕ
clamp_size n = if ltb_ℤ n (pos 2) then 2 else pos_part n

module _ {D : Type 0} (h : HashMap (Node D)) where
  unfoldable pub select : DiscoCacheType → Caches h → Cache h
  select disco_channel_cache cs = cs.channels
  select disco_message_cache cs = cs.messages
  select disco_guild_cache cs = cs.guilds

  unfoldable pub replace : DiscoCacheType → Cache h → Caches h → Caches h
  replace disco_channel_cache c cs = record cs { channels = c }
  replace disco_message_cache c cs = record cs { messages = c }
  replace disco_guild_cache c cs = record cs { guilds = c }

  -- `TAILQ_INIT` and the reset of the size, for the table that `hashmap_create(2, …)` made; `none` if
  -- it did not return 0.
  unfoldable pub init_cache : Option h.Table → Cache h → Option (Cache h)
  init_cache created c = Option.map (λ t. record c { map = t; queue = []; size = 0 }) created

  unfoldable pub with_limits : ℤ → ℤ → ℤ → Caches h → Caches h
  unfolding clamp_size
  with_limits message_size channel_size guild_size cs = record cs {
    messages = record (cs.messages) { max_size = clamp_size message_size };
    channels = record (cs.channels) { max_size = clamp_size channel_size };
    guilds = record (cs.guilds) { max_size = clamp_size guild_size };
  }

  -- `create` gives what the three calls of `hashmap_create` did. The limits are set first; each failed `hashmap_create` returns 1 and leaves the rest undone.
  unfoldable pub init_guilds : (DiscoCacheType → Option h.Table) → Caches h → Caches h × ℕ
  unfolding init_cache
  init_guilds create cs = elim (init_cache (create disco_guild_cache) cs.guilds) [
    | none ↦ (cs, 1)
    | some c ↦ (record cs { guilds = c }, 0)
  ]

  unfoldable pub init_channels : (DiscoCacheType → Option h.Table) → Caches h → Caches h × ℕ
  unfolding init_cache init_guilds
  init_channels create cs = elim (init_cache (create disco_channel_cache) cs.channels) [
    | none ↦ (cs, 1)
    | some c ↦ init_guilds create (record cs { channels = c })
  ]

  unfoldable pub init_messages : (DiscoCacheType → Option h.Table) → Caches h → Caches h × ℕ
  unfolding init_cache init_channels
  init_messages create cs = elim (init_cache (create disco_message_cache) cs.messages) [
    | none ↦ (cs, 1)
    | some c ↦ init_channels create (record cs { messages = c })
  ]

  unfoldable pub discord_cache_init :
      (DiscoCacheType → Option h.Table) → ℤ → ℤ → ℤ → Caches h → Caches h × ℕ
  unfolding with_limits init_messages
  discord_cache_init create message_size channel_size guild_size cs =
      init_messages create (with_limits message_size channel_size guild_size cs)

  -- One of the `while` loops of `discord_cache_destroy`, over the queue.
  unfoldable pub drain : List (Node D) → Cache h → Cache h
  drain [] c = c
  drain (first ∷ rest) c =
      drain rest
        (record c { queue = rest; size = c.size - 1; destroyed = first.payload ∷ c.destroyed })

  unfoldable pub discord_cache_destroy : Caches h → Caches h
  unfolding drain
  discord_cache_destroy cs = record {
    messages = drain cs.messages.queue cs.messages;
    channels = drain cs.channels.queue cs.channels;
    guilds = drain cs.guilds.queue cs.guilds;
  }

  -- `id_of type` reads the `id` member of a structure of that type.
  module _ (id_of : DiscoCacheType → D → ℕ) where
    unfoldable pub discord_cache_set : DiscoCacheType → D → Caches h → Option (Caches h × ℕ)
    unfolding select replace cache_set
    discord_cache_set type cont cs =
        Option.map (λ r. (replace type r.0 cs, r.1))
          (cache_set h (id_of type) cont (select type cs))

    unfoldable pub discord_cache_get : DiscoCacheType → ℕ → Caches h → Caches h × Option D
    unfolding select replace cache_get
    discord_cache_get type id cs =
        let r = cache_get h (id_of type) id (select type cs) in (replace type r.0 cs, r.1)

    unfoldable pub discord_cache_delete : DiscoCacheType → ℕ → Caches h → Caches h
    unfolding select replace cache_delete
    discord_cache_delete type id cs =
        replace type (cache_delete h (id_of type) id (select type cs)) cs
