-- ===== src/Cache/Lifecycle.antt =====
-- How the three caches begin and end, and that they do not touch one another.
use disco_c.Prelude.{
  ℕ, ◌-◌, ◌≡◌, refl, sym, ap, ◌∙◌, Option, none, some, List, [], ◌∷◌, ◌++◌, map, arith, length,
}
use disco_c.Prelude.Int.{ℤ}
use mathlib.Core.List.{reverse, append_assoc, reverse-cons}
use disco_c.Cache.Defs.{HashMap, Node, Cache}
use disco_c.Cache.Invariant.{IsWellFormed}
use disco_c.Cache.Lru.{IsLru}
use disco_c.Cache.Global.{
  DiscoCacheType, disco_channel_cache, disco_message_cache, disco_guild_cache, Caches, clamp_size,
  select, init_cache, with_limits, init_guilds, init_channels, init_messages, discord_cache_init,
  drain, discord_cache_destroy,
}

module _ {D : Type 0} (h : HashMap (Node D)) where
  drain_lem :
      (q : List (Node D)) (c : Cache h)
      → c.queue ≡ q
      → c.size ≡ length q
      → ((drain h q c).queue ≡ [])
        × ((drain h q c).size ≡ 0)
        × ((drain h q c).destroyed ≡ reverse (map (λ n. n.payload) q) ++ c.destroyed)
  unfolding drain
  drain_lem [] c e n = (e, n, refl)
  drain_lem (first ∷ rest) c e n =
      let (q, s, d) =
        drain_lem rest
          (record c { queue = rest; size = c.size - 1; destroyed = first.payload ∷ c.destroyed })
          refl (omega arith) in
      (
        q,
        s,
        d
            ∙ sym (
                ap (λ l. l ++ c.destroyed) (reverse-cons first.payload (map (λ n. n.payload) rest))
                ∙ append_assoc _ (first.payload ∷ []) c.destroyed),
      )

  -- The end of a well-formed cache hands every structure of its queue to the callback once, oldest
  -- first, and leaves the queue empty with the counter at 0.
  abbrev pub IsDrained : Cache h → Cache h → Type 0
  IsDrained c c' =
      (c'.queue ≡ [])
      × (c'.size ≡ 0)
      × (c'.destroyed ≡ reverse (map (λ n. n.payload) c.queue) ++ c.destroyed)

  module _ (id_of : DiscoCacheType → D → ℕ) where
    -- `discord_cache_destroy` on three well-formed caches hands every structure of each queue to the
    -- callback exactly once, oldest first, and leaves each queue empty with its counter at 0.
    pub discord_cache_destroy_drains :
        (cs : Caches h)
        → ((type : DiscoCacheType) → IsWellFormed h (id_of type) (select h type cs))
        → (type : DiscoCacheType)
        → IsDrained (select h type cs) (select h type (discord_cache_destroy h cs))
    unfolding discord_cache_destroy select
    discord_cache_destroy_drains cs w disco_channel_cache =
        drain_lem cs.channels.queue cs.channels refl (w disco_channel_cache).counted
    discord_cache_destroy_drains cs w disco_message_cache =
        drain_lem cs.messages.queue cs.messages refl (w disco_message_cache).counted
    discord_cache_destroy_drains cs w disco_guild_cache =
        drain_lem cs.guilds.queue cs.guilds refl (w disco_guild_cache).counted

  empty-IsLru :
      (id_of : D → ℕ) (c : Cache h) (t : h.Table) (n : ℤ)
      → ((id : ℕ) → h.get t id ≡ none)
      → c.max_size ≡ clamp_size n
      → IsLru h id_of (record c { map = t; queue = []; size = 0 })
  unfolding clamp_size
  empty-IsLru id_of c t n empty m = record {
    exact = record {
      well = record {
        counted = refl;
        fresh = tt;
        distinct = tt;
        keyed = tt;
        mapped = λ id k p. absurd (cc (p, empty id));
      };
      current = tt;
    };
    room = ground arith;
    bounded = omega arith;
  }

  abbrev limit_of : ℤ → ℤ → ℤ → DiscoCacheType → ℤ
  limit_of message_size channel_size guild_size disco_channel_cache = channel_size
  limit_of message_size channel_size guild_size disco_message_cache = message_size
  limit_of message_size channel_size guild_size disco_guild_cache = guild_size

  started : (DiscoCacheType → h.Table) → ℤ → ℤ → ℤ → Caches h → Caches h
  unfolding with_limits
  started tables m c g cs =
      let cs' = with_limits h m c g cs in
      record {
        messages = record (cs'.messages) { map = tables disco_message_cache; queue = []; size = 0 };
        channels = record (cs'.channels) { map = tables disco_channel_cache; queue = []; size = 0 };
        guilds = record (cs'.guilds) { map = tables disco_guild_cache; queue = []; size = 0 };
      }

  started_lem :
      (create : DiscoCacheType → Option h.Table) (tables : DiscoCacheType → h.Table) (m c g : ℤ)
      (cs : Caches h)
      → ((type : DiscoCacheType) → create type ≡ some (tables type))
      → discord_cache_init h create m c g cs ≡ (started tables m c g cs, 0)
  unfolding discord_cache_init init_messages init_channels init_guilds init_cache started
      with_limits
  started_lem create tables m c g cs made = simp (
    init_messages,
    init_channels,
    init_guilds,
    init_cache,
    made disco_message_cache,
    made disco_channel_cache,
    made disco_guild_cache,
  )

  -- If the three calls of `hashmap_create` give empty tables, `discord_cache_init` returns 0 and each
  -- cache is empty, within its limit and with no stale node; its limit is the one asked for, or 2 if
  -- that is below 2.
  pub discord_cache_init-IsLru :
      (id_of : DiscoCacheType → D → ℕ) (create : DiscoCacheType → Option h.Table)
      (tables : DiscoCacheType → h.Table) (message_size channel_size guild_size : ℤ) (cs : Caches h)
      → ((type : DiscoCacheType) → create type ≡ some (tables type))
      → ((type : DiscoCacheType) (id : ℕ) → h.get (tables type) id ≡ none)
      → let r = discord_cache_init h create message_size channel_size guild_size cs in
        (r.1 ≡ 0)
        × ((type : DiscoCacheType)
            → IsLru h (id_of type) (select h type r.0)
              × ((select h type r.0).queue ≡ [])
              × ((select h type r.0).max_size
                  ≡ clamp_size (limit_of message_size channel_size guild_size type)))
  unfolding started with_limits select
  discord_cache_init-IsLru id_of create tables m c g cs made empty =
      rw (started_lem create tables m c g cs made) (refl, each)
    where
      each :
          (type : DiscoCacheType)
          → IsLru h (id_of type) (select h type (started tables m c g cs))
            × ((select h type (started tables m c g cs)).queue ≡ [])
            × ((select h type (started tables m c g cs)).max_size
                ≡ clamp_size (limit_of m c g type))
      each disco_channel_cache = (
        empty-IsLru (id_of disco_channel_cache) (with_limits h m c g cs).channels _ c
            (empty disco_channel_cache) refl,
        refl,
        refl,
      )
      each disco_message_cache = (
        empty-IsLru (id_of disco_message_cache) (with_limits h m c g cs).messages _ m
            (empty disco_message_cache) refl,
        refl,
        refl,
      )
      each disco_guild_cache = (
        empty-IsLru (id_of disco_guild_cache) (with_limits h m c g cs).guilds _ g
            (empty disco_guild_cache) refl,
        refl,
        refl,
      )

  -- If any of the three calls of `hashmap_create` fails, `discord_cache_init` returns 1.
  pub discord_cache_init_failed :
      (create : DiscoCacheType → Option h.Table) (message_size channel_size guild_size : ℤ)
      (cs : Caches h) (type : DiscoCacheType)
      → create type ≡ none
      → (discord_cache_init h create message_size channel_size guild_size cs).1 ≡ 1
  unfolding discord_cache_init init_messages init_channels init_guilds init_cache with_limits
  discord_cache_init_failed create m c g cs disco_channel_cache e = ground arith
  discord_cache_init_failed create m c g cs disco_message_cache e = ground arith
  discord_cache_init_failed create m c g cs disco_guild_cache e = ground arith
