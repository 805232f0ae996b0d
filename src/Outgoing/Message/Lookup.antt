-- ===== src/Outgoing/Message/Lookup.antt =====
-- src/discord/message.c: a message that is looked for in the cache and fetched, with the end of the request.
use mathlib.Core.Option
use Prim.Native.String.{String}
use disco_c.Prelude.{ℕ, Bool, true, false, Option, none, some, List, [], ◌∷◌}
use disco_c.TPool.{TPool}
use disco_c.Cache.Defs.{HashMap, Node}
use disco_c.Cache.Global.{DiscoCacheType, disco_message_cache, Caches, discord_cache_get}
use disco_c.Request.{RequestNode}
use disco_c.Outgoing.Message.{discord_fetch_message}

-- The structures that the user's function is called with at once.
unfoldable pub calls_of : {D : Type 0} → Option D → List D
calls_of none = []
calls_of (some msg) = msg ∷ []

module _ {D : Type 0} (h : HashMap (Node D)) (id_of : DiscoCacheType → D → ℕ) (token : String) where
  -- The caches, the calls of the user's function and the pool. A message that is cached is fetched as well.
  unfoldable pub discord_get_message :
      ℕ → ℕ → Bool → Caches h → TPool RequestNode → Option (Caches h × List D × TPool RequestNode)
  unfolding discord_cache_get discord_fetch_message calls_of
  discord_get_message channel_id message_id false cs pool = some (cs, [], pool)
  discord_get_message channel_id message_id true cs pool =
      let found = discord_cache_get h id_of disco_message_cache message_id cs in
      Option.map (λ pool'. (found.0, calls_of found.1, pool'))
        (discord_fetch_message token channel_id message_id true pool)
