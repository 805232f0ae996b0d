-- ===== src/Gateway/Loop.antt =====
-- src/web/gateway.c: the event loop, which serves the callbacks of libwebsockets.
use disco_c.Prelude.{
  ℕ, ◌≡◌, refl, ap, ◌∙◌, Bool, true, false, not, ◌&&◌, Option, none, some, List, [], ◌∷◌,
  if◌then◌else◌,
}
use disco_c.PrioQueue.{Timeval}
use disco_c.Json.{CJson}
use disco_c.Cache.Defs.{HashMap, Node}
use disco_c.Cache.Global.{DiscoCacheType}
use disco_c.Event.Bot.{Bot}
use disco_c.Event.Dispatch.{Structs}
use disco_c.Gateway.Ops.{websocket_exit}
use disco_c.Gateway.Receive.{Reason, client_closed, on_closed, websocket_callback}
use disco_c.Gateway.Closing.{on_closed_ends}

-- One call of `lws_service`: the callbacks that it makes, each with its time, and whether SIGTERM has been
-- received when it returns.
pub record Service : Type 0 where
  pub callbacks : List (Timeval × Reason)
  pub sigterm_recv : Bool

module _ {J D U : Type 0} (json : CJson J) (structs : Structs J D U) (h : HashMap (Node D))
    (id_of : DiscoCacheType → D → ℕ) where
  unfoldable pub lws_service : List (Timeval × Reason) → Bot U h → Option (Bot U h)
  unfolding websocket_callback
  lws_service [] bot = some bot
  lws_service ((now, reason) ∷ rest) bot =
      elim (websocket_callback json structs h id_of now reason bot) [
        | none ↦ none
        | some (bot', _) ↦ lws_service rest bot'
      ]

  -- The loop over the calls of `lws_service` that there are.
  unfoldable pub gateway_event_loop : List Service → Bot U h → Option (Bot U h)
  unfolding lws_service websocket_exit
  gateway_event_loop [] bot = some bot
  gateway_event_loop (service ∷ later) bot =
      if not bot.websocket_client.active
      then some bot
      else (elim (lws_service service.callbacks bot) [
        | none ↦ none
        | some bot' ↦
            if service.sigterm_recv
            then some (websocket_exit bot')
            else gateway_event_loop later bot'
      ])

  loop_idle :
      (later : List Service) (bot : Bot U h)
      → bot.websocket_client.active ≡ false
      → gateway_event_loop later bot ≡ some bot
  unfolding gateway_event_loop
  loop_idle [] bot e = refl
  loop_idle (service ∷ later) bot e =
      outside (not bot.websocket_client.active) (ap not e) (some bot) _
    where
      outside : (b : Bool) → b ≡ true → (p q : Option (Bot U h)) → (if b then p else q) ≡ p
      outside b e p q = rw e refl

  -- If the connection is closed and the login had not succeeded, or an exit was asked for, the event loop
  -- ends in the state that the callback leaves: no later callback is served, whatever Discord sends.
  gateway_event_loop-on_closed :
      (now : Timeval) (later : List Service) (bot : Bot U h)
      → bot.websocket_client.active ≡ true
      → (bot.websocket_client.success_login && not bot.websocket_client.exit) ≡ false
      → gateway_event_loop
          (record { callbacks = (now, client_closed) ∷ []; sigterm_recv = false } ∷ later)
          bot
        ≡ some (on_closed json structs h id_of bot).0
  unfolding gateway_event_loop lws_service websocket_callback
  gateway_event_loop-on_closed now later bot a e =
      inside (not bot.websocket_client.active) (ap not a) (some bot)
        (gateway_event_loop later (on_closed json structs h id_of bot).0)
      ∙ loop_idle later (on_closed json structs h id_of bot).0
          (on_closed_ends json structs h id_of bot e).1
    where
      inside : (b : Bool) → b ≡ false → (p q : Option (Bot U h)) → (if b then p else q) ≡ q
      inside b e p q = rw e refl
