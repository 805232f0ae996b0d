-- ===== src/Gateway/Ops.antt =====
-- src/web/websocket.c: connecting, closing and sending.
use disco_c.Prelude.{
  ℕ, ◌+◌, ◌*◌, Bool, true, false, not, ◌&&◌, none, some, List, [], ◌∷◌, leb, if◌then◌else◌,
}
use disco_c.Prelude.Int.{negsuc, eqb_ℤ}
use disco_c.PrioQueue.{Timeval}
use disco_c.Cache.Defs.{HashMap, Node}
use disco_c.Event.Bot.{
  Frame, heartbeat, identify, resume, Action, send, create_heartbeat_thread, join_heartbeat_thread,
  set_timeout, cancel_service, client_connect, context_destroy, WebsocketClient, Bot,
}

-- For a context that `lws_create_context` made: the client, and the 0 that is returned.
unfoldable pub websocket_create : Bool → WebsocketClient → WebsocketClient × ℕ
websocket_create created client = if not created then (client, 1) else (
  record client {
    connected = false;
    active = true;
    heartbeat_active = false;
    success_login = false;
    exit = false;
    session_id = none;
  },
  0,
)

module _ {D U : Type 0} {h : HashMap (Node D)} where
  unfoldable pub act : Action → Bot U h → Bot U h
  act a bot = record bot { actions = a ∷ bot.actions }

  unfoldable pub with_client : (WebsocketClient → WebsocketClient) → Bot U h → Bot U h
  with_client f bot = record bot { websocket_client = f bot.websocket_client }

  -- What was received of a message on the connection before is dropped.
  unfoldable pub websocket_connect : Bot U h → Bot U h
  unfolding act with_client
  websocket_connect bot =
      with_client (λ c. record c { content = []; active = true }) (act client_connect bot)

  unfoldable pub stop_heartbeat : Bot U h → Bot U h
  unfolding act with_client
  stop_heartbeat bot =
      if bot.websocket_client.heartbeat_active
      then act join_heartbeat_thread (with_client (λ c. record c { heartbeat_active = false }) bot)
      else bot

  unfoldable pub websocket_close : Bot U h → Bot U h
  unfolding act stop_heartbeat
  websocket_close bot = act cancel_service (act set_timeout (stop_heartbeat bot))

  unfoldable pub websocket_reconnect : Bot U h → Bot U h
  unfolding websocket_close
  websocket_reconnect bot = websocket_close bot

  unfoldable pub websocket_exit : Bot U h → Bot U h
  unfolding websocket_close with_client
  websocket_exit bot = websocket_close (with_client (λ c. record c { exit = true }) bot)

  -- `heartbeat_active` is cleared before it is tested: the thread is never joined here.
  unfoldable pub websocket_destroy_client : Bot U h → Bot U h
  unfolding act with_client
  websocket_destroy_client bot =
      with_client
        (λ c. record c {
          active = false;
          heartbeat_active = false;
          content = [];
          session_id = none;
        })
        (act context_destroy (if bot.websocket_client.connected then act set_timeout bot else bot))

  -- `src/web/gateway.c`. `now` is what `gettimeofday` gives.
  unfoldable pub gateway_send_heartbeat : Timeval → Bot U h → Bot U h
  unfolding act
  gateway_send_heartbeat now bot =
      record (act (send (heartbeat (if eqb_ℤ bot.seq (negsuc 0) then none else some bot.seq)))
        bot) { last_heartbeat = now }

  -- The frame that asks for the old session, or for a new one if there is none.
  unfoldable pub login_frame : Bot U h → Frame
  login_frame bot = elim bot.websocket_client.session_id [
    | none ↦ identify bot.websocket_client.token
    | some id ↦ resume bot.websocket_client.token id bot.seq
  ]

  unfoldable pub start_heartbeat : Bot U h → Bot U h
  unfolding act with_client
  start_heartbeat bot =
      if not bot.websocket_client.heartbeat_active
      then act create_heartbeat_thread (with_client (λ c. record c { heartbeat_active = true }) bot)
      else bot

  unfoldable pub gateway_handle_identify : Timeval → Bot U h → Bot U h
  unfolding gateway_send_heartbeat login_frame start_heartbeat act
  gateway_handle_identify now bot =
      let bot' = gateway_send_heartbeat now bot in
      start_heartbeat (act (send (login_frame bot')) bot')

  -- One round of `gateway_heartbeat_loop`, which then sleeps for 10 ms: the counter and the state.
  unfoldable pub heartbeat_round : Timeval → ℕ × Bot U h → ℕ × Bot U h
  unfolding gateway_send_heartbeat
  heartbeat_round now (t, bot) =
      if leb bot.heartbeat_interval ((t + 1) * 10)
      then (0, gateway_send_heartbeat now bot)
      else (t + 1, bot)

  -- The loop over the times at which its rounds run, while the client is in use.
  unfoldable pub gateway_heartbeat_loop : List Timeval → ℕ × Bot U h → ℕ × Bot U h
  unfolding heartbeat_round
  gateway_heartbeat_loop [] s = s
  gateway_heartbeat_loop (now ∷ later) s =
      let after = gateway_heartbeat_loop later (heartbeat_round now s) in
      if s.1.websocket_client.active && s.1.websocket_client.heartbeat_active then after else s
