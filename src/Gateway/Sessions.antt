-- ===== src/Gateway/Sessions.antt =====
-- Logging in: what HELLO and INVALID SESSION do, and how often a heartbeat is sent.
use Prim.Native.String.{String}
use disco_c.Prelude.{
  ℕ, ◌≡◌, refl, ap, ◌∙◌, true, false, none, some, [], ◌∷◌, ◌++◌, arith, if◌then◌else◌,
}
use disco_c.Prelude.Int.{pos, negsuc, eqb_ℤ}
use disco_c.PrioQueue.{Timeval}
use disco_c.Json.{CJson}
use disco_c.Cache.Defs.{HashMap, Node}
use disco_c.Cache.Global.{DiscoCacheType}
use disco_c.Event.Bot.{heartbeat, resume, send, create_heartbeat_thread, WebsocketClient, Bot}
use disco_c.Event.Dispatch.{Structs}
use disco_c.Gateway.Ops.{
  act, with_client, stop_heartbeat, websocket_close, websocket_reconnect, gateway_send_heartbeat,
  login_frame, start_heartbeat, gateway_handle_identify,
}
use disco_c.Gateway.Receive.{adjust_interval, handle_opcode}

module _ {J D U : Type 0} (json : CJson J) (structs : Structs J D U) (h : HashMap (Node D))
    (id_of : DiscoCacheType → D → ℕ) where
  -- What HELLO leaves but for the interval, which nothing else depends on.
  adjust_keeps :
      (result : J) (bot : Bot U h)
      → ((adjust_interval json structs h id_of result bot).actions ≡ bot.actions)
        × ((adjust_interval json structs h id_of result bot).websocket_client
            ≡ bot.websocket_client)
  unfolding adjust_interval
  adjust_keeps result bot = ground arith

  identify_actions :
      (now : Timeval) (bot : Bot U h)
      → ((gateway_handle_identify now bot).actions
          ≡ (if bot.websocket_client.heartbeat_active then [] else create_heartbeat_thread ∷ [])
            ++ send (login_frame bot)
              ∷ send (heartbeat (if eqb_ℤ bot.seq (negsuc 0) then none else some bot.seq))
              ∷ bot.actions)
        × ((gateway_handle_identify now bot).websocket_client.heartbeat_active ≡ true)
  unfolding gateway_handle_identify gateway_send_heartbeat login_frame start_heartbeat act
      with_client
  identify_actions now bot = ground arith

  -- HELLO: the client sends a heartbeat with the number of the last event, and then asks for the session
  -- that it has kept, or for a new one if it has none; a heartbeat thread is started exactly if none runs,
  -- and one runs afterwards.
  pub hello_logs_in :
      (now : Timeval) (result : J) (bot : Bot U h)
      → (bot' : Bot U h) × (handle_opcode json structs h id_of now (pos 10) result bot ≡ some bot')
        × (bot'.actions
            ≡ (if bot.websocket_client.heartbeat_active then [] else create_heartbeat_thread ∷ [])
              ++ send (login_frame bot)
                ∷ send (heartbeat (if eqb_ℤ bot.seq (negsuc 0) then none else some bot.seq))
                ∷ bot.actions)
        × (bot'.websocket_client.heartbeat_active ≡ true)
  unfolding handle_opcode
  hello_logs_in now result bot =
      let identified = gateway_handle_identify now bot in
      let (a, c) = adjust_keeps result identified in
      let (a', t) = identify_actions now bot in
      (
        adjust_interval json structs h id_of result identified,
        refl,
        a ∙ a',
        ap (λ (x : WebsocketClient). x.heartbeat_active) c ∙ t,
      )

  close_keeps :
      (bot : Bot U h)
      → let c = (websocket_close bot).websocket_client in
        (c.heartbeat_active ≡ false)
        × (c.session_id ≡ bot.websocket_client.session_id)
        × (c.token ≡ bot.websocket_client.token)
        × ((websocket_close bot).seq ≡ bot.seq)
  unfolding websocket_close stop_heartbeat act with_client
  close_keeps bot = ground arith

  pub resume_frame :
      (bot : Bot U h) (id : String)
      → bot.websocket_client.session_id ≡ some id
      → login_frame bot ≡ resume bot.websocket_client.token id bot.seq
  unfolding login_frame
  resume_frame bot id e = rw (e, login_frame) refl

  -- INVALID SESSION, received by a client that has a session, resets the number of the last event
  -- and stops the heartbeat thread, but keeps the session: the next HELLO asks for the rejected
  -- session again, with the number -1.
  pub invalid_session_resumes :
      (now later : Timeval) (invalid hello : J) (bot : Bot U h) (id : String)
      → bot.websocket_client.session_id ≡ some id
      → (bot' bot'' : Bot U h) × (handle_opcode json structs h id_of now (pos 9) invalid bot
          ≡ some bot')
        × (handle_opcode json structs h id_of later (pos 10) hello bot' ≡ some bot'')
        × (bot''.actions
            ≡ create_heartbeat_thread
              ∷ send (resume bot.websocket_client.token id (negsuc 0))
              ∷ send (heartbeat none)
              ∷ bot'.actions)
  unfolding handle_opcode websocket_reconnect
  invalid_session_resumes now later invalid hello bot id e =
      let bot' = websocket_close (record bot { seq = negsuc 0 }) in
      let (bot'', p, a, _) = hello_logs_in later hello bot' in
      let (x, y, z, w) = close_keeps (record bot { seq = negsuc 0 }) in
      (bot', bot'', refl, p, a ∙ log bot' x (resume_frame bot' id (y ∙ e) ∙ cc (z, w)) w)
    where
      log :
          (b : Bot U h)
          → b.websocket_client.heartbeat_active ≡ false
          → login_frame b ≡ resume bot.websocket_client.token id (negsuc 0)
          → b.seq ≡ negsuc 0
          → (if b.websocket_client.heartbeat_active then [] else create_heartbeat_thread ∷ [])
              ++ send (login_frame b)
                ∷ send (heartbeat (if eqb_ℤ b.seq (negsuc 0) then none else some b.seq))
                ∷ b.actions
            ≡ create_heartbeat_thread
              ∷ send (resume bot.websocket_client.token id (negsuc 0))
              ∷ send (heartbeat none)
              ∷ b.actions
      log b x y w = rw (x, y, w) refl
