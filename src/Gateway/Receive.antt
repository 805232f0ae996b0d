-- ===== src/Gateway/Receive.antt =====
-- src/web/gateway.c: what the client does with a message, and src/web/websocket.c: with a callback of
-- libwebsockets.
use mathlib.Core.Option
use disco_c.Prelude.{
  ℕ, ◌+◌, ◌-◌, ◌/◌, ◌%◌, ◌^◌, Bool, true, false, not, ◌&&◌, Option, none, some, List, [], ◌++◌,
  if◌then◌else◌,
}
use disco_c.Prelude.Int.{ℤ, pos, negsuc, eqb_ℤ, pos_part, neg_part, ◌+ℤ◌, ◌-ℤ◌, ◌*ℤ◌}
use disco_c.PrioQueue.{Timeval}
use disco_c.Json.{CJson, holds}
use disco_c.Cache.Defs.{HashMap, Node}
use disco_c.Cache.Global.{DiscoCacheType}
use disco_c.Event.Bot.{callback_on_writable, exit_program, Bot}
use disco_c.Event.Dispatch.{Structs, event_handle}
use disco_c.Gateway.Ops.{
  act, with_client, websocket_connect, websocket_close, websocket_reconnect, gateway_send_heartbeat,
  gateway_handle_identify,
}

-- `enum lws_callback_reasons`, as far as it is told apart; a received fragment has its bytes and whether
-- it is the last one of its message.
pub data Reason : Type 0 where
  connection_error : Reason
  client_established : Reason
  client_closed : Reason
  client_receive : List ℕ → Bool → Reason
  other_reason : Reason

-- The conversion to `unsigned int`.
unfoldable pub to_unsigned : ℤ → ℕ
to_unsigned n = (pos_part n + (2 ^ 32 - neg_part n % 2 ^ 32)) % 2 ^ 32

-- The division of C, which cuts towards 0.
unfoldable pub div_1000 : ℤ → ℤ
unfolding ◌-ℤ◌
div_1000 n = pos (pos_part n / 1000) -ℤ pos (neg_part n / 1000)

unfoldable pub latency : Timeval → Timeval → ℤ
unfolding div_1000 ◌+ℤ◌ ◌-ℤ◌ ◌*ℤ◌
latency received sent =
    ((received.tv_sec -ℤ sent.tv_sec) *ℤ pos 1000) +ℤ div_1000 (received.tv_usec -ℤ sent.tv_usec)

module _ {J D U : Type 0} (json : CJson J) (structs : Structs J D U) (h : HashMap (Node D))
    (id_of : DiscoCacheType → D → ℕ) where
  -- The number of the message becomes the last one received; null resets it.
  unfoldable pub take_seq : J → Bot U h → Bot U h
  unfolding holds
  take_seq result bot = elim (json.get_object_item_case result "s") [
    | none ↦ bot
    | some s ↦
        if json.is_number s
        then record bot { seq = json.valueint s }
        else (if json.is_null s then record bot { seq = negsuc 0 } else bot)
  ]

  -- The pointer that a lookup gives.
  unfoldable pub or_null : Option J → J
  or_null none = json.null_pointer
  or_null (some object) = object

  -- `none` is a read through the NULL of a missing event type, or a type that is no text.
  unfoldable pub gateway_handle_dispatch : J → Bot U h → Option (Bot U h)
  unfolding take_seq event_handle or_null
  gateway_handle_dispatch result bot =
      let object = or_null (json.get_object_item_case result "d") in
      elim (json.get_object_item_case result "t") [
        | none ↦ none
        | some t ↦ elim (json.valuestring t) [
          | none ↦ none
          | some event ↦ event_handle json structs h id_of object event (take_seq result bot)
        ]
      ]

  unfoldable pub adjust_interval : J → Bot U h → Bot U h
  unfolding to_unsigned
  adjust_interval result bot = elim (json.get_object_item_case result "d") [
    | none ↦ bot
    | some d ↦
        if not (json.is_object d)
        then bot
        else (elim (json.get_object_item_case d "heartbeat_interval") [
          | none ↦ bot
          | some interval ↦
              if json.is_number interval
              then record bot { heartbeat_interval = to_unsigned (json.valueint interval) }
              else bot
        ])
  ]

  -- The `switch` over the opcode.
  unfoldable pub handle_opcode : Timeval → ℤ → J → Bot U h → Option (Bot U h)
  unfolding gateway_handle_dispatch adjust_interval websocket_reconnect gateway_handle_identify
      gateway_send_heartbeat latency with_client
  handle_opcode now op result bot =
      if eqb_ℤ op (pos 0)
      then gateway_handle_dispatch result (with_client (λ c. record c { success_login = true }) bot)
      else if eqb_ℤ op (pos 9)
      then some (websocket_reconnect (record bot { seq = negsuc 0 }))
      else if eqb_ℤ op (pos 10)
      then some (adjust_interval result (gateway_handle_identify now bot))
      else if eqb_ℤ op (pos 1)
      then some (gateway_send_heartbeat now bot)
      else if eqb_ℤ op (pos 11)
      then some (record bot { heartbeat_latency = latency now bot.last_heartbeat })
      else some bot

  -- What is no JSON, or has no opcode, is passed over.
  unfoldable pub gateway_on_receive : Timeval → List ℕ → Bot U h → Option (Bot U h)
  unfolding handle_opcode
  gateway_on_receive now content bot = elim (json.parse content) [
    | none ↦ some bot
    | some result ↦ elim (json.get_object_item_case result "op") [
      | none ↦ some bot
      | some op ↦
          if json.is_number op then handle_opcode now (json.valueint op) result bot else some bot
    ]
  ]

  -- A connection that was closed is taken up again, unless the login never succeeded or the client is to
  -- end.
  unfoldable pub on_closed : Bot U h → Bot U h × ℤ
  unfolding websocket_connect websocket_close with_client
  on_closed bot =
      let refused = not bot.websocket_client.success_login in
      let bot' = if refused then with_client (λ c. record c { exit = true }) bot else bot in
      if not refused && not bot.websocket_client.exit then (websocket_connect bot, pos 0) else (
        with_client (λ c. record c { connected = false; success_login = false })
            (websocket_close (with_client (λ c. record c { active = false }) bot')),
        negsuc 0,
      )

  -- The bytes are put behind those of the message's earlier fragments; the last fragment completes it.
  unfoldable pub on_fragment : Timeval → List ℕ → Bool → Bot U h → Option (Bot U h × ℤ)
  unfolding gateway_on_receive act with_client
  on_fragment now bytes final bot =
      let whole = bot.websocket_client.content ++ bytes in
      let kept = with_client (λ c. record c { content = whole }) bot in
      if final
      then Option.map
          (λ b. (act callback_on_writable (with_client (λ c. record c { content = [] }) b), pos 0))
          (gateway_on_receive now whole kept)
      else some (act callback_on_writable kept, pos 0)

  -- The new state and the value returned.
  unfoldable pub websocket_callback : Timeval → Reason → Bot U h → Option (Bot U h × ℤ)
  unfolding on_closed on_fragment act with_client websocket_close
  websocket_callback now connection_error bot = some (
    act exit_program
        (websocket_close (with_client (λ c. record c { connected = false; active = false }) bot)),
    negsuc 0,
  )
  websocket_callback now client_established bot =
      some (act callback_on_writable (with_client (λ c. record c { connected = true }) bot), pos 0)
  websocket_callback now client_closed bot = some (on_closed bot)
  websocket_callback now (client_receive bytes final) bot = on_fragment now bytes final bot
  websocket_callback now other_reason bot = some (bot, pos 0)
