-- ===== src/Gateway/Fragments.antt =====
-- src/web/websocket.c: a message that arrives in fragments.
use mathlib.Core.Option
use mathlib.Core.List.{append_assoc, append-nil}
use disco_c.Prelude.{
  ℕ, ◌≡◌, refl, sym, ap, ◌∙◌, true, false, Option, none, some, List, [], ◌∷◌, ◌++◌,
}
use disco_c.Prelude.Int.{pos}
use disco_c.PrioQueue.{Timeval}
use disco_c.Json.{CJson}
use disco_c.Cache.Defs.{HashMap, Node}
use disco_c.Cache.Global.{DiscoCacheType}
use disco_c.Event.Bot.{Action, callback_on_writable, Bot}
use disco_c.Event.Dispatch.{Structs}
use disco_c.Gateway.Ops.{act, with_client}
use disco_c.Gateway.Receive.{client_receive, gateway_on_receive, on_fragment, websocket_callback}

-- The fragments put together.
unfoldable pub concat : List (List ℕ) → List ℕ
concat [] = []
concat (part ∷ parts) = part ++ concat parts

-- One request to be told of writability for each fragment.
unfoldable pub writable_each : List (List ℕ) → List Action → List Action
writable_each [] actions = actions
writable_each (part ∷ parts) actions = writable_each parts (callback_on_writable ∷ actions)

module _ {J D U : Type 0} (json : CJson J) (structs : Structs J D U) (h : HashMap (Node D))
    (id_of : DiscoCacheType → D → ℕ) (now : Timeval) where
  -- The fragments before the last one.
  unfoldable pub receive_parts : List (List ℕ) → Bot U h → Option (Bot U h)
  receive_parts [] bot = some bot
  receive_parts (part ∷ parts) bot =
      elim (websocket_callback json structs h id_of now (client_receive part false) bot) [
        | none ↦ none
        | some (bot', _) ↦ receive_parts parts bot'
      ]

  -- A message whose fragments have been received so far.
  abbrev pub collected : List ℕ → List (List ℕ) → Bot U h → Bot U h
  collected content parts bot = record bot {
    websocket_client = record (bot.websocket_client) { content = content };
    actions = writable_each parts bot.actions;
  }

  parts_collected :
      (parts : List (List ℕ)) (bot : Bot U h)
      → receive_parts parts bot
        ≡ some (collected (bot.websocket_client.content ++ concat parts) parts bot)
  unfolding receive_parts websocket_callback on_fragment act with_client concat writable_each
  parts_collected [] bot =
      ap
        (λ c.
          some (record bot { websocket_client = record (bot.websocket_client) { content = c } }))
        (sym (append-nil bot.websocket_client.content))
  parts_collected (part ∷ parts) bot =
      parts_collected parts _
      ∙ ap (λ c. some (collected c (part ∷ parts) bot))
          (append_assoc bot.websocket_client.content part (concat parts))

  -- However a message is cut into fragments: once the last one has arrived, the client has handled the
  -- whole message, once, on the state that it had before but for its requests to be told of writability,
  -- and starts the next message with nothing kept of this one.
  pub receive_whole :
      (parts : List (List ℕ)) (last : List ℕ) (bot : Bot U h)
      → bot.websocket_client.content ≡ []
      → elim (receive_parts parts bot) [
        | none ↦ none
        | some bot' ↦ websocket_callback json structs h id_of now (client_receive last true) bot'
      ]
        ≡ Option.map
            (λ b.
              (act callback_on_writable (with_client (λ c. record c { content = [] }) b), pos 0))
            (gateway_on_receive json structs h id_of now
              (concat parts ++ last)
              (collected (concat parts ++ last) parts bot))
  unfolding websocket_callback on_fragment act with_client
  receive_whole parts last bot e = rw (parts_collected parts bot, e) refl
