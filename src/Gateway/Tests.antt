-- ===== src/Gateway/Tests.antt =====
-- The theorems about the connection at a concrete client.
use mathlib.Core.Option
use disco_c.Prelude.{ℕ, ◌≡◌, refl, true, false, none, some, [], ◌∷◌, arith}
use disco_c.Prelude.Int.{pos, negsuc}
use disco_c.Event.Bot.{
  client_connect, heartbeat, resume, send, create_heartbeat_thread, callback_on_writable, Bot,
}
use disco_c.Json.{strndup}
use disco_c.Gateway.Ops.{act, with_client, gateway_heartbeat_loop}
use disco_c.Gateway.Receive.{
  client_receive, gateway_on_receive, handle_opcode, on_closed, websocket_callback,
}
use disco_c.Gateway.Sessions.{invalid_session_resumes}
use disco_c.Gateway.Resuming.{IsReadyMessage, ready_session_resumes}
use disco_c.Gateway.Fragments.{concat, receive_parts, collected, receive_whole}
use disco_c.Gateway.Closing.{Beats, gateway_heartbeat_loop-Beats}
use disco_c.Samples.{json, structs, id_of, tables, midnight, bot, listening}

invalid_session_resumes_example :
    (bot' : Bot ℕ tables) × (bot'' : Bot ℕ tables) × (handle_opcode json structs tables id_of
        midnight
        (pos 9)
        0
        bot
      ≡ some bot')
    × (handle_opcode json structs tables id_of midnight (pos 10) 0 bot' ≡ some bot'')
    × (bot''.actions
        ≡ create_heartbeat_thread
          ∷ send (resume "token" "abc" (negsuc 0))
          ∷ send (heartbeat none)
          ∷ bot'.actions)
invalid_session_resumes_example =
    invalid_session_resumes json structs tables id_of midnight midnight 0 0 bot "abc" refl

a_ready-IsReadyMessage : IsReadyMessage json 4 (pos 2) "abc"
a_ready-IsReadyMessage = record {
  number = 6;
  type = 8;
  object = 0;
  field = 2;
  numbered = refl;
  numeric = refl;
  counted = refl;
  typed = refl;
  named = refl;
  carried = refl;
  given = refl;
  read = refl;
}

ready_session_resumes_example :
    (b : Bot ℕ tables) × (b' : Bot ℕ tables) × (b'' : Bot ℕ tables) × (handle_opcode json structs
        tables id_of midnight
        (pos 0)
        4
        bot
      ≡ some b)
    × (on_closed json structs tables id_of b ≡ (b', pos 0))
    × (handle_opcode json structs tables id_of midnight (pos 10) 0 b' ≡ some b'')
    × (b''.actions
        ≡ send (resume "token" (strndup 100 "abc") (pos 2))
          ∷ send (heartbeat (some (pos 2)))
          ∷ client_connect
          ∷ [])
ready_session_resumes_example =
    ready_session_resumes json structs tables id_of midnight midnight 4 0 (pos 2) "abc" listening
      bot a_ready-IsReadyMessage refl refl

receive_whole_example :
    elim (receive_parts json structs tables id_of midnight ((1 ∷ []) ∷ (2 ∷ []) ∷ []) bot) [
      | none ↦ none
      | some bot' ↦
          websocket_callback json structs tables id_of midnight (client_receive (3 ∷ []) true) bot'
    ]
    ≡ Option.map
        (λ b. (act callback_on_writable (with_client (λ c. record c { content = [] }) b), pos 0))
        (gateway_on_receive json structs tables id_of midnight (1 ∷ 2 ∷ 3 ∷ []) (
          collected json structs tables id_of midnight
            (1 ∷ 2 ∷ 3 ∷ [])
            ((1 ∷ []) ∷ (2 ∷ []) ∷ [])
            bot))
unfolding concat
receive_whole_example =
    receive_whole json structs tables id_of midnight ((1 ∷ []) ∷ (2 ∷ []) ∷ []) (3 ∷ []) bot refl

-- The login failed.
abbrev refused : Bot ℕ tables
refused = record bot { websocket_client = record (bot.websocket_client) { success_login = false } }

-- The interval is 25 ms: every third round sends.
gateway_heartbeat_loop-Beats_example :
    let r = gateway_heartbeat_loop (midnight ∷ midnight ∷ midnight ∷ midnight ∷ []) (0, bot) in
    Beats tables 3 4 bot r.1 0 r.0
gateway_heartbeat_loop-Beats_example =
    gateway_heartbeat_loop-Beats tables 3 (midnight ∷ midnight ∷ midnight ∷ midnight ∷ []) 0 bot
      refl refl (omega arith) (omega arith) (omega arith)
