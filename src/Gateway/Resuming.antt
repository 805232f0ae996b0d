-- ===== src/Gateway/Resuming.antt =====
-- A session from READY to the HELLO of the next connection.
use Prim.Native.String.{String}
use mathlib.Core.Option
use disco_c.Prelude.{
  ℕ, ◌≡◌, refl, ap, ◌∙◌, inl, inr, Bool, true, false, not, ◌&&◌, none, some, List, [], ◌∷◌, ◌++◌,
  if◌then◌else◌, Option-cases,
}
use disco_c.Prelude.Int.{ℤ, pos, negsuc, eqb_ℤ}
use disco_c.PrioQueue.{Timeval}
use disco_c.Json.{CJson, strndup}
use disco_c.Cache.Defs.{HashMap, Node}
use disco_c.Cache.Global.{DiscoCacheType}
use disco_c.Event.Bot.{
  Action, heartbeat, resume, send, client_connect, create_heartbeat_thread, on_ready, Callbacks,
  WebsocketClient, Bot,
}
use disco_c.Event.Dispatch.{
  Structs, calling, set_user, set_session, handle_ready, handle_event, event_handle,
}
use disco_c.Gateway.Ops.{act, with_client, websocket_connect, login_frame}
use disco_c.Gateway.Receive.{take_seq, or_null, gateway_handle_dispatch, handle_opcode, on_closed}
use disco_c.Gateway.Sessions.{hello_logs_in, resume_frame}

-- A READY message with its number and its session.
pub record IsReadyMessage {J : Type 0} (json : CJson J) (result : J) (n : ℤ) (session : String)
    : Type 0 where
  pub number : J
  pub type : J
  pub object : J
  pub field : J
  pub numbered : json.get_object_item_case result "s" ≡ some number
  pub numeric : json.is_number number ≡ true
  pub counted : json.valueint number ≡ n
  pub typed : json.get_object_item_case result "t" ≡ some type
  pub named : json.valuestring type ≡ some "READY"
  pub carried : json.get_object_item_case result "d" ≡ some object
  pub given : json.get_object_item object "session_id" ≡ some field
  pub read : json.valuestring field ≡ some session

module _ {J D U : Type 0} (json : CJson J) (structs : Structs J D U) (h : HashMap (Node D))
    (id_of : DiscoCacheType → D → ℕ) where
  -- What two states of the client have in common.
  record Agree (bot : Bot U h) (client : WebsocketClient) (seq : ℤ) (actions : List Action)
      : Type 0 where
    pub same_client : bot.websocket_client ≡ client
    pub same_seq : bot.seq ≡ seq
    pub same_actions : bot.actions ≡ actions

  set_user-Agree :
      (object : J) (bot : Bot U h)
      → Agree (set_user json structs h id_of object bot) bot.websocket_client bot.seq bot.actions
  unfolding set_user
  set_user-Agree object bot = elim (Option-cases (json.get_object_item object "user")) [
    | inl e ↦ rw (e, set_user) (record { same_client = refl; same_seq = refl; same_actions = refl })
    | inr (u, e) ↦
        rw (e, set_user) (record { same_client = refl; same_seq = refl; same_actions = refl })
  ]

  calling-Agree :
      (b : Bool) (bot : Bot U h)
      → Agree
          (if b then calling json structs h id_of on_ready bot else bot)
          bot.websocket_client
          bot.seq
          bot.actions
  unfolding calling
  calling-Agree true bot = record { same_client = refl; same_seq = refl; same_actions = refl }
  calling-Agree false bot = record { same_client = refl; same_seq = refl; same_actions = refl }

  session_set :
      (object field : J) (session : String) (bot : Bot U h)
      → json.get_object_item object "session_id" ≡ some field
      → json.valuestring field ≡ some session
      → set_session json structs h id_of object bot
        ≡ some (record bot {
          websocket_client = record (bot.websocket_client) {
            session_id = some (strndup 100 session);
          };
        })
  unfolding set_session
  session_set object field session bot s v = rw (s, v, set_session) refl

  ready_given :
      (object : J) (given : Callbacks) (bot : Bot U h)
      → bot.callbacks ≡ some given
      → event_handle json structs h id_of object "READY" bot
        ≡ handle_ready json structs h id_of object given bot
  unfolding event_handle handle_event
  ready_given object given bot g = rw g refl

  -- READY keeps the session.
  ready_event :
      (object field : J) (session : String) (given : Callbacks) (bot : Bot U h)
      → bot.callbacks ≡ some given
      → json.get_object_item object "session_id" ≡ some field
      → json.valuestring field ≡ some session
      → (bot' : Bot U h) × (event_handle json structs h id_of object "READY" bot ≡ some bot')
        × Agree bot'
            (record (bot.websocket_client) { session_id = some (strndup 100 session) })
            bot.seq
            bot.actions
  unfolding handle_ready
  ready_event object field session given bot g s v =
      let with_user = set_user json structs h id_of object bot in
      let u = set_user-Agree object bot in
      let with_session : Bot U h = record with_user {
        websocket_client = record (with_user.websocket_client) {
          session_id = some (strndup 100 session);
        };
      } in
      let c = calling-Agree given.has_ready with_session in
      (
        if given.has_ready
            then calling json structs h id_of on_ready with_session
            else with_session,
        ready_given object given bot g
            ∙ ap
                (Option.map
                  (λ b. if given.has_ready then calling json structs h id_of on_ready b else b))
                (session_set object field session with_user s v),
        record {
          same_client =
              c.same_client
              ∙ ap (λ (x : WebsocketClient). record x { session_id = some (strndup 100 session) })
                  u.same_client;
          same_seq = c.same_seq ∙ u.same_seq;
          same_actions = c.same_actions ∙ u.same_actions;
        },
      )

  counted_up :
      (result number : J) (n : ℤ) (bot : Bot U h)
      → json.get_object_item_case result "s" ≡ some number
      → json.is_number number ≡ true
      → json.valueint number ≡ n
      → take_seq json structs h id_of result bot ≡ record bot { seq = n }
  unfolding take_seq
  counted_up result number n bot s i v = rw (s, i, v, take_seq) refl

  dispatched_event :
      (result type object : J) (event : String) (bot : Bot U h)
      → json.get_object_item_case result "d" ≡ some object
      → json.get_object_item_case result "t" ≡ some type
      → json.valuestring type ≡ some event
      → gateway_handle_dispatch json structs h id_of result bot
        ≡ event_handle json structs h id_of object event (take_seq json structs h id_of result bot)
  unfolding gateway_handle_dispatch or_null
  dispatched_event result type object event bot d t v =
      let o : or_null json structs h id_of (json.get_object_item_case result "d") ≡ object =
        ap (or_null json structs h id_of) d in
      rw (t, v, gateway_handle_dispatch)
        (ap
          (λ x.
            event_handle json structs h id_of x event (take_seq json structs h id_of result bot))
          o)

  dispatched :
      (result : J) (n : ℤ) (session : String) (bot : Bot U h)
      (r : IsReadyMessage json result n session)
      → gateway_handle_dispatch json structs h id_of result bot
        ≡ event_handle json structs h id_of r.object "READY" (record bot { seq = n })
  dispatched result n session bot r =
      dispatched_event result r.type r.object "READY" bot r.carried r.typed r.named
      ∙ ap (event_handle json structs h id_of r.object "READY")
          (counted_up result r.number n bot r.numbered r.numeric r.counted)

  connected_again :
      (bot : Bot U h)
      → bot.websocket_client.success_login ≡ true
      → bot.websocket_client.exit ≡ false
      → on_closed json structs h id_of bot ≡ (
        record bot {
          websocket_client = record (bot.websocket_client) { content = []; active = true };
          actions = client_connect ∷ bot.actions;
        },
        pos 0,
      )
  unfolding on_closed websocket_connect act with_client
  connected_again bot s e =
      chosen bot.websocket_client.success_login bot.websocket_client.exit s e _ _
    where
      chosen :
          (x y : Bool)
          → x ≡ true
          → y ≡ false
          → (p q : Bot U h × ℤ) → (if not (not x) && not y then p else q) ≡ p
      chosen x y s e p q = rw (s, e) refl

  -- What HELLO sends to a client whose session, token and number are known.
  resumed :
      (bot : Bot U h) (id token : String) (n : ℤ) (beating : Bool) (actions : List Action)
      → bot.websocket_client.session_id ≡ some id
      → bot.websocket_client.token ≡ token
      → bot.websocket_client.heartbeat_active ≡ beating
      → Agree bot bot.websocket_client n actions
      → (if bot.websocket_client.heartbeat_active then [] else create_heartbeat_thread ∷ [])
          ++ send (login_frame bot)
            ∷ send (heartbeat (if eqb_ℤ bot.seq (negsuc 0) then none else some bot.seq))
            ∷ bot.actions
        ≡ (if beating then [] else create_heartbeat_thread ∷ [])
          ++ send (resume token id n)
            ∷ send (heartbeat (if eqb_ℤ n (negsuc 0) then none else some n))
            ∷ actions
  resumed bot id token n beating actions s t b g =
      rw (resume_frame json structs h id_of bot id s, t, b, g.same_seq, g.same_actions) refl

  -- A client with functions of the user that is not asked to exit receives READY with a number and a
  -- session, then its connection is closed, then it receives HELLO on the next one: it connects again
  -- and does not leave its event loop, and HELLO makes it send a heartbeat with that number, or without
  -- one if it is -1, and ask for the session, cut to 100 characters, from that number on; a heartbeat
  -- thread is started exactly if none ran before READY.
  pub ready_session_resumes :
      (now later : Timeval) (ready hello : J) (n : ℤ) (session : String) (given : Callbacks)
      (bot : Bot U h)
      → IsReadyMessage json ready n session
      → bot.callbacks ≡ some given
      → bot.websocket_client.exit ≡ false
      → (b b' b'' : Bot U h) × (handle_opcode json structs h id_of now (pos 0) ready bot ≡ some b)
        × (on_closed json structs h id_of b ≡ (b', pos 0))
        × (handle_opcode json structs h id_of later (pos 10) hello b' ≡ some b'')
        × (b''.actions
            ≡ (if bot.websocket_client.heartbeat_active then [] else create_heartbeat_thread ∷ [])
              ++ send (resume bot.websocket_client.token (strndup 100 session) n)
                ∷ send (heartbeat (if eqb_ℤ n (negsuc 0) then none else some n))
                ∷ client_connect
                ∷ bot.actions)
  unfolding handle_opcode with_client
  ready_session_resumes now later ready hello n session given bot r g x =
      let logged_in = with_client (λ c. record c { success_login = true }) bot in
      let (b, e, agree) =
        ready_event r.object r.field session given (record logged_in { seq = n }) g r.given
          r.read in
      let c = agree.same_client in
      let closed =
        connected_again b (ap (λ (k : WebsocketClient). k.success_login) c)
          (ap (λ (k : WebsocketClient). k.exit) c ∙ x) in
      let b' : Bot U h = record b {
        websocket_client = record (b.websocket_client) { content = []; active = true };
        actions = client_connect ∷ b.actions;
      } in
      let (b'', p, a, _) = hello_logs_in json structs h id_of later hello b' in
      (
        b,
        b',
        b'',
        dispatched ready n session logged_in r ∙ e,
        closed,
        p,
        a
            ∙ resumed b' (strndup 100 session) bot.websocket_client.token n
                bot.websocket_client.heartbeat_active (client_connect ∷ bot.actions)
                (ap (λ (k : WebsocketClient). k.session_id) c)
                (ap (λ (k : WebsocketClient). k.token) c)
                (ap (λ (k : WebsocketClient). k.heartbeat_active) c)
                (record {
                  same_client = refl;
                  same_seq = agree.same_seq;
                  same_actions = ap (◌∷◌ client_connect) agree.same_actions;
                }),
      )
