-- ===== src/Event/Bot.antt =====
-- include/discord/disco.h and include/web/websocket.h: the state of the client. The global variables of
-- src/web/gateway.c are in it too.
use Prim.Native.String.{String}
use disco_c.Prelude.{ℕ, Bool, Option, List}
use disco_c.Prelude.Int.{ℤ}
use disco_c.PrioQueue.{Timeval}
use disco_c.Cache.Defs.{HashMap, Node}
use disco_c.Cache.Global.{Caches}

-- What `websocket_send` is given: the three formats of `gateway.c`.
pub data Frame : Type 0 where
  heartbeat : Option ℤ → Frame
  identify : String → Frame
  resume : String → String → ℤ → Frame

-- The calls of libwebsockets, of pthread and of `exit`.
pub data Action : Type 0 where
  send : Frame → Action
  create_heartbeat_thread : Action
  join_heartbeat_thread : Action
  set_timeout : Action
  cancel_service : Action
  callback_on_writable : Action
  client_connect : Action
  context_destroy : Action
  exit_program : Action

-- `struct websocket_client`; `content` is the first `size` bytes of the memory.
pub record WebsocketClient : Type 0 where
  pub content : List ℕ
  pub connected : Bool
  pub success_login : Bool
  pub active : Bool
  pub heartbeat_active : Bool
  pub exit : Bool
  pub token : String
  pub session_id : Option String

-- Calls of the user's functions. A structure that may be NULL is an Option; a channel's type is its
-- number.
pub data Call (D : Type 0) : Type 0 where
  on_ready : Call D
  on_message : D → Call D
  on_message_edit : Option D → D → Call D
  on_message_delete : ℕ → ℕ → ℕ → Option D → Call D
  on_channel_create : D → Call D
  on_channel_update : Option D → D → Call D
  on_channel_delete : ℕ → ℕ → ℕ → ℤ → Option D → Call D
  on_interaction_create : D → Call D

-- `struct discord_event_callbacks`: which functions are given.
pub record Callbacks : Type 0 where
  pub has_ready : Bool
  pub has_message : Bool
  pub has_message_edit : Bool
  pub has_message_delete : Bool
  pub has_channel_create : Bool
  pub has_channel_update : Bool
  pub has_channel_delete : Bool
  pub has_interaction_create : Bool

-- `struct bot_client` with the caches and `gateway.c`'s `seq`, `HEARTBEAT_INTERVAL` and
-- `last_hearbeat`. `actions` and `calls` are what has been done, newest first, and
-- `destroyed_users` the users that were freed.
pub record Bot {D : Type 0} (U : Type 0) (h : HashMap (Node D)) : Type 0 where
  pub websocket_client : WebsocketClient
  pub callbacks : Option Callbacks
  pub user : Option U
  pub heartbeat_latency : ℤ
  pub seq : ℤ
  pub heartbeat_interval : ℕ
  pub last_heartbeat : Timeval
  pub caches : Caches h
  pub actions : List Action
  pub calls : List (Call D)
  pub destroyed_users : List U
