-- ===== src/Samples.antt =====
-- Inputs for the tests: a JSON event with its fields, a hash table that is a function, and a client.
pub mod Tree
use Prim.Native.String.{String}
use disco_c.Prelude.{ℕ, true, false, ◌&&◌, Option, none, some, [], ◌∷◌, arith, ◌==◌, if◌then◌else◌}
use disco_c.Prelude.Text.{same}
use disco_c.Prelude.Int.{pos}
use disco_c.PrioQueue.{Timeval}
use disco_c.Json.{CJson}
use disco_c.Cache.Defs.{HashMap, IsHashMap, Node, Cache}
use disco_c.Cache.Global.{DiscoCacheType, Caches}
use disco_c.Event.Bot.{Callbacks, Bot}
use disco_c.Event.Dispatch.{Structs}

-- Values by number: 0 is an event with the user 1, the session 2 and the ID 3; 5 is the result of a
-- limited request, whose field 6 is a number; 7 is an array of the events 0 and 0; 4 is a READY
-- message with the number 6, the type 8 and the event 0.
abbrev fields : ℕ → String → Option ℕ
fields n name =
    if (n == 0) && same name "user"
    then some 1
    else if (n == 0) && same name "session_id"
    then some 2
    else if (n == 0) && same name "id"
    then some 3
    else if (n == 5) && same name "retry_after"
    then some 6
    else if (n == 4) && same name "s"
    then some 6
    else if (n == 4) && same name "t"
    then some 8
    else if (n == 4) && same name "d"
    then some 0
    else none

abbrev pub json : CJson ℕ
json = record {
  parse = λ content. elim content [ [] ↦ none | c ∷ rest ↦ some c ];
  get_object_item = fields;
  get_object_item_case = fields;
  null_pointer = 99;
  is_null = λ n. false;
  is_number = λ n. n == 6;
  is_object = λ n. n == 0;
  is_bool = λ n. false;
  is_array = λ n. n == 7;
  valueint = λ n. pos 2;
  uint64 = λ n. 2;
  seconds = λ n. pos 2;
  micros = λ n. 2_000_000;
  valuestring = λ n.
      if n == 2
      then some "abc"
      else if n == 3
      then some "42"
      else if n == 8
      then some "READY"
      else none;
  elements = λ n. if n == 7 then 0 ∷ 0 ∷ [] else [];
  strtoull = λ s. if same s "42" then 42 else 0;
}

-- A structure is its ID.
abbrev pub structs : Structs ℕ ℕ ℕ
structs = record {
  json_to_user = λ n. n;
  json_to_message = λ n. 42;
  json_to_channel = λ n. 43;
  json_to_interaction = λ n. 44;
  copy_message = λ n. n;
  copy_channel = λ n. n;
}

abbrev pub id_of : DiscoCacheType → ℕ → ℕ
id_of type n = n

abbrev pub tables : HashMap (Node ℕ)
tables = record {
  Table = ℕ → Option (Node ℕ);
  get = λ t k. t k;
  put = λ t k v. ((λ j. if k == j then some v else t j), true);
  remove = λ t k j. if k == j then none else t j;
}

pub tables-IsHashMap : IsHashMap tables
tables-IsHashMap = record {
  get-put_self = λ t k v e. ground arith;
  get-put_ne = λ t k v j e d. ground arith;
  get-remove_self = λ t k. ground arith;
  get-remove_ne = λ t k j d. ground arith;
}

abbrev pub empty : Cache tables
empty = record {
  map = λ _. none;
  queue = [];
  size = 0;
  max_size = 2;
  next_addr = 0;
  destroyed = [];
}

abbrev pub caches : Caches tables
caches = record { messages = empty; channels = empty; guilds = empty }

abbrev pub listening : Callbacks
listening = record {
  has_ready = true;
  has_message = true;
  has_message_edit = true;
  has_message_delete = true;
  has_channel_create = true;
  has_channel_update = true;
  has_channel_delete = true;
  has_interaction_create = true;
}

abbrev pub deaf : Callbacks
deaf = record {
  has_ready = true;
  has_message = false;
  has_message_edit = false;
  has_message_delete = false;
  has_channel_create = false;
  has_channel_update = false;
  has_channel_delete = false;
  has_interaction_create = false;
}

abbrev pub midnight : Timeval
midnight = record { tv_sec = pos 0; tv_usec = pos 0 }

abbrev pub bot : Bot ℕ tables
bot = record {
  websocket_client = record {
    content = [];
    connected = true;
    success_login = true;
    active = true;
    heartbeat_active = true;
    exit = false;
    token = "token";
    session_id = some "abc";
  };
  callbacks = some listening;
  user = none;
  heartbeat_latency = pos 0;
  seq = pos 7;
  heartbeat_interval = 25;
  last_heartbeat = midnight;
  caches = caches;
  actions = [];
  calls = [];
  destroyed_users = [];
}
