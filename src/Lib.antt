-- ===== src/Lib.antt =====
-- Disco-C, a client library for Discord: models of its core in C, and proofs about them.
--
-- The parts and how they interact. `discord_start_bot` (src/discord/disco.c) starts a thread pool, three
-- caches and a websocket connection, and then serves the callbacks of libwebsockets. The connection
-- (src/web/websocket.c) puts the fragments of a message together and gives it to the gateway protocol
-- (src/web/gateway.c), which logs in, keeps the heartbeat and gives events to `event_handle`
-- (src/discord/event.c); this caches the structures and calls the user's functions. Requests
-- (src/web/request.c) are work of the thread pool (src/utils/t_pool.c), whose work waits in a queue
-- ordered by time (src/utils/prio_queue.c).
--
-- The files:
-- - Prelude: shared names, list and Boolean lemmas, integers by their two parts, texts.
-- - PrioQueue: src/utils/prio_queue.c. The linked list is the list of its nodes; `prio_push`, `prio_pop` and
--   `prio_destroy_queue` have their names.
-- - TPool: src/utils/t_pool.c. `thread_round` is one pass of `thread_work_loop` under the lock; System has the
--   interleavings of the threads as a step relation, Accounting where the work is, Workers the invariant over it.
-- - Cache: src/utils/cache.c. Defs has one cache, with the table of hashmap.h as a parameter; Global has the
--   three caches. Spec is the least-recently-used cache that History compares it with; Stale is about
--   structures that are stored twice.
-- - EnvParse: src/utils/env_parse.c. `scan_file` is the loop of `d_getenv` over the bytes of the file.
-- - Json: the readers of fields of src/discord/disco.c, over the operations of cJSON that are used; Build has the
--   values that are built.
-- - Event: src/discord/event.c; Bot has the state of the client (include/discord/disco.h,
--   include/web/websocket.h and the static variables of src/web/gateway.c).
-- - Gateway: src/web/websocket.c and src/web/gateway.c. Ops connects, closes and sends, Receive has the
--   callback and the opcodes, Sessions and Resuming follow a session from one connection to the next.
-- - Request: src/web/request.c.
-- - Structures: src/discord/user.c, src/discord/attachment.c, src/discord/embed.c, src/discord/component.c and
--   src/discord/channel.c; Copies compares a copy with its original, and Destroy, Blocks and Sharing are about memory.
-- - Outgoing: src/discord/message.c, the part that sends: Buffer has the buffers that texts and IDs are printed into,
--   Embeds, Mentions and Content make the JSON, Message makes the requests, Lookup looks into the cache first, and
--   RoundTrip reads back what was written.
-- - Commands: src/discord/command.c. Order has the two loops that put the required options first, Options the JSON,
--   Written what comes of it, and Register the requests.
-- - Interactions: src/discord/interaction.c: Options has what the user entered, Reply the replies.
-- - Samples: inputs for the tests, which stand in the module Tests of each part.
--
-- Numbers. Sizes, IDs and counters are natural numbers; `int`, `long` and times are integers without a bound,
-- and the conversion to `unsigned int` of the heartbeat interval is written out.
-- Fuel. Loops are structural: over the list of nodes, the bytes of the file, the number of entries to evict, the
-- times at which the rounds of the heartbeat thread run, or the calls of `lws_service` that there are. Three
-- conversions from JSON call themselves on a part of the value and have fuel: `_d_json_to_embed` for a footer, where 2
-- is enough for an embed that the program wrote, since a footer has no footer; `_d_json_to_component` for the
-- components of a row and `_d_json_to_interaction_data_option` for the options of an option, where more than the depth
-- of the value is enough. They are `none` when the fuel runs out.
-- Faults. A read through NULL is `none`, and so is a write past the end of a buffer or an array; a run of a request has
-- the outcomes `unread` and `through_null` for its two faults. Reads of freed memory are no steps of the thread pool.
--
-- Parameters: cJSON (`CJson`), hashmap.h (`HashMap`, with its laws `IsHashMap`), the time of day, the answers
-- of curl, the callbacks of libwebsockets, and, as `Structs`, the conversions and copies that events use.
-- Not modelled: struct discord_message and struct discord_interaction with their conversions, copies and
-- destructions, the structures that the source does not implement, logging, the set-up of curl, that of
-- `discord_start_bot`, the examples and the tests. malloc is assumed not to fail.
pub mod Prelude
pub mod PrioQueue
pub mod TPool
pub mod Cache
pub mod EnvParse
pub mod Json
pub mod Event
pub mod Gateway
pub mod Request
pub mod Structures
pub mod Outgoing
pub mod Commands
pub mod Interactions
pub mod Samples
