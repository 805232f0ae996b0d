-- ===== src/Request.antt =====
-- src/web/request.c: requests over HTTP, run by the thread pool. What curl returns is the argument `Reply`;
-- the headers and the parts of a request with files are left to curl and are not in the model.
pub mod Retry
pub mod Delivery
mod Tests
use Prim.Native.String.{String}
use mathlib.Core.Option
use disco_c.Prelude.{
  ℕ, zero, suc, ◌+◌, ◌-◌, ◌*◌, ◌/◌, ◌%◌, ◌^◌, ◌≤◌, ◌<◌, ◌≡◌, refl, sym, ap, ◌∙◌, subst, ◌≢◌, ◌↔◌,
  ◌⊎◌, inl, inr, Bool, true, false, not, ◌&&◌, ◌||◌, Option, none, some, List, [], ◌∷◌, ◌++◌, map,
  arith, length, length-append, All, ltb, leb, ◌==◌, if◌then◌else◌, ltb→lt, lt→ltb, leb→le, ==_iff,
  Bool-cases, Option-cases,
}
use disco_c.Prelude.Int.{ℤ, pos, ltb_ℤ, ◌+ℤ◌, ◌-ℤ◌}
use disco_c.PrioQueue.{Timeval}
use disco_c.TPool.{TPool, t_pool_add_work}
use disco_c.Json.{CJson, strndup, holds}
use disco_c.Cache.Defs.{HashMap, Node}
use disco_c.Cache.Global.{DiscoCacheType, disco_message_cache, Caches, discord_cache_set}
use disco_c.Event.Dispatch.{Structs}

pub data RequestType : Type 0 where
  request_get request_post request_patch request_put request_delete request_update : RequestType

pub data CallbackType : Type 0 where
  message_callback multiple_message_callback : CallbackType

-- `struct request_work_node`, without what curl alone uses.
pub record RequestNode : Type 0 where
  pub url : String
  pub json : Option String
  pub request_type : RequestType
  pub token : String
  pub rc : Option CallbackType
  pub iteration : ℕ
  pub http : ℕ

-- What one run of `curl_easy_perform` gives, the code 0 if it failed, with what `write_data` collected; and
-- the time of day at which the answer is looked at.
pub record Reply : Type 0 where
  pub code : ℕ
  pub response : List ℕ
  pub now : Timeval

-- `struct MemoryChunk`, whose size is the length of its memory.
unfoldable pub write_data : List ℕ → List ℕ → List ℕ × ℕ
write_data memory piece = (memory ++ piece, length piece)

-- Done with an answer, to be run again at a time, or neither; or a fault: the variable `response`, which
-- nothing has set, is parsed and freed (`unread`), or a number is read through a NULL pointer.
pub data Outcome : Type 0 where
  finished : RequestNode → Outcome
  again : RequestNode → Timeval → Outcome
  abandoned : RequestNode → Outcome
  unread : RequestNode → Outcome
  through_null : RequestNode → Outcome

unfoldable pub between : ℕ → ℕ → ℕ → Bool
between lo hi code = leb lo code && leb code hi

-- The time of day and a number of seconds, whose whole part and whose millionths are given.
unfoldable pub wait_from : Timeval → ℤ → ℤ → Timeval
unfolding ◌+ℤ◌ ◌-ℤ◌
wait_from now seconds usec =
    let sec' = now.tv_sec +ℤ seconds in
    let usec' = now.tv_usec +ℤ usec in
    if ltb_ℤ (pos 1_000_000) usec'
    then record { tv_sec = sec' +ℤ pos 1; tv_usec = usec' -ℤ pos 1_000_000 }
    else record { tv_sec = sec'; tv_usec = usec' }

-- The next attempt after a failure of the server: `1 << iteration` seconds later.
unfoldable pub back_off : Reply → RequestNode → Outcome
unfolding ◌+ℤ◌
back_off reply n =
    again (record n { iteration = n.iteration + 1 })
      (record (reply.now) { tv_sec = reply.now.tv_sec +ℤ pos (2 ^ n.iteration) })

module _ {J : Type 0} (json : CJson J) where
  -- `(time_t)(wait * 1e6) % (time_t)1e6`, of a number of microseconds that is not negative. The number is
  -- read for the log before the test, also where there is no field to read it from.
  unfoldable pub rate_limited : Reply → RequestNode → Outcome
  unfolding wait_from
  rate_limited reply n = elim (json.parse reply.response) [
    | none ↦ through_null n
    | some res_json ↦ elim (json.get_object_item res_json "retry_after") [
      | none ↦ through_null n
      | some wait ↦
          if json.is_number wait
          then again n
              (wait_from reply.now (json.seconds wait) (pos (json.micros wait % 1_000_000)))
          else abandoned n
    ]
  ]

  unfoldable pub after_reply : Reply → RequestNode → Outcome
  unfolding rate_limited back_off between
  after_reply reply n =
      let n' = record n { http = reply.code } in
      if between 200 299 reply.code
        || reply.code == 400
        || reply.code == 401
        || reply.code == 403
        || reply.code == 404
        || reply.code == 405
      then finished n'
      else if reply.code == 429
      then rate_limited reply n'
      else if reply.code == 0 || between 500 599 reply.code || reply.code == 409
      then back_off reply n'
      else finished n'

  -- After five failures nothing is sent any more, and `response` is read without having been set.
  unfoldable pub attempt : Reply → RequestNode → Outcome
  unfolding after_reply
  attempt reply n = if leb 5 n.iteration then unread n else after_reply reply n

  -- The pool that the attempt leaves; a fault comes before any call on the pool.
  unfoldable pub requeue : Outcome → TPool RequestNode → TPool RequestNode
  unfolding t_pool_add_work
  requeue (finished n) pool = pool
  requeue (again n t0) pool = t_pool_add_work pool n t0
  requeue (abandoned n) pool = pool
  requeue (unread n) pool = pool
  requeue (through_null n) pool = pool

  -- One run of `request_t_pool` up to its clean-up.
  unfoldable pub request_t_pool :
      Reply → RequestNode → TPool RequestNode → Outcome × TPool RequestNode
  unfolding attempt requeue
  request_t_pool reply n pool = (attempt reply n, requeue (attempt reply n) pool)

-- The node is queued for the time 0.
unfoldable pub request :
    String
    → Option String
    → RequestType
    → String
    → Option CallbackType
    → TPool RequestNode
    → TPool RequestNode
unfolding t_pool_add_work strndup
request url content request_type token rc pool =
    t_pool_add_work pool
      (record {
        url = strndup 2050 url;
        json = content;
        request_type = request_type;
        token = strndup 200 token;
        rc = rc;
        iteration = 0;
        http = 0;
      })
      (record { tv_sec = pos 0; tv_usec = pos 0 })

-- What the user's function is given: a message, or several with their number.
pub data Answer (D : Type 0) : Type 0 where
  nothing : Answer D
  one_message : D → Answer D
  messages : ℕ → List D → Answer D

-- `message_array[received++] = msg`, for an array with room for so many messages: none if the place is
-- not in the array.
unfoldable pub store_message : {D : Type 0} → ℕ → D → List D → Option (List D)
store_message capacity msg message_array =
    if ltb (length message_array) capacity then some (message_array ++ msg ∷ []) else none

module _ {J D U : Type 0} (json : CJson J) (structs : Structs J D U) (h : HashMap (Node D))
    (id_of : DiscoCacheType → D → ℕ) where
  -- The messages of an array, in its order, each of which is cached. `_d_json_to_message` never gives NULL,
  -- so that the test `if (msg)` always holds.
  unfoldable pub receive_messages : ℕ → List J → List D → Caches h → Option (Caches h × List D)
  unfolding discord_cache_set store_message
  receive_messages capacity [] message_array cs = some (cs, message_array)
  receive_messages capacity (c_message ∷ rest) message_array cs =
      let msg = structs.json_to_message c_message in
      elim (store_message capacity msg message_array) [
        | none ↦ none
        | some message_array' ↦ elim (discord_cache_set h id_of disco_message_cache msg cs) [
          | none ↦ none
          | some (cs', _) ↦ receive_messages capacity rest message_array' cs'
        ]
      ]

  -- The end of `request_t_pool`, for the JSON of the answer. The array of messages is allocated for
  -- `received` of them, which is 0 at that point.
  unfoldable pub deliver : Option CallbackType → Option J → Caches h → Option (Caches h × Answer D)
  unfolding receive_messages holds
  deliver none res_json cs = some (cs, nothing)
  deliver (some message_callback) res_json cs = elim res_json [
    | none ↦ some (cs, one_message (structs.json_to_message json.null_pointer))
    | some object ↦ some (cs, one_message (structs.json_to_message object))
  ]
  deliver (some multiple_message_callback) res_json cs = elim res_json [
    | none ↦ some (cs, messages 0 [])
    | some array ↦
        if not (json.is_array array)
        then some (cs, messages 0 [])
        else Option.map (λ r. (r.0, messages (length r.1) r.1))
            (receive_messages 0 (json.elements array) [] cs)
  ]
