-- ===== src/Outgoing/Message/Sending.antt =====
-- src/discord/message.c: the requests that send and edit a message.
use Prim.Native.String.{String}
use disco_c.Prelude.{
  ℕ, ◌^◌, ◌<◌, ◌≡◌, refl, Bool, Option, none, some, List, [], ◌∷◌, arith, length, All,
  if◌then◌else◌,
}
use disco_c.Json.{strndup}
use disco_c.Json.Build.{Value, object, array, Fields, field, no_fields, no_items, add_array}
use disco_c.TPool.{TPool}
use disco_c.Request.{RequestNode, message_callback, request_post, request_patch, request}
use disco_c.Structures.Attachment.{Attachment}
use disco_c.Outgoing.Content.{
  CreateMessage, add_content, add_embeds, add_flags, add_attachments, add_mentions, add_reference,
  add_message, _d_create_message_to_json, edit_message,
}
use disco_c.Outgoing.Message.{
  file_names, attachments_of, messages_url, message_url, discord_channel_send_message,
  discord_channel_edit_message,
}
use disco_c.Outgoing.Buffer.Fits.{IsShortId, shown, sprintf_fits, add_ids-short}
use disco_c.Outgoing.Mentions.{
  AllowedMentions, MessageReference, parse_items, add_id_array, create_allowed_mentions,
}
use disco_c.Outgoing.Mentions.Fits.{mentions_object, create_message_reference-short}
use disco_c.Outgoing.Message.Urls.{length-messages_url, length-message_url}

-- A file that has a name.
abbrev IsNamed : Attachment → Type 0
IsNamed a = (name : String) × (a.filename ≡ some name)

file_names-IsNamed :
    (files : List Attachment)
    → All IsNamed files
    → (names : List String) × (file_names files ≡ some names) × (length names ≡ length files)
unfolding file_names
file_names-IsNamed [] w = ([], refl, refl)
file_names-IsNamed (a ∷ rest) ((name, e), w) =
    let (names, f, l) = file_names-IsNamed rest w in
    (strndup 256 name ∷ names, rw (e, f, file_names) refl, omega (arith, l))

-- The IDs in allowed mentions, in a reference, and in a message with its stickers are below 10^19.
abbrev pub ShortMentions : Option AllowedMentions → Type 0
ShortMentions none = Unit {0}
ShortMentions (some m) = All IsShortId m.roles × All IsShortId m.users

abbrev pub ShortReference : Option MessageReference → Type 0
ShortReference none = Unit {0}
ShortReference (some ref) =
    IsShortId ref.message_id × IsShortId ref.channel_id × IsShortId ref.guild_id

abbrev pub ShortIds : Option CreateMessage → Type 0
ShortIds none = Unit {0}
ShortIds (some message) =
    ShortMentions message.allowed_mentions
    × ShortReference message.message_reference
    × All IsShortId message.sticker_ids

module _ {R : Type 0} where
  add_id_array-short :
      (name : String) (ids : List ℕ) (json : Fields R)
      → All IsShortId ids
      → add_id_array name ids json ≡ some (add_array name shown ids json)
  unfolding add_id_array add_array
  add_id_array-short name [] json w = refl
  add_id_array-short name (id ∷ rest) json w =
      rw (add_ids-short {R = R} (id ∷ rest) no_items w) refl

  add_mentions-short :
      (o : Option AllowedMentions) (json : Fields R)
      → ShortMentions o
      → (fields : Fields R) × (add_mentions o json ≡ some fields)
  unfolding add_mentions create_allowed_mentions
  add_mentions-short none json w = (json, refl)
  add_mentions-short (some m) json (r, u) =
      let parse = field no_fields "parse" (array (parse_items m)) in
      let e = add_id_array-short "roles" m.roles parse r in
      let e' = add_id_array-short "users" m.users (add_array "roles" shown m.roles parse) u in
      (field json "allowed_mentions" (mentions_object m), rw (e, e', create_allowed_mentions) refl)

  add_reference-short :
      (o : Option MessageReference) (json : Fields R)
      → ShortReference o
      → (fields : Fields R) × (add_reference o json ≡ some fields)
  unfolding add_reference
  add_reference-short none json w = (json, refl)
  add_reference-short (some ref) json (m, c, g) =
      let (v, e) = create_message_reference-short {R = R} ref m c g in
      (field json "message_reference" v, rw e refl)

  create_message-short :
      (content : Option String) (message : Option CreateMessage)
      → ShortIds message
      → (json : Fields R) × (_d_create_message_to_json no_fields content message ≡ some json)
  unfolding _d_create_message_to_json add_message
  create_message-short content none w = (add_content content no_fields, refl)
  create_message-short content (some message) (m, r, s) =
      let start = add_embeds message (add_content content no_fields) in
      let (mentions, e) = add_mentions-short message.allowed_mentions start m in
      let (reference, e') = add_reference-short message.message_reference mentions r in
      let e'' = add_id_array-short "sticker_ids" message.sticker_ids reference s in
      (
        add_flags message.flags (
            add_attachments message.attachments
              (add_array "sticker_ids" shown message.sticker_ids reference)),
        rw (e, e', e'', add_message) refl,
      )

  edit_message-short :
      (message : CreateMessage) (json : Fields R)
      → ShortMentions message.allowed_mentions
      → (fields : Fields R) × (edit_message message json ≡ some fields)
  unfolding edit_message
  edit_message-short message json w =
      let (mentions, e) = add_mentions-short message.allowed_mentions (add_embeds message json) w in
      (add_flags message.flags mentions, rw e refl)

-- For a message, or NULL, whose files have names, with an ID of the channel below 2^64 and the IDs of
-- its mentions, its reference and its stickers below 10^19: sending it neither overruns a buffer nor
-- reads through NULL. One request is queued, to the URL of the channel's messages, with the JSON of the
-- message, the name of each file, and the callback if one is given.
pub send_message_queues :
    {R : Type 0} (print : Value R → String) (token : String) (content : Option String)
    (channel_id : ℕ) (message : Option CreateMessage) (cb : Bool) (pool : TPool RequestNode)
    → channel_id < 2 ^ 64
    → All IsNamed (attachments_of message)
    → ShortIds message
    → (names : List String) × (json : Fields R) × (file_names (attachments_of message) ≡ some names)
      × (length names ≡ length (attachments_of message))
      × (_d_create_message_to_json no_fields content message ≡ some json)
      × (discord_channel_send_message print token content channel_id message cb pool
          ≡ some (
            names,
            request
                (messages_url channel_id)
                (some (print (object json)))
                request_post
                token
                (if cb then some message_callback else none)
                pool,
          ))
unfolding discord_channel_send_message
send_message_queues print token content channel_id message cb pool h w s =
    let (names, f, l) = file_names-IsNamed (attachments_of message) w in
    let u =
      sprintf_fits 80 (messages_url channel_id) (omega (arith, length-messages_url channel_id h)) in
    let (json, j) = create_message-short content message s in
    (names, json, f, l, j, rw (j, u, f, discord_channel_send_message) refl)

-- With IDs of the channel and the message below 2^64, and a message whose files have names and whose
-- mentions have IDs below 10^19, an edit overruns no buffer: it queues one request, to the URL of the
-- message, with the JSON of the edit and the name of each file, and without a callback; with NULL for
-- the message it reads through NULL.
pub edit_message_queues :
    {R : Type 0} (print : Value R → String) (token : String) (content : Option String)
    (channel_id message_id : ℕ) (message : CreateMessage) (pool : TPool RequestNode)
    → channel_id < 2 ^ 64
    → message_id < 2 ^ 64
    → All IsNamed message.attachments
    → ShortMentions message.allowed_mentions
    → (discord_channel_edit_message print token content channel_id message_id none pool ≡ none)
      × (names : List String) × (json : Fields R) × (file_names message.attachments ≡ some names)
      × (length names ≡ length message.attachments)
      × (edit_message message (add_content content no_fields) ≡ some json)
      × (discord_channel_edit_message print token content channel_id message_id (some message) pool
          ≡ some (
            names,
            request
                (message_url channel_id message_id)
                (some (print (object json)))
                request_patch
                token
                none
                pool,
          ))
unfolding discord_channel_edit_message
edit_message_queues print token content channel_id message_id message pool h k w s =
    let (names, f, l) = file_names-IsNamed message.attachments w in
    let u =
      sprintf_fits 100 (message_url channel_id message_id)
        (omega (arith, length-message_url channel_id message_id h k)) in
    let (json, j) = edit_message-short message (add_content content no_fields) s in
    (refl, names, json, f, l, j, rw (j, f, u, discord_channel_edit_message) refl)
