-- ===== src/Outgoing/Message.antt =====
-- src/discord/message.c: the requests on messages. `cJSON_Print` is the argument `print`.
pub mod Urls
pub mod Sending
pub mod Lookup
use Prim.Native.String.{String}
use mathlib.Core.Option
use disco_c.Prelude.{
  ℕ, zero, suc, ◌+◌, ◌-◌, ◌*◌, ◌/◌, ◌%◌, ◌^◌, ◌≤◌, ◌<◌, ◌≡◌, refl, sym, ap, ◌∙◌, subst, ◌≢◌, ◌↔◌,
  ◌⊎◌, inl, inr, Bool, true, false, not, ◌&&◌, ◌||◌, Option, none, some, List, [], ◌∷◌, ◌++◌, map,
  arith, length, length-append, All, ltb, leb, ◌==◌, if◌then◌else◌, ltb→lt, lt→ltb, leb→le, ==_iff,
  Bool-cases, Option-cases,
}
use disco_c.Prelude.Int.{ℤ, pos, negsuc, eqb_ℤ}
use disco_c.Prelude.Text.{text_length}
use disco_c.Prelude.Decimal.{◌&◌, print_uint}
use disco_c.Json.{strndup}
use disco_c.Json.Build.{
  Value, text, number, object, array, Fields, no_fields, field, Items, no_items, item, add_text,
  add_if, add_each, add_array,
}
use disco_c.TPool.{TPool}
use disco_c.Request.{
  RequestNode, CallbackType, message_callback, multiple_message_callback, request_get, request_post,
  request_patch, request,
}
use disco_c.Structures.Embed.{Embed}
use disco_c.Structures.Attachment.{Attachment}
use disco_c.Outgoing.Buffer.{sprintf}
use disco_c.Outgoing.Embeds.{create_embed_json}
use disco_c.Outgoing.Mentions.{
  AllowedMentions, MessageReference, add_id_array, create_allowed_mentions,
  create_message_reference,
}
use disco_c.Outgoing.Content.{
  CreateMessage, add_content, add_embeds, add_flags, attachment_object, attachment_items,
  add_attachments, add_mentions, add_reference, add_message, _d_create_message_to_json,
  edit_message,
}

-- The names of the files, none if one is NULL, which `strndup` cannot read.
unfoldable pub file_names : List Attachment → Option (List String)
unfolding strndup
file_names [] = some []
file_names (a ∷ rest) =
    let names = file_names rest in
    elim a.filename [ none ↦ none | some name ↦ Option.map (λ ns. strndup 256 name ∷ ns) names ]

unfoldable pub attachments_of : Option CreateMessage → List Attachment
attachments_of none = []
attachments_of (some message) = message.attachments

unfoldable pub messages_url : ℕ → String
unfolding ◌&◌ print_uint
messages_url channel_id =
    "https://discord.com/api/v10/channels/" & print_uint channel_id & "/messages"

unfoldable pub message_url : ℕ → ℕ → String
unfolding messages_url ◌&◌ print_uint
message_url channel_id message_id = messages_url channel_id & "/" & print_uint message_id

-- The number of an `int`, as `%d` prints it.
unfoldable pub print_int : ℤ → String
unfolding ◌&◌ print_uint
print_int (pos n) = print_uint n
print_int (negsuc n) = "-" & print_uint (suc n)

-- The first of the three IDs that is not 0, and whether there is one.
unfoldable pub id_field : ℕ → ℕ → ℕ → Option String
unfolding ◌&◌ print_uint
id_field around before after =
    if not (around == 0)
    then some ("around=" & print_uint around)
    else if not (before == 0)
    then some ("before=" & print_uint before)
    else if not (after == 0)
    then some ("after=" & print_uint after)
    else none

-- `strncat` of a part that was printed into a buffer of the size.
unfoldable pub append_part : ℕ → Option String → Option String → Option String
unfolding sprintf strndup ◌&◌
append_part size none url = url
append_part size (some part) none = none
append_part size (some part) (some url) = elim (sprintf size part) [
  | none ↦ none
  | some p ↦ some (url & strndup size p)
]

unfoldable pub limit_field : Option String → ℤ → Option String
unfolding ◌&◌ print_int
limit_field id limit = if eqb_ℤ limit (pos 0) then none else elim id [
  | none ↦ some ("limit=" & print_int limit)
  | some _ ↦ some ("&limit=" & print_int limit)
]

-- The three parts in the buffer of 200 bytes.
unfoldable pub list_url : ℕ → ℤ → ℕ → ℕ → ℕ → Option String
unfolding sprintf append_part id_field limit_field messages_url ◌&◌
list_url channel_id limit around before after =
    let id = id_field around before after in
    elim (append_part 15 (limit_field id limit)
      (append_part 35 id (sprintf 200 (messages_url channel_id & "?")))) [
        | none ↦ none
        | some url ↦ sprintf 200 url
      ]

-- The file names that the request is given, and the pool after it; none for a write past the end of a buffer or
-- a read through NULL.
module _ {R : Type 0} (print : Value R → String) (token : String) where
  unfoldable pub discord_channel_send_message :
      Option String
      → ℕ
      → Option CreateMessage
      → Bool
      → TPool RequestNode
      → Option (List String × TPool RequestNode)
  unfolding _d_create_message_to_json sprintf messages_url file_names attachments_of request
  discord_channel_send_message content channel_id message cb pool =
      elim (_d_create_message_to_json no_fields content message) [
        | none ↦ none
        | some json ↦ elim (sprintf 80 (messages_url channel_id)) [
          | none ↦ none
          | some url ↦
              Option.map
                (λ filenames. (
                  filenames,
                  request url (some (print (object json))) request_post token
                      (if cb then some message_callback else none) pool,
                ))
                (file_names (attachments_of message))
        ]
      ]

  -- The attachments are read from the message whether it is NULL or not.
  unfoldable pub discord_channel_edit_message :
      Option String
      → ℕ
      → ℕ
      → Option CreateMessage
      → TPool RequestNode
      → Option (List String × TPool RequestNode)
  unfolding edit_message add_content sprintf message_url file_names request
  discord_channel_edit_message content channel_id message_id none pool = none
  discord_channel_edit_message content channel_id message_id (some message) pool =
      elim (edit_message message (add_content content no_fields)) [
        | none ↦ none
        | some json ↦ elim (file_names message.attachments) [
          | none ↦ none
          | some filenames ↦
              Option.map
                (λ uri. (
                  filenames,
                  request uri (some (print (object json))) request_patch token none pool,
                ))
                (sprintf 100 (message_url channel_id message_id))
        ]
      ]

module _ (token : String) where
  unfoldable pub discord_get_messages :
      ℕ → ℤ → ℕ → ℕ → ℕ → TPool RequestNode → Option (TPool RequestNode)
  unfolding list_url request
  discord_get_messages channel_id limit around before after pool =
      Option.map (λ url. request url none request_get token (some multiple_message_callback) pool)
        (list_url channel_id limit around before after)

  unfoldable pub discord_fetch_message :
      ℕ → ℕ → Bool → TPool RequestNode → Option (TPool RequestNode)
  unfolding sprintf message_url request
  discord_fetch_message channel_id message_id false pool = some pool
  discord_fetch_message channel_id message_id true pool =
      Option.map (λ url. request url none request_get token (some message_callback) pool)
        (sprintf 100 (message_url channel_id message_id))
