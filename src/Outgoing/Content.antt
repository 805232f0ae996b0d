-- ===== src/Outgoing/Content.antt =====
-- src/discord/message.c and include/discord/message.h: the JSON of a message that is sent or edited.
use Prim.Native.String.{String}
use mathlib.Core.Option
use disco_c.Prelude.{ℕ, suc, Option, none, some, List, [], ◌∷◌, if◌then◌else◌}
use disco_c.Prelude.Int.{ℤ, pos, eqb_ℤ}
use disco_c.Json.Build.{
  Value, text, number, object, array, Fields, no_fields, field, Items, no_items, item, add_text,
  add_each, add_array,
}
use disco_c.Structures.Embed.{Embed}
use disco_c.Structures.Attachment.{Attachment}
use disco_c.Outgoing.Embeds.{create_embed_json}
use disco_c.Outgoing.Mentions.{
  AllowedMentions, MessageReference, add_id_array, create_allowed_mentions,
  create_message_reference,
}

-- `struct discord_create_message` without `tts` and the components, which nothing reads. The counts are the
-- lengths of the lists.
pub record CreateMessage : Type 0 where
  pub embed : Option Embed
  pub embeds : List Embed
  pub allowed_mentions : Option AllowedMentions
  pub message_reference : Option MessageReference
  pub sticker_ids : List ℕ
  pub attachments : List Attachment
  pub flags : ℤ

module _ {R : Type 0} where
  -- The content is written unless it is NULL or empty.
  unfoldable pub add_content : Option String → Fields R → Fields R
  add_content none json = json
  add_content (some String.[]) json = json
  add_content (some (String.◌∷◌ c s)) json = field json "content" (text (String.◌∷◌ c s))

  -- The single embed before the others.
  unfoldable pub add_embeds : CreateMessage → Fields R → Fields R
  unfolding create_embed_json add_each
  add_embeds message json = elim message.embed [
    | none ↦ add_array "embeds" create_embed_json message.embeds json
    | some embed ↦ field json "embeds" (
        array (add_each create_embed_json message.embeds (item no_items (create_embed_json embed))))
  ]

  unfoldable pub add_flags : ℤ → Fields R → Fields R
  add_flags flags json = if eqb_ℤ flags (pos 0) then json else field json "flags" (number flags)

  -- An attachment with its place in the message.
  unfoldable pub attachment_object : ℕ → Attachment → Value R
  unfolding add_text
  attachment_object i a = object (
      add_text "filename" a.filename
        (add_text "description" a.description (field no_fields "id" (number (pos i)))))

  unfoldable pub attachment_items : ℕ → List Attachment → Items R → Items R
  unfolding attachment_object
  attachment_items i [] arr = arr
  attachment_items i (a ∷ rest) arr =
      attachment_items (suc i) rest (item arr (attachment_object i a))

  unfoldable pub add_attachments : List Attachment → Fields R → Fields R
  unfolding attachment_items
  add_attachments [] json = json
  add_attachments (a ∷ rest) json =
      field json "attachments" (array (attachment_items 0 (a ∷ rest) no_items))

  unfoldable pub add_mentions : Option AllowedMentions → Fields R → Option (Fields R)
  unfolding create_allowed_mentions
  add_mentions none json = some json
  add_mentions (some m) json =
      Option.map (λ v. field json "allowed_mentions" v) (create_allowed_mentions m)

  unfoldable pub add_reference : Option MessageReference → Fields R → Option (Fields R)
  unfolding create_message_reference
  add_reference none json = some json
  add_reference (some r) json =
      Option.map (λ v. field json "message_reference" v) (create_message_reference r)

  unfoldable pub add_message : CreateMessage → Fields R → Option (Fields R)
  unfolding add_embeds add_mentions add_reference add_id_array add_attachments add_flags
  add_message message json =
      elim (add_mentions message.allowed_mentions (add_embeds message json)) [
        | none ↦ none
        | some mentions ↦ elim (add_reference message.message_reference mentions) [
          | none ↦ none
          | some reference ↦
              Option.map
                (λ stickers. add_flags message.flags (add_attachments message.attachments stickers))
                (add_id_array "sticker_ids" message.sticker_ids reference)
        ]
      ]

  -- None if an ID is written past the end of its buffer.
  unfoldable pub _d_create_message_to_json :
      Fields R → Option String → Option CreateMessage → Option (Fields R)
  unfolding add_content add_message
  _d_create_message_to_json json content none = some (add_content content json)
  _d_create_message_to_json json content (some message) =
      add_message message (add_content content json)

  -- What an edit of a message writes: neither a reference nor stickers nor attachments.
  unfoldable pub edit_message : CreateMessage → Fields R → Option (Fields R)
  unfolding add_embeds add_mentions add_flags
  edit_message message json =
      Option.map (λ mentions. add_flags message.flags mentions)
        (add_mentions message.allowed_mentions (add_embeds message json))
