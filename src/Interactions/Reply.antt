-- ===== src/Interactions/Reply.antt =====
-- src/discord/interaction.c: the replies to an interaction.
pub mod Sending
use Prim.Native.String.{String}
use mathlib.Core.Option
use disco_c.Prelude.{
  ℕ, zero, suc, ◌+◌, ◌-◌, ◌*◌, ◌/◌, ◌%◌, ◌^◌, ◌≤◌, ◌<◌, ◌≡◌, refl, sym, ap, ◌∙◌, subst, ◌≢◌, ◌↔◌,
  ◌⊎◌, inl, inr, Bool, true, false, not, ◌&&◌, ◌||◌, Option, none, some, List, [], ◌∷◌, ◌++◌, map,
  arith, length, length-append, All, ltb, leb, ◌==◌, if◌then◌else◌, ltb→lt, lt→ltb, leb→le, ==_iff,
  Bool-cases, Option-cases,
}
use disco_c.Prelude.Int.{ℤ, pos}
use disco_c.Prelude.Text.{text_length}
use disco_c.Prelude.Decimal.{◌&◌, print_uint}
use disco_c.Json.Build.{
  Value, number, real, object, array, Fields, no_fields, field, Items, no_items, item, add_text,
  add_if, add_each, add_array,
}
use disco_c.TPool.{TPool}
use disco_c.Request.{RequestNode, request_post}
use disco_c.Structures.Embed.{Embed}
use disco_c.Structures.Attachment.{Attachment}
use disco_c.Structures.Component.{Component}
use disco_c.Outgoing.Mentions.{AllowedMentions}
use disco_c.Outgoing.Content.{CreateMessage, _d_create_message_to_json}
use disco_c.Outgoing.Buffer.{sprintf}
use disco_c.Commands.Options.{
  OptionType, option_integer, option_number, option_string, LanguageLocales, add_locales,
}
use disco_c.Commands.Register.{CommandRequest, send_of_no_bot}

-- The union of the value of a choice: what its bits are as a number, and as a pointer to a text (NULL is
-- `some none`; none if they point to no text).
pub record ChoiceValue (R : Type 0) : Type 0 where
  pub number : R
  pub str : Option (Option String)

pub record ReplyChoice (R : Type 0) : Type 0 where
  pub name : Option String
  pub name_localizations : Option LanguageLocales
  pub value : ChoiceValue R

-- The message of `struct discord_interaction_callback`, without `tts` and the components, which nothing reads.
pub record ReplyMessage : Type 0 where
  pub content : Option String
  pub embeds : List Embed
  pub allowed_mentions : Option AllowedMentions
  pub flags : ℤ
  pub attachments : List Attachment

-- The types of a reply with a message.
pub data MessageReplyType : Type 0 where
  channel_message_with_source deferred_channel_message_with_source : MessageReplyType
  deferred_update_message update_message : MessageReplyType

-- `struct discord_interaction_callback`, the union with its type.
pub data Callback (R : Type 0) : Type 0 where
  pong : Callback R
  message_reply : MessageReplyType → ReplyMessage → Callback R
  autocomplete : List (ReplyChoice R) → Callback R
  modal : Option String → Option String → List Component → Callback R

-- What a reply reads of the interaction; the types of the options of its data, if it has data.
pub record Received : Type 0 where
  pub id : ℕ
  pub token : Option String
  pub option_types : Option (List OptionType)

unfoldable pub message_reply_type : MessageReplyType → ℤ
message_reply_type channel_message_with_source = pos 4
message_reply_type deferred_channel_message_with_source = pos 5
message_reply_type deferred_update_message = pos 6
message_reply_type update_message = pos 7

unfoldable pub callback_type : {R : Type 0} → Callback R → ℤ
unfolding message_reply_type
callback_type pong = pos 1
callback_type (message_reply type message) = message_reply_type type
callback_type (autocomplete choices) = pos 8
callback_type (modal custom_id title components) = pos 9

unfoldable pub reply_message : ReplyMessage → CreateMessage
reply_message m = record {
  embed = none;
  embeds = m.embeds;
  allowed_mentions = m.allowed_mentions;
  message_reference = none;
  sticker_ids = [];
  attachments = m.attachments;
  flags = m.flags;
}

module _ {R : Type 0} where
  -- The number is written from the bits of the union, whichever member was set.
  unfoldable pub add_number : ChoiceValue R → Fields R → Option (Fields R)
  add_number value json = some (field json "value" (real value.number))

  unfoldable pub add_str : ChoiceValue R → Fields R → Option (Fields R)
  unfolding add_text
  add_str value json = Option.map (λ s. add_text "value" s json) value.str

  -- The value by the type of the option; other types are ignored.
  unfoldable pub add_value : OptionType → ChoiceValue R → Fields R → Option (Fields R)
  unfolding add_number add_str
  add_value option_integer value json = add_number value json
  add_value option_number value json = add_number value json
  add_value option_string value json = add_str value json
  add_value _ value json = some json

  unfoldable pub reply_choice : OptionType → ReplyChoice R → Option (Value R)
  unfolding add_value add_if add_locales add_text
  reply_choice type choice =
      Option.map (λ json. object json)
        (add_value type choice.value (
          add_if choice.name_localizations (add_locales "name_localizations")
            (add_text "name" choice.name no_fields)))

  -- The choice at a place takes its type from the option at that place; none if there is none.
  unfoldable pub reply_choices : List (ReplyChoice R) → List OptionType → Items R → Option (Items R)
  unfolding reply_choice
  reply_choices [] types made = some made
  reply_choices (choice ∷ rest) [] made = none
  reply_choices (choice ∷ rest) (type ∷ types) made = elim (reply_choice type choice) [
    | none ↦ none
    | some v ↦ reply_choices rest types (item made v)
  ]

  -- The data that was received is read for each choice.
  unfoldable pub autocomplete_fields :
      List (ReplyChoice R) → Option (List OptionType) → Option (Fields R)
  unfolding reply_choices
  autocomplete_fields [] types = some no_fields
  autocomplete_fields (choice ∷ rest) none = none
  autocomplete_fields (choice ∷ rest) (some types) =
      Option.map (λ made. field no_fields "choices" (array made))
        (reply_choices (choice ∷ rest) types no_items)

  -- The conversion of a component to JSON writes nothing.
  unfoldable pub component_object : Component → Value R
  component_object c = object no_fields

  unfoldable pub modal_fields : Option String → Option String → List Component → Fields R
  unfolding add_text add_array component_object
  modal_fields custom_id title components =
      add_array "components" component_object components
        (add_text "title" title (add_text "custom_id" custom_id no_fields))

  unfoldable pub reply_data : Callback R → Received → Option (Fields R)
  unfolding _d_create_message_to_json reply_message autocomplete_fields modal_fields
  reply_data pong recv = some no_fields
  reply_data (message_reply type m) recv =
      _d_create_message_to_json no_fields m.content (some (reply_message m))
  reply_data (autocomplete choices) recv = autocomplete_fields choices recv.option_types
  reply_data (modal custom_id title components) recv =
      some (modal_fields custom_id title components)

  unfoldable pub reply_json : Callback R → Fields R → Value R
  unfolding callback_type
  reply_json cb fs =
      object (field (field no_fields "type" (number (callback_type cb))) "data" (object fs))

-- `strnlen`.
unfoldable pub bounded_length : ℕ → String → ℕ
bounded_length limit s = if ltb (text_length s) limit then text_length s else limit

unfoldable pub callback_url : ℕ → String → String
unfolding ◌&◌ print_uint
callback_url id token =
    "https://discord.com/api/v10/interactions/" & print_uint id & "/" & token & "/callback"

-- The URL in a buffer that is 80 bytes longer than the token, of which 500 characters are counted.
unfoldable pub callback_uri : ℕ → Option String → Option String
unfolding sprintf bounded_length callback_url
callback_uri id none = none
callback_uri id (some token) = sprintf (80 + bounded_length 500 token) (callback_url id token)

module _ {R : Type 0} (print : Value R → String) where
  unfoldable pub posted : Callback R → Option (Fields R) → Option String → Option CommandRequest
  unfolding reply_json
  posted cb none uri = none
  posted cb (some fs) none = none
  posted cb (some fs) (some uri) =
      some
        (record { url = uri; json = some (print (reply_json cb fs)); request_type = request_post })

  unfoldable pub reply_request : Callback R → Received → Option CommandRequest
  unfolding posted reply_data callback_uri
  reply_request cb recv = posted cb (reply_data cb recv) (callback_uri recv.id recv.token)

  -- The call of `request` has NULL for the bot.
  unfoldable pub discord_send_interaction :
      String → Callback R → Received → Option (TPool RequestNode)
  unfolding reply_request send_of_no_bot
  discord_send_interaction token cb recv = send_of_no_bot token (reply_request cb recv)
