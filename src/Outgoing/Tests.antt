-- ===== src/Outgoing/Tests.antt =====
-- A cJSON for the values that were built, and runs and instances of the theorems.
use Prim.Native.String.{String}
use disco_c.Prelude.{
  ℕ, zero, suc, ◌+◌, ◌*◌, ◌/◌, ◌%◌, ◌^◌, ◌<◌, ◌≡◌, refl, ◌∙◌, ◌⊎◌, inl, inr, true, false, none,
  some, List, [], ◌∷◌, arith, length, All, ltb, ltb→lt, Bool-cases,
}
use disco_c.Prelude.Int.{pos, negsuc}
use disco_c.Prelude.Decimal.{◌&◌, digit_before, digits_before, print_uint, HasAtMost, digits_20}
use disco_c.Json.Build.{Value, object, Fields, no_fields}
use disco_c.Structures.Attachment.{Attachment}
use disco_c.Structures.Embed.{EmbedAuthor, Embed, _d_json_to_embed}
use disco_c.TPool.{TPool, t_pool_init}
use disco_c.Request.{
  RequestNode, message_callback, multiple_message_callback, request_get, request_post,
  request_patch, request,
}
use disco_c.Outgoing.Embeds.{create_embed_json}
use disco_c.Outgoing.Mentions.{AllowedMentions, MessageReference, create_allowed_mentions}
use disco_c.Outgoing.Content.{CreateMessage, add_content, _d_create_message_to_json, edit_message}
use disco_c.Outgoing.Message.{
  messages_url, message_url, file_names, attachments_of, id_field, limit_field,
  discord_channel_send_message, discord_channel_edit_message, discord_get_messages,
}
use disco_c.Outgoing.Buffer.Fits.{IsShortId}
use disco_c.Outgoing.Mentions.Fits.{mentions_object, create_allowed_mentions-cases}
use disco_c.Outgoing.Message.Urls.{part, get_messages_queues}
use disco_c.Outgoing.Message.Sending.{send_message_queues, edit_message_queues}
use disco_c.Outgoing.RoundTrip.{IsTree}
use disco_c.Outgoing.RoundTrip.Embed.{IsShortEmbed, shown_embed, embed_round_trip}
use disco_c.Samples.Tree.{read_digits, tree_json}
use disco_c.Samples.{json}

read_digits-digit_before :
    (m n d : ℕ) (t : String)
    → d < 10
    → m ≡ n * 10 + d
    → read_digits n (digit_before d t) ≡ read_digits m t
unfolding digit_before
read_digits-digit_before m n d t h e = rw e (ground (arith, h))

read_digits-digits_before :
    (k n : ℕ) (t : String) → HasAtMost k n → read_digits 0 (digits_before k n t) ≡ read_digits n t
unfolding digits_before
read_digits-digits_before zero n t h = absurd h
read_digits-digits_before (suc zero) n t h =
    let e : ltb n 10 ≡ true = ground (arith, h) in
    rw e (read_digits-digit_before n 0 n t h (omega arith))
read_digits-digits_before (suc (suc k)) n t h = elim (Bool-cases (ltb n 10)) [
  | inl e ↦ rw (e, digits_before) (read_digits-digit_before n 0 n t (ltb→lt n 10 e) (omega arith))
  | inr e ↦
      rw (e, digits_before)
        (read_digits-digits_before (suc k) (n / 10) (digit_before (n % 10) t) h
          ∙ read_digits-digit_before n (n / 10) (n % 10) t (omega arith) (omega arith))
]

read-print_uint : (n : ℕ) → n < 2 ^ 64 → read_digits 0 (print_uint n) ≡ n
unfolding print_uint
read-print_uint n h = read_digits-digits_before 20 n "" (digits_20 n h)

tree_json-IsTree : IsTree tree_json
tree_json-IsTree = record {
  item = λ fs name. refl;
  string = λ s. refl;
  bool = λ b. refl;
  truth = λ b. refl;
  numeric = λ n. refl;
  int = λ n. refl;
  elements = λ xs. refl;
  no_number = λ s. refl;
  uint = read-print_uint;
}

abbrev an_author : EmbedAuthor
an_author = record {
  name = some "Ann";
  url = none;
  icon_url = some "http://a";
  proxy_icon_url = none;
}

abbrev a_reference : MessageReference
a_reference = record {
  message_id = 1_234_567_890;
  channel_id = 0;
  guild_id = 42;
  fail_if_not_exists = true;
}

abbrev an_embed : Embed
an_embed = record {
  title = some "title";
  type = none;
  description = none;
  url = none;
  timestamp = none;
  color = pos 255;
  footer = some (record { text = some "foot"; icon_url = none; proxy_icon_url = none });
  image = some (record { url = some "u"; proxy_url = some "p"; height = pos 3; width = pos 4 });
  thumbnail = none;
  video = none;
  provider = some (record { name = none; url = some "u" });
  author = some an_author;
  fields = record { name = some "n"; value = some "v"; _inline = true } ∷ [];
}

an_embed-IsShort : IsShortEmbed an_embed
an_embed-IsShort = record {
  title = omega arith;
  type = tt;
  description = tt;
  url = tt;
  timestamp = tt;
  image = omega arith;
  thumbnail = tt;
  video = tt;
  provider = (tt, omega arith);
  author = (omega arith, tt, omega arith, tt);
  fields = ((omega arith, omega arith), tt);
}

embed_round_trip_example :
    _d_json_to_embed tree_json 2 (create_embed_json an_embed) ≡ some (shown_embed an_embed)
embed_round_trip_example = embed_round_trip tree_json tree_json-IsTree an_embed 0 an_embed-IsShort

abbrev print : Value ℕ → String
print v = "{}"

abbrev a_file : Attachment
a_file = record {
  id = 0;
  filename = some "a.png";
  description = none;
  content_type = none;
  size = pos 3;
  url = none;
  proxy_url = none;
  height = pos 0;
  width = pos 0;
  ephemeral = false;
}

abbrev a_message : CreateMessage
a_message = record {
  embed = some an_embed;
  embeds = [];
  allowed_mentions = none;
  message_reference = some a_reference;
  sticker_ids = [];
  attachments = a_file ∷ [];
  flags = pos 0;
}

abbrev pool : TPool RequestNode
pool = t_pool_init 2 (pos 0)

abbrev some_mentions : AllowedMentions
some_mentions = record {
  parse_role_mentions = false;
  parse_user_mentions = true;
  parse_everyone_mentions = false;
  roles = [];
  users = 42 ∷ 10_000_000_000_000_000_000 ∷ [];
  replied_user = true;
}

-- The second user has an ID of 20 digits.
create_allowed_mentions-cases_example :
    ((All IsShortId some_mentions.roles × All IsShortId some_mentions.users)
      × (create_allowed_mentions {R = ℕ} some_mentions ≡ some (mentions_object some_mentions)))
    ⊎ ((¬ (All IsShortId some_mentions.roles × All IsShortId some_mentions.users))
        × (create_allowed_mentions {R = ℕ} some_mentions ≡ none))
create_allowed_mentions-cases_example =
    create_allowed_mentions-cases some_mentions tt (omega arith, (omega arith, tt))

send_message_queues_example :
    (names : List String) × (json : Fields ℕ) × (file_names (attachments_of (some a_message))
      ≡ some names)
    × (length names ≡ 1)
    × (_d_create_message_to_json no_fields (some "hi") (some a_message) ≡ some json)
    × (discord_channel_send_message print "token" (some "hi") 42 (some a_message) true pool
        ≡ some (
          names,
          request
              (messages_url 42)
              (some (print (object json)))
              request_post
              "token"
              (some message_callback)
              pool,
        ))
unfolding attachments_of
send_message_queues_example =
    send_message_queues print "token" (some "hi") 42 (some a_message) true pool (omega arith)
      (("a.png", refl), tt) (tt, (omega arith, omega arith, omega arith), tt)

edit_message_queues_example :
    (discord_channel_edit_message print "token" none 42 7 none pool ≡ none)
    × (names : List String) × (json : Fields ℕ) × (file_names a_message.attachments ≡ some names)
    × (length names ≡ 1)
    × (edit_message a_message (add_content none no_fields) ≡ some json)
    × (discord_channel_edit_message print "token" none 42 7 (some a_message) pool
        ≡ some (
          names,
          request (message_url 42 7) (some (print (object json))) request_patch "token" none pool,
        ))
edit_message_queues_example =
    edit_message_queues print "token" none 42 7 a_message pool (omega arith) (omega arith)
      (("a.png", refl), tt) tt

get_messages_queues_example :
    let id = id_field 0 5 0 in
    discord_get_messages "token" 42 (negsuc 99) 0 5 0 pool
    ≡ some (
        request
          (((messages_url 42 & "?") & part id) & part (limit_field id (negsuc 99)))
          none
          request_get
          "token"
          (some multiple_message_callback)
          pool)
get_messages_queues_example =
    get_messages_queues "token" 42 (negsuc 99) 0 5 0 pool (omega arith) (omega arith) (omega arith)
      (omega arith) (omega arith) (omega arith)
