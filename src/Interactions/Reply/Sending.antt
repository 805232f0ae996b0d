-- ===== src/Interactions/Reply/Sending.antt =====
-- src/discord/interaction.c: what is sent as a reply.
use Prim.Native.String.{String}
use disco_c.Prelude.{
  ℕ, ◌+◌, ◌^◌, ◌≤◌, ◌<◌, ◌≡◌, refl, ap, ◌∙◌, inl, inr, Option, none, some, List, [], ◌∷◌, arith,
  length, Option-cases,
}
use disco_c.Prelude.Text.{text_length}
use disco_c.Prelude.Decimal.{◌&◌, print_uint, length-&, length-print_uint}
use disco_c.Json.Build.{Value, Items, item, no_items, Fields}
use disco_c.Request.{request_post}
use disco_c.Outgoing.Buffer.Fits.{sprintf_fits}
use disco_c.Commands.Options.{OptionType}
use disco_c.Commands.Register.Sending.{send_of_no_bot_lem}
use disco_c.Interactions.Reply.{
  Callback, autocomplete, Received, ReplyChoice, reply_choice, reply_choices, autocomplete_fields,
  reply_data, reply_json, bounded_length, callback_url, callback_uri, posted, reply_request,
  discord_send_interaction,
}

length-callback_url :
    (id : ℕ) (token : String)
    → id < 2 ^ 64
    → text_length (callback_url id token) ≤ 71 + text_length token
unfolding callback_url
length-callback_url id token h = omega (
  arith,
  length-& "https://discord.com/api/v10/interactions/" (print_uint id & "/" & token & "/callback"),
  length-& (print_uint id) ("/" & token & "/callback"),
  length-& "/" (token & "/callback"),
  length-& token "/callback",
  length-print_uint id h,
)

length-bounded :
    (token : String) → text_length token ≤ 508 → text_length token ≤ 8 + bounded_length 500 token
unfolding bounded_length
length-bounded token h = ground (arith, h)

callback_uri_fits :
    (id : ℕ) (token : String) (o : Option String)
    → o ≡ some token
    → id < 2 ^ 64
    → text_length token ≤ 508
    → callback_uri id o ≡ some (callback_url id token)
unfolding callback_uri
callback_uri_fits id token o e h l =
    ap (callback_uri id) e
    ∙ sprintf_fits (80 + bounded_length 500 token) (callback_url id token)
        (omega (arith, length-callback_url id token h, length-bounded token l))

-- A reply whose data can be written, to an interaction with an ID below 2^64 and a token of at most 508
-- characters: the URL fits into its buffer, and a request is made with the type and the data of the reply; but it is
-- not queued, since the pool of a bot that is NULL is read.
pub reply_request_fits :
    {R : Type 0} (print : Value R → String) (bot_token : String) (cb : Callback R) (recv : Received)
    (fs : Fields R) (token : String)
    → reply_data cb recv ≡ some fs
    → recv.token ≡ some token
    → recv.id < 2 ^ 64
    → text_length token ≤ 508
    → (reply_request print cb recv
        ≡ some (record {
          url = callback_url recv.id token;
          json = some (print (reply_json cb fs));
          request_type = request_post;
        }))
      × (discord_send_interaction print bot_token cb recv ≡ none)
unfolding reply_request posted discord_send_interaction
reply_request_fits print bot_token cb recv fs token d t h l = (
  λ j. posted print cb (d j) (callback_uri_fits recv.id token recv.token t h l j),
  send_of_no_bot_lem bot_token (reply_request print cb recv),
)

-- Every choice takes its type from the option at its place.
reply_choices_overrun :
    {R : Type 0} (choices : List (ReplyChoice R)) (types : List OptionType) (made : Items R)
    → length types < length choices
    → reply_choices choices types made ≡ none
unfolding reply_choices
reply_choices_overrun [] types made h = absurd (omega (arith, h))
reply_choices_overrun (choice ∷ rest) [] made h = refl
reply_choices_overrun (choice ∷ rest) (type ∷ types) made h =
    elim (Option-cases (reply_choice type choice)) [
      | inl e ↦ rw (e, reply_choices) refl
      | inr (v, e) ↦
          rw (e, reply_choices) (reply_choices_overrun rest types (item made v) (omega (arith, h)))
    ]

autocomplete_fields_overrun :
    {R : Type 0} (choices : List (ReplyChoice R)) (types : List OptionType)
    → length types < length choices
    → autocomplete_fields choices (some types) ≡ none
unfolding autocomplete_fields
autocomplete_fields_overrun [] types h = absurd (omega (arith, h))
autocomplete_fields_overrun (choice ∷ rest) types h =
    rw (reply_choices_overrun (choice ∷ rest) types no_items h) refl

no_reply :
    {R : Type 0} (print : Value R → String) (cb : Callback R) (uri : Option String)
    → posted print cb none uri ≡ none
unfolding posted
no_reply print cb uri = refl

-- Suggestions of more choices than the command that was received has options: the types of the choices are read past
-- the end of these, so that no request is made, whatever the choices are.
pub autocomplete_overrun :
    {R : Type 0} (print : Value R → String) (choices : List (ReplyChoice R))
    (types : List OptionType) (recv : Received)
    → recv.option_types ≡ some types
    → length types < length choices
    → reply_request print (autocomplete choices) recv ≡ none
unfolding reply_request reply_data
autocomplete_overrun print choices types recv e h =
    let uri = callback_uri recv.id recv.token in
    ap (λ o. posted print (autocomplete choices) (autocomplete_fields choices o) uri) e
    ∙ ap (λ o. posted print (autocomplete choices) o uri)
        (autocomplete_fields_overrun choices types h)
    ∙ no_reply print (autocomplete choices) uri
