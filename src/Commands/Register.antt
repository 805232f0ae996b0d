-- ===== src/Commands/Register.antt =====
-- src/discord/command.c: the requests on commands, with the pool of a bot that is given as NULL.
pub mod Bounds
pub mod Sending
use Prim.Native.String.{String}
use mathlib.Core.Option
use disco_c.Prelude.{
  ℕ, zero, suc, ◌+◌, ◌-◌, ◌*◌, ◌/◌, ◌%◌, ◌^◌, ◌≤◌, ◌<◌, ◌≡◌, refl, sym, ap, ◌∙◌, subst, ◌≢◌, ◌↔◌,
  ◌⊎◌, inl, inr, Bool, true, false, not, ◌&&◌, ◌||◌, Option, none, some, List, [], ◌∷◌, ◌++◌, map,
  arith, length, length-append, All, ltb, leb, ◌==◌, if◌then◌else◌, ltb→lt, lt→ltb, leb→le, ==_iff,
  Bool-cases, Option-cases,
}
use disco_c.Prelude.Decimal.{◌&◌, print_uint}
use disco_c.Json.Build.{Value, Fields, no_fields, object}
use disco_c.TPool.{TPool}
use disco_c.Request.{RequestNode, RequestType, request_post, request_patch, request_delete, request}
use disco_c.Outgoing.Buffer.{sprintf}
use disco_c.Commands.Options.{Command, format_json}

unfoldable pub application_url : String → String
unfolding ◌&◌
application_url application_id = "https://discord.com/api/v10/applications/" & application_id

unfoldable pub guild_url : String → ℕ → String
unfolding ◌&◌ print_uint application_url
guild_url application_id guild_id =
    application_url application_id & "/guilds/" & print_uint guild_id

-- The URL of all commands of an application, for a guild if its ID is not 0.
unfoldable pub commands_url : String → ℕ → String
unfolding ◌&◌ application_url guild_url
commands_url application_id guild_id =
    if guild_id == 0
    then application_url application_id & "/commands"
    else guild_url application_id guild_id & "/commands"

unfoldable pub guild_command_url : String → ℕ → ℕ → String
unfolding ◌&◌ print_uint guild_url
guild_command_url application_id guild_id command_id =
    guild_url application_id guild_id & "/commands/" & print_uint command_id

unfoldable pub global_command_url : String → ℕ → String
unfolding ◌&◌ print_uint application_url
global_command_url application_id command_id =
    application_url application_id & "/commands/" & print_uint command_id

unfoldable pub command_url : String → ℕ → ℕ → String
unfolding global_command_url guild_command_url
command_url application_id guild_id command_id =
    if guild_id == 0
    then global_command_url application_id command_id
    else guild_command_url application_id guild_id command_id

-- What `request` is given for a command.
pub record CommandRequest : Type 0 where
  pub url : String
  pub json : Option String
  pub request_type : RequestType

-- `request` for the pool of a bot; none for a bot that is NULL, whose pool it reads.
unfoldable pub request_of :
    Option (TPool RequestNode) → String → CommandRequest → Option (TPool RequestNode)
unfolding request
request_of none token r = none
request_of (some pool) token r = some (request r.url r.json r.request_type token none pool)

-- A request, none if the URL is written past the end of its buffer.
unfoldable pub command_request : Option String → String → RequestType → Option CommandRequest
unfolding sprintf
command_request json url type =
    Option.map (λ u. record { url = u; json = json; request_type = type }) (sprintf 120 url)

-- The calls of `request` have NULL for the bot.
unfoldable pub send_of_no_bot : String → Option CommandRequest → Option (TPool RequestNode)
unfolding request_of
send_of_no_bot token none = none
send_of_no_bot token (some r) = request_of none token r

module _ {R : Type 0} (print : Value R → String) where
  -- What `format_json` returned is not looked at.
  unfoldable pub described : Command R → Option String
  unfolding format_json
  described command = Option.map (λ r. print (object r.0)) (format_json command no_fields)

  unfoldable pub registration : Command R → String → Option CommandRequest
  unfolding described command_request commands_url
  registration command application_id = elim (described command) [
    | none ↦ none
    | some json ↦
        command_request (some json) (commands_url application_id command.guild_id) request_post
  ]

  unfoldable pub update : Command R → ℕ → String → Option CommandRequest
  unfolding described command_request command_url
  update command command_id application_id = elim (described command) [
    | none ↦ none
    | some json ↦
        command_request (some json) (command_url application_id command.guild_id command_id)
          request_patch
  ]

  unfoldable pub discord_command_register : Command R → String → String → Option (TPool RequestNode)
  unfolding registration send_of_no_bot
  discord_command_register command token application_id =
      send_of_no_bot token (registration command application_id)

  unfoldable pub discord_command_update :
      Command R → ℕ → String → String → Option (TPool RequestNode)
  unfolding update send_of_no_bot
  discord_command_update command command_id token application_id =
      send_of_no_bot token (update command command_id application_id)

unfoldable pub deletion_global : ℕ → String → Option CommandRequest
unfolding command_request global_command_url
deletion_global command_id application_id =
    command_request none (global_command_url application_id command_id) request_delete

unfoldable pub deletion_guild : ℕ → ℕ → String → Option CommandRequest
unfolding command_request guild_command_url
deletion_guild guild_id command_id application_id =
    command_request none (guild_command_url application_id guild_id command_id) request_delete

unfoldable pub discord_command_delete_global : ℕ → String → String → Option (TPool RequestNode)
unfolding deletion_global send_of_no_bot
discord_command_delete_global command_id token application_id =
    send_of_no_bot token (deletion_global command_id application_id)

unfoldable pub discord_command_delete_guild : ℕ → ℕ → String → String → Option (TPool RequestNode)
unfolding deletion_guild send_of_no_bot
discord_command_delete_guild guild_id command_id token application_id =
    send_of_no_bot token (deletion_guild guild_id command_id application_id)
