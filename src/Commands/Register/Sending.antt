-- ===== src/Commands/Register/Sending.antt =====
-- src/discord/command.c: what is sent for commands, and the buffers of their URLs.
use Prim.Native.String.{String}
use mathlib.Core.Option
use disco_c.Prelude.{
  ℕ, ◌^◌, ◌≤◌, ◌<◌, ◌≡◌, refl, ◌⊎◌, inl, inr, Bool, true, false, Option, none, some, arith, ◌==◌,
  if◌then◌else◌, Option-cases,
}
use disco_c.Prelude.Text.{text_length}
use disco_c.Prelude.Decimal.{print_uint}
use disco_c.Json.Build.{Value, text, boolean, Fields, no_fields, field, object, add_text}
use disco_c.Request.{RequestType, request_post, request_patch, request_delete}
use disco_c.Outgoing.Buffer.{sprintf}
use disco_c.Outgoing.Buffer.Fits.{sprintf_fits, sprintf_short_id}
use disco_c.Commands.Written.{required_first, add_ordered_lem, written_options}
use disco_c.Commands.Options.{
  add_options, Command, command_head, command_tail, command_fields, add_version, format_json,
}
use disco_c.Commands.Register.Bounds.{
  length-commands_url, length-global_command_url, length-guild_command_url, length-command_url,
}
use disco_c.Commands.Register.{
  commands_url, guild_command_url, global_command_url, command_url, CommandRequest, request_of,
  command_request, send_of_no_bot, described, registration, update, deletion_global, deletion_guild,
  discord_command_register, discord_command_update, discord_command_delete_global,
  discord_command_delete_guild,
}

module _ {R : Type 0} where
  version_written :
      (b : Bool) (s : String) (printed : Option String) (json : Fields R)
      → printed ≡ some s
      → (json' : Fields R) × ((if b
            then some json
            else Option.map (λ t. field json "version" (text t)) printed)
          ≡ some json')
  version_written true s printed json e = (json, refl)
  version_written false s printed json e = (field json "version" (text s), rw e refl)

  add_version-IsSome :
      (version : ℕ) (json : Fields R)
      → version < 10 ^ 19
      → (json' : Fields R) × (add_version version json ≡ some json')
  unfolding add_version
  add_version-IsSome version json h =
      version_written (version == 0) (print_uint version) (sprintf 20 (print_uint version)) json
        (sprintf_short_id version h)

  command_fields-IsSome :
      (name : String) (command : Command R) (json : Fields R)
      → command.version < 10 ^ 19
      → (json' : Fields R) × (command_fields name command json ≡ some json')
  unfolding command_fields command_tail
  command_fields-IsSome name command json h =
      let (vs, e) = written_options command.options in
      let tail =
        field
          (add_text "default_member_permissions" command.default_member_permissions
            (add_options (required_first vs) (command_head name command json)))
          "dm_permission" (boolean command.dm_permission) in
      let (json', f) = add_version-IsSome command.version tail h in
      (json', rw (e, add_ordered_lem vs (command_head name command json), f, command_fields) refl)

  format_json_named :
      (command : Command R) (json json' : Fields R) (name : String)
      → command.name ≡ some name
      → command_fields name command json ≡ some json'
      → format_json command json ≡ some (json', 0)
  unfolding format_json
  format_json_named command json json' name e f = simp (e, f, format_json)

  -- For a version below 10^19, the JSON of a command is always made without a fault: 1 is returned with nothing written
  -- if the command has no name, else 0.
  format_json_returns :
      (command : Command R) (json : Fields R)
      → command.version < 10 ^ 19
      → ((command.name ≡ none) × (format_json command json ≡ some (json, 1)))
        ⊎ ((json' : Fields R) × (name : String) × (command.name ≡ some name)
            × (format_json command json ≡ some (json', 0)))
  unfolding format_json
  format_json_returns command json h = elim (Option-cases command.name) [
    | inl e ↦ inl (e, rw (e, format_json) refl)
    | inr (name, e) ↦
        let (json', f) = command_fields-IsSome name command json h in
        inr (json', name, e, format_json_named command json json' name e f)
  ]

command_request_fits :
    (json : Option String) (url : String) (type : RequestType)
    → text_length url ≤ 119
    → command_request json url type ≡ some (record { url = url; json = json; request_type = type })
unfolding command_request
command_request_fits json url type h = rw (sprintf_fits 120 url (omega (arith, h))) refl

described-IsSome :
    {R : Type 0} (print : Value R → String) (command : Command R)
    → command.version < 10 ^ 19
    → (json : String) × (described print command ≡ some json)
unfolding described
described-IsSome print command v = elim (format_json_returns command no_fields v) [
  | inl (_, e) ↦ (print (object no_fields), rw e refl)
  | inr (json', _, _, e) ↦ (print (object json'), rw e refl)
]

pub send_of_no_bot_lem :
    (token : String) (r : Option CommandRequest) → send_of_no_bot token r ≡ none
unfolding send_of_no_bot request_of
send_of_no_bot_lem token none = refl
send_of_no_bot_lem token (some r) = refl

-- With an application ID of at most 20 characters, the IDs below 2^64 and a version below 10^19, no call on
-- commands writes past the end of a buffer, whatever the command has: each makes its request, to the
-- URL of the guild or the global one, with the JSON of the command or none.
pub command_requests_fit :
    {R : Type 0} (print : Value R → String) (command : Command R) (command_id guild_id : ℕ)
    (application_id : String)
    → text_length application_id ≤ 20
    → command_id < 2 ^ 64
    → guild_id < 2 ^ 64
    → command.guild_id < 2 ^ 64
    → command.version < 10 ^ 19
    → (json : String) × (described print command ≡ some json)
      × (registration print command application_id
          ≡ some (record {
            url = commands_url application_id command.guild_id;
            json = some json;
            request_type = request_post;
          }))
      × (update print command command_id application_id
          ≡ some (record {
            url = command_url application_id command.guild_id command_id;
            json = some json;
            request_type = request_patch;
          }))
      × (deletion_global command_id application_id
          ≡ some (record {
            url = global_command_url application_id command_id;
            json = none;
            request_type = request_delete;
          }))
      × (deletion_guild guild_id command_id application_id
          ≡ some (record {
            url = guild_command_url application_id guild_id command_id;
            json = none;
            request_type = request_delete;
          }))
unfolding registration update deletion_global deletion_guild
command_requests_fit print command command_id guild_id application_id a c g k v =
    let (json, e) = described-IsSome print command v in
    let r =
      command_request_fits (some json) (commands_url application_id command.guild_id) request_post
        (omega (arith, length-commands_url application_id command.guild_id a k)) in
    let u =
      command_request_fits (some json) (command_url application_id command.guild_id command_id)
        request_patch (length-command_url application_id command.guild_id command_id a k c) in
    let d =
      command_request_fits none (global_command_url application_id command_id) request_delete
        (omega (arith, length-global_command_url application_id command_id a c)) in
    let f =
      command_request_fits none (guild_command_url application_id guild_id command_id)
        request_delete (length-guild_command_url application_id guild_id command_id a g c) in
    (json, e, rw (e, r, registration) refl, rw (e, u, update) refl, d, f)

-- No call on commands ever queues a request, whatever its arguments are: each writes past the end of a
-- buffer or reads the pool of a bot that is NULL.
commands_fault :
    {R : Type 0} (print : Value R → String) (command : Command R) (command_id guild_id : ℕ)
    (token application_id : String)
    → (discord_command_register print command token application_id ≡ none)
      × (discord_command_update print command command_id token application_id ≡ none)
      × (discord_command_delete_global command_id token application_id ≡ none)
      × (discord_command_delete_guild guild_id command_id token application_id ≡ none)
unfolding discord_command_register discord_command_update discord_command_delete_global
    discord_command_delete_guild
commands_fault print command command_id guild_id token application_id = (
  send_of_no_bot_lem token (registration print command application_id),
  send_of_no_bot_lem token (update print command command_id application_id),
  send_of_no_bot_lem token (deletion_global command_id application_id),
  send_of_no_bot_lem token (deletion_guild guild_id command_id application_id),
)
