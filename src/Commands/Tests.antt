-- ===== src/Commands/Tests.antt =====
-- The theorems about commands at a concrete command.
use Prim.Native.String.{String}
use disco_c.Prelude.{
  ℕ, ◌≡◌, refl, Bool, true, false, not, none, some, List, [], ◌∷◌, ◌++◌, map, arith, All, leb,
}
use disco_c.Prelude.Int.{pos}
use disco_c.Json.Build.{add_array, Value, object}
use disco_c.Request.{request_post, request_patch, request_delete}
use disco_c.Commands.Order.{ordered_options, ordered_options_lem, filter}
use disco_c.Commands.Options.{
  option_string, OptionParts, CommandOptions, command_option, no_options, option_and, option_head,
  option_tail, CommandOption, add_option, Command,
}
use disco_c.Commands.Register.{
  described, commands_url, command_url, guild_command_url, global_command_url, registration, update,
  deletion_global, deletion_guild,
}
use disco_c.Commands.Written.{option_list, is_required, add_option_lem}
use disco_c.Commands.Register.Sending.{command_requests_fit}

abbrev a_part : Bool → OptionParts ℕ
a_part required = record {
  type = option_string;
  name = some "name";
  name_localizations = none;
  description = some "text";
  description_localizations = none;
  required = required;
  choices = [];
  channel_types = [];
  min_value = 0;
  max_value = 0;
  min_length = pos 0;
  max_length = pos 9;
  autocomplete = false;
}

abbrev options : CommandOptions ℕ
options =
    option_and (command_option (a_part false) no_options)
      (option_and (command_option (a_part true) no_options) no_options)

abbrev a_command : Command ℕ
a_command = record {
  type = 1;
  guild_id = 42;
  name = some "hello";
  name_localizations = none;
  description = some "greets";
  description_localizations = none;
  options = options;
  default_member_permissions = none;
  dm_permission = true;
  version = 3;
}

abbrev print : Value ℕ → String
print v = "{}"

ordered_options_lem_example :
    ordered_options (λ n. leb 3 n) (1 ∷ 4 ∷ 2 ∷ 3 ∷ [])
    ≡ some (
        filter (λ n. leb 3 n) (1 ∷ 4 ∷ 2 ∷ 3 ∷ [])
        ++ filter (λ n. not (leb 3 n)) (1 ∷ 4 ∷ 2 ∷ 3 ∷ []))
ordered_options_lem_example = ordered_options_lem (λ n. leb 3 n) (1 ∷ 4 ∷ 2 ∷ 3 ∷ [])

-- The two loops at work.
four_options : ordered_options (λ n. leb 3 n) (1 ∷ 4 ∷ 2 ∷ 3 ∷ []) ≡ some (4 ∷ 3 ∷ 1 ∷ 2 ∷ [])
unfolding ordered_options
four_options = refl

add_option_lem_example :
    (pairs : List (CommandOption ℕ × Value ℕ)) × (map (λ p. p.0) pairs ≡ option_list options)
    × All (λ p. add_option p.0 ≡ some p.1) pairs
    × (add_option (command_option (a_part true) options)
        ≡ some (
            object (
              option_tail (a_part true) (
                add_array "options"
                  (λ p. p.1)
                  (filter (λ p. is_required p.0) pairs ++ filter (λ p. not (is_required p.0)) pairs)
                  (option_head (a_part true))))))
add_option_lem_example = add_option_lem (a_part true) options

command_requests_fit_example :
    (json : String) × (described print a_command ≡ some json)
    × (registration print a_command "12345"
        ≡ some (record {
          url = commands_url "12345" 42;
          json = some json;
          request_type = request_post;
        }))
    × (update print a_command 7 "12345"
        ≡ some (record {
          url = command_url "12345" 42 7;
          json = some json;
          request_type = request_patch;
        }))
    × (deletion_global 7 "12345"
        ≡ some (record {
          url = global_command_url "12345" 7;
          json = none;
          request_type = request_delete;
        }))
    × (deletion_guild 42 7 "12345"
        ≡ some (record {
          url = guild_command_url "12345" 42 7;
          json = none;
          request_type = request_delete;
        }))
command_requests_fit_example =
    command_requests_fit print a_command 7 42 "12345" (omega arith) (omega arith) (omega arith)
      (omega arith) (omega arith)
