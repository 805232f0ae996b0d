-- ===== src/Commands/Register/Bounds.antt =====
-- src/discord/command.c: how long the URLs can be.
use Prim.Native.String.{String}
use disco_c.Prelude.{ℕ, ◌^◌, ◌≤◌, ◌<◌, Bool, true, false, arith, ◌==◌, if◌then◌else◌}
use disco_c.Prelude.Text.{text_length}
use disco_c.Prelude.Decimal.{◌&◌, print_uint, length-&, length-print_uint}
use disco_c.Commands.Register.{
  application_url, guild_url, commands_url, guild_command_url, global_command_url, command_url,
}

length-if :
    (b : Bool) (s t : String) (k : ℕ)
    → text_length s ≤ k
    → text_length t ≤ k
    → text_length (if b then s else t) ≤ k
length-if true s t k h l = h
length-if false s t k h l = l

length-application_url :
    (application_id : String)
    → text_length application_id ≤ 20
    → text_length (application_url application_id) ≤ 61
unfolding application_url
length-application_url application_id h =
    omega (arith, length-& "https://discord.com/api/v10/applications/" application_id)

length-guild_url :
    (application_id : String) (guild_id : ℕ)
    → text_length application_id ≤ 20
    → guild_id < 2 ^ 64
    → text_length (guild_url application_id guild_id) ≤ 89
unfolding guild_url
length-guild_url application_id guild_id h g = omega (
  arith,
  length-& (application_url application_id) ("/guilds/" & print_uint guild_id),
  length-& "/guilds/" (print_uint guild_id),
  length-print_uint guild_id g,
  length-application_url application_id h,
)

pub length-commands_url :
    (application_id : String) (guild_id : ℕ)
    → text_length application_id ≤ 20
    → guild_id < 2 ^ 64
    → text_length (commands_url application_id guild_id) ≤ 98
unfolding commands_url
length-commands_url application_id guild_id h g =
    let a = length-application_url application_id h in
    let b = length-guild_url application_id guild_id h g in
    let c = length-& (application_url application_id) "/commands" in
    let d = length-& (guild_url application_id guild_id) "/commands" in
    length-if (guild_id == 0) (application_url application_id & "/commands")
      (guild_url application_id guild_id & "/commands") 98 (omega (arith, a, c))
      (omega (arith, b, d))

pub length-global_command_url :
    (application_id : String) (command_id : ℕ)
    → text_length application_id ≤ 20
    → command_id < 2 ^ 64
    → text_length (global_command_url application_id command_id) ≤ 91
unfolding global_command_url
length-global_command_url application_id command_id h c = omega (
  arith,
  length-& (application_url application_id) ("/commands/" & print_uint command_id),
  length-& "/commands/" (print_uint command_id),
  length-print_uint command_id c,
  length-application_url application_id h,
)

pub length-guild_command_url :
    (application_id : String) (guild_id command_id : ℕ)
    → text_length application_id ≤ 20
    → guild_id < 2 ^ 64
    → command_id < 2 ^ 64
    → text_length (guild_command_url application_id guild_id command_id) ≤ 119
unfolding guild_command_url
length-guild_command_url application_id guild_id command_id h g c = omega (
  arith,
  length-& (guild_url application_id guild_id) ("/commands/" & print_uint command_id),
  length-& "/commands/" (print_uint command_id),
  length-print_uint command_id c,
  length-guild_url application_id guild_id h g,
)

pub length-command_url :
    (application_id : String) (guild_id command_id : ℕ)
    → text_length application_id ≤ 20
    → guild_id < 2 ^ 64
    → command_id < 2 ^ 64
    → text_length (command_url application_id guild_id command_id) ≤ 119
unfolding command_url
length-command_url application_id guild_id command_id h g c =
    let a = length-global_command_url application_id command_id h c in
    let b = length-guild_command_url application_id guild_id command_id h g c in
    length-if (guild_id == 0) (global_command_url application_id command_id)
      (guild_command_url application_id guild_id command_id) 119 (omega (arith, a))
      (omega (arith, b))
