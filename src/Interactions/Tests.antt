-- ===== src/Interactions/Tests.antt =====
-- The theorems about interactions at concrete inputs.
use Prim.Native.String.{String}
use disco_c.Prelude.{ℕ, ◌≡◌, refl, none, some, [], ◌∷◌, arith, ◌==◌}
use disco_c.Prelude.Int.{pos}
use disco_c.Json.{_d_get_int_from_json}
use disco_c.Json.Build.{Value, number, object, no_fields, field, lookup_field, same_ignoring_case}
use disco_c.Request.{request_post}
use disco_c.Commands.Options.{option_string}
use disco_c.Interactions.Options.{
  DataOption, _d_json_to_interaction_data_option, _d_copy_interaction_data_option,
}
use disco_c.Interactions.Options.Nesting.{IsNested, copy-read_int_option}
use disco_c.Interactions.Reply.{
  pong, autocomplete, Received, ReplyChoice, reply_data, reply_json, callback_url, reply_request,
  discord_send_interaction,
}
use disco_c.Interactions.Reply.Sending.{reply_request_fits, autocomplete_overrun}
use disco_c.Samples.Tree.{tree_json, size, found_size-get, size-elements_of}

abbrev entered : Value ℕ
entered = object (field (field no_fields "type" (number (pos 4))) "value" (number (pos 7)))

read_int :
    (_d_get_int_from_json tree_json entered "type" (pos 0) ≡ pos 4)
    × (_d_get_int_from_json tree_json entered "value" (pos 0) ≡ pos 7)
unfolding _d_get_int_from_json lookup_field same_ignoring_case
read_int = (refl, refl)

tree_json-IsNested : IsNested {R = ℕ} tree_json (λ v. 0) 0 size
tree_json-IsNested = record {
  deeper = λ v a e. size-elements_of (size v) a (rw e at (found_size-get v "options"));
}

copy-read_int_option_example :
    (o : DataOption ℕ) × (_d_json_to_interaction_data_option tree_json (λ v. 0) 0 2 entered
      ≡ some o)
    × (_d_copy_interaction_data_option (λ d. d == 0) o ≡ none)
copy-read_int_option_example =
    copy-read_int_option tree_json (λ v. 0) 0 size tree_json-IsNested (λ d. d == 0) 2 entered
      (pos 7) (omega arith) read_int.0 read_int.1 refl

abbrev print : Value ℕ → String
print v = "{}"

abbrev a_received : Received
a_received = record { id = 42; token = some "abc"; option_types = some (option_string ∷ []) }

ponged : reply_data {R = ℕ} pong a_received ≡ some no_fields
unfolding reply_data
ponged = refl

reply_request_fits_example :
    (reply_request print pong a_received
      ≡ some (record {
        url = callback_url 42 "abc";
        json = some (print (reply_json pong no_fields));
        request_type = request_post;
      }))
    × (discord_send_interaction print "token" pong a_received ≡ none)
reply_request_fits_example =
    reply_request_fits print "token" pong a_received no_fields "abc" ponged refl (omega arith)
      (omega arith)

abbrev a_choice : ReplyChoice ℕ
a_choice = record {
  name = some "one";
  name_localizations = none;
  value = record { number = 0; str = some (some "1") };
}

autocomplete_overrun_example :
    reply_request print (autocomplete (a_choice ∷ a_choice ∷ [])) a_received ≡ none
autocomplete_overrun_example =
    autocomplete_overrun print (a_choice ∷ a_choice ∷ []) (option_string ∷ []) a_received refl
      (omega arith)
